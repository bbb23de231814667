-- ===== src/FrameView/Tests.antt =====
-- The view of a frame with three layers below its root, one of them inside another.
use deplug.Common.{ℕ, ◌≡◌, refl, ◌↔◌, some, List, [], ◌∷◌, length, arith, ltb}
use deplug.Layer.{Layer, set_confidence, possible, add_layer, new_layer, set_frame}
use deplug.Layer.Parents.{Op, adds_layer, run, start}
use deplug.FrameView.Order.{key, is_before-key}
use deplug.FrameView.{is_before, find_leaf_layers}
use deplug.FrameView.Leaves.{In, IsLeaf}
use deplug.FrameView.Links.{run-leaves}

abbrev calls : List (Op ℕ ℕ)
calls = adds_layer 0 7 ∷ adds_layer 0 8 ∷ adds_layer 1 9 ∷ []

-- The heap after the calls, for a frame 42 whose root layer has the id 1.
abbrev heap : List (Layer ℕ ℕ ℕ)
heap = run calls (start 42 1)

leaf_layers : find_leaf_layers heap 4 0 ≡ some (3 ∷ 2 ∷ [])
unfolding find_leaf_layers run add_layer set_frame
leaf_layers = refl

run-leaves_example :
    (leaves : List ℕ) × (find_leaf_layers heap (length heap) 0 ≡ some leaves)
    × ((j : ℕ) → In j leaves ↔ IsLeaf heap j)
run-leaves_example = run-leaves 42 1 calls (omega arith, (omega arith, (omega arith, tt)))

abbrev certain : Layer ℕ ℕ ℕ
certain = new_layer 4

abbrev doubtful : Layer ℕ ℕ ℕ
doubtful = record (new_layer 3) { flags = set_confidence possible 0 }

-- The certain layer comes first though its id is greater.
is_before-key_example : is_before certain doubtful ≡ ltb (key certain) (key doubtful)
unfolding new_layer
is_before-key_example = is_before-key certain doubtful (omega arith) (omega arith)
