-- ===== src/Layer/Tests.antt =====
-- A frame with two protocol layers, and an alias.
use deplug.Common.{ℕ, ◌≡◌, some, List, [], ◌∷◌, ◌++◌, arith, false}
use deplug.Variant.Tests.{whole}
use deplug.Layer.{
  add_layer, Layer, attr, new_attr, new_layer, add_attr_alias, frame, probable, confidence,
  set_confidence, worker, set_worker, is_root, set_is_root,
}
use deplug.Layer.Flags.{fields-independent}
use deplug.Layer.Aliases.{add_attr_alias-attr}
use deplug.Layer.Parents.{Op, adds_layer, edits, confidence_is, run, run-frame, start}

abbrev calls : List (Op ℕ ℕ)
calls = adds_layer 0 7 ∷ edits 1 (confidence_is probable) ∷ adds_layer 1 8 ∷ []

run-frame_example : frame {F = ℕ} 2 (run calls (start {D = ℕ} {P = ℕ} 42 1)) ≡ some (some 42)
unfolding run add_layer
run-frame_example = run-frame 42 1 calls 2 (omega arith, (omega arith, tt)) (omega arith)

fields-independent_example :
    ((confidence (set_confidence probable 112) ≡ probable)
      × (worker (set_confidence probable 112) ≡ worker 112)
      × (is_root (set_confidence probable 112) ≡ is_root 112))
    × ((worker (set_worker 19 112) ≡ 3)
        × (confidence (set_worker 19 112) ≡ confidence 112)
        × (is_root (set_worker 19 112) ≡ is_root 112))
    × ((is_root (set_is_root false 112) ≡ false)
        × (confidence (set_is_root false 112) ≡ confidence 112)
        × (worker (set_is_root false 112) ≡ worker 112))
fields-independent_example = fields-independent probable 19 false 112

abbrev bare : Layer ℕ ℕ ℕ
bare = new_layer 7

-- The alias 5 for 6, and 6 added after it.
add_attr_alias-attr_example :
    attr whole 99 5 ((add_attr_alias 99 5 6 bare).attrs ++ new_attr 6 ∷ [])
    ≡ attr whole 99 6 (new_attr 6 ∷ [])
unfolding new_layer
add_attr_alias-attr_example =
    add_attr_alias-attr whole 99 5 6 bare (new_attr 6 ∷ []) (omega arith) tt
