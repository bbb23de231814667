-- ===== src/FrameView.antt =====
-- plugkit/src/frame_view.cpp: the view of a dissected frame, its leaf layers in the order of their
-- confidence, and the search for a layer or an attribute from the leaves up. Layers are those of
-- Layer, in its heap.
pub mod Leaves
pub mod Links
pub mod Order
mod Tests
use deplug.Common.{
  ℕ, zero, suc, Bool, Option, none, some, List, [], ◌∷◌, ◌++◌, ltb, ◌==◌, if◌then◌else◌, length,
  get_elem?,
}
use deplug.Variant.{Slice, Floats}
use deplug.Layer.{Layer, Attr, Payload, confidence, confidence_code, attr, parent}

-- `for (const Layer *child : layer->layers()) findLeafLayers(child);`
unfoldable pub for_each : (ℕ → Option (List ℕ)) → List ℕ → Option (List ℕ)
for_each find [] = some []
for_each find (child ∷ children) = elim (find child) [
  | none ↦ none
  | some here ↦ elim (for_each find children) [ none ↦ none | some rest ↦ some (here ++ rest) ]
]

module _ {D P F : Type 0} where
  -- The lambda `findLeafLayers`, in rounds for the depth of the recursion; `none` if they run out
  -- or a pointer is dangling.
  unfoldable pub find_leaf_layers : List (Layer D P F) → ℕ → ℕ → Option (List ℕ)
  unfolding for_each
  find_leaf_layers heap zero layer = none
  find_leaf_layers heap (suc rounds) layer = elim (get_elem? heap layer) [
    | none ↦ none
    | some l ↦ elim (l.layers) [
      | [] ↦ some (layer ∷ [])
      | child ∷ children ↦ for_each (find_leaf_layers heap rounds) (child ∷ children)
    ]
  ]

  -- The comparison of the sort.
  unfoldable pub is_before : Layer D P F → Layer D P F → Bool
  is_before a b =
      let confidence_a = confidence_code (confidence a.flags) in
      let confidence_b = confidence_code (confidence b.flags) in
      if confidence_a == confidence_b then ltb a.id b.id else ltb confidence_b confidence_a

  module _ (f : Floats D) (alias_token id : ℕ) where
    -- The inner loop of `FrameView::attr`, from a leaf to its root.
    unfoldable pub attr_up : List (Layer D P F) → ℕ → ℕ → Option (Option (Attr D P))
    attr_up heap zero layer = none
    attr_up heap (suc rounds) layer = elim (get_elem? heap layer) [
      | none ↦ none
      | some l ↦ elim (attr f alias_token id l.attrs) [
        | some a ↦ some (some a)
        | none ↦ elim (parent l) [ none ↦ some none | some p ↦ attr_up heap rounds p ]
      ]
    ]

    -- `FrameView::attr` on the leaf layers.
    unfoldable pub view_attr : List (Layer D P F) → List ℕ → Option (Option (Attr D P))
    unfolding attr_up
    view_attr heap [] = some none
    view_attr heap (leaf ∷ leaves) = elim (attr_up heap (length heap) leaf) [
      | none ↦ none
      | some found ↦ elim found [ some a ↦ some (some a) | none ↦ view_attr heap leaves ]
    ]

  -- `FrameView::payload`: the first slice of the first payload of the root layer.
  unfoldable pub payload : List (Layer D P F) → Option ℕ → Slice
  payload heap root = elim root [
    | none ↦ record { data_at = []; length = 0 }
    | some r ↦ elim (get_elem? heap r) [
      | none ↦ record { data_at = []; length = 0 }
      | some l ↦ elim (l.payloads) [
        | [] ↦ record { data_at = []; length = 0 }
        | p ∷ more ↦ elim (p.slices) [ [] ↦ record { data_at = []; length = 0 } | s ∷ rest ↦ s ]
      ]
    ]
  ]
