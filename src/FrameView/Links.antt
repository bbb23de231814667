-- ===== src/FrameView/Links.antt =====
-- The leaf layers of a frame that was dissected by any sequence of calls.
use deplug.Common.{
  ℕ, zero, suc, ◌+◌, ◌<◌, ◌≡◌, refl, ap, sym, ◌∙◌, ◌↔◌, inl, inr, some, List, [], ◌∷◌, ◌++◌, arith,
  length, get_elem?, length-append, get_elem?-append_left, get_elem?-append_end, get_elem?_of_lt,
  some_eq,
}
use mathlib.Core.Path.{subst}
use native.Mathlib.Decide.{dec_lt, ℕ_discrete}
use deplug.Layer.{
  Layer, modify, add_layer, new_layer, set_parent, set_frame, add_child, add_tag, add_attr,
  add_payload,
}
use deplug.Layer.Heap.{length-modify, modify_from, modify_self, modify_other, get_elem?-lt}
use deplug.Layer.Parents.{
  Edit, Op, adds_layer, edits, confidence_is, worker_of, tag_of, attr_of, payload_of, apply, run,
  start, IsValid, add_layer-length,
}
use deplug.FrameView.{find_leaf_layers}
use deplug.FrameView.Leaves.{
  In, In-append, In-append_left, In-append_right, Linked, IsLeaf, find_leaf_layers-Found,
  below_root,
}

module _ {D P F : Type 0} where
  apply-layers : (e : Edit D P) (l : Layer D P F) → (apply e l).layers ≡ l.layers
  unfolding apply add_tag add_attr add_payload
  apply-layers (confidence_is c) l = refl
  apply-layers (worker_of id) l = refl
  apply-layers (tag_of t) l = refl
  apply-layers (attr_of a) l = refl
  apply-layers (payload_of p) l = refl

  -- A write that keeps the children that were there.
  modify_keeps :
      (i : ℕ) (g : Layer D P F → Layer D P F) (heap : List (Layer D P F))
      → ((l : Layer D P F) (c : ℕ) → In c l.layers → In c (g l).layers)
      → (q : ℕ) (l : Layer D P F) → get_elem? heap q ≡ some l
      → (l' : Layer D P F) × (get_elem? (modify i g heap) q ≡ some l')
        × ((c : ℕ) → In c l.layers → In c l'.layers)
  modify_keeps i g heap keeps q l at = elim (ℕ_discrete i q) [
    | yes same ↦ (
      g l,
      subst (λ k. get_elem? (modify i g heap) k ≡ some (g l)) same
          (modify_self i g heap l (ap (get_elem? heap) same ∙ at)),
      keeps l,
    )
    | no apart ↦ (l, modify_other i g heap q apart ∙ at, λ c m. m)
  ]

  edit-Linked :
      (i : ℕ) (e : Edit D P) (heap : List (Layer D P F))
      → Linked heap
      → Linked (modify i (apply e) heap)
  edit-Linked i e heap k =
      let size = length-modify i (apply e) heap in
      record {
        younger = λ j c l at m.
            let (old, at', change) = modify_from i (apply e) heap j l at in
            let m' : In c old.layers = elim change [
              | inl (apart, same) ↦ subst (λ x. In c x.layers) same m
              | inr (same, changed) ↦
                  subst (In c) (ap (λ x. x.layers) changed ∙ apply-layers e old) m
            ] in
            let (less, inside) = k.younger j c old at' m' in (less, omega arith);
        owned = λ c h.
            let (p, l, at, m) = k.owned c (omega arith) in
            let (l', at', keeps) =
              modify_keeps i (apply e) heap (λ x d n. subst (In d) (sym (apply-layers e x)) n) p l
                at in
            (p, l', at', keeps (suc c) m);
      }

  module _ (layer id : ℕ) (heap : List (Layer D P F)) (k : Linked heap)
      (h : layer < length heap) where
    abbrev child : Layer D P F
    child = set_parent (some layer) (new_layer id)

    abbrev grown : List (Layer D P F)
    grown = heap ++ child ∷ []

    abbrev linked : List (Layer D P F)
    linked = modify layer (add_child (length heap)) grown

    linked-length : length linked ≡ length heap + 1
    linked-length = omega (
      arith,
      length-modify layer (add_child (length heap)) grown,
      length-append heap (child ∷ []),
    )

    grown-younger :
        (i c : ℕ) (l : Layer D P F)
        → get_elem? grown i ≡ some l
        → In c l.layers
        → (i < c) × (c < length heap)
    unfolding set_parent new_layer
    grown-younger i c l at m = elim (dec_lt i (length heap)) [
      | yes old ↦ k.younger i c l (sym (get_elem?-append_left heap (child ∷ []) i old) ∙ at) m
      | no past ↦
          let below = get_elem?-lt grown i l at in
          let last : i ≡ length heap = omega (arith, length-append heap (child ∷ [])) in
          let same : l ≡ child = some_eq (sym at ∙ get_elem?-append_end heap child i last) in
          absurd (subst (In c) (ap (λ x. x.layers) same) m)
    ]

    add_child_keeps :
        (l : Layer D P F) (c : ℕ) → In c l.layers → In c (add_child (length heap) l).layers
    unfolding add_child
    add_child_keeps l c m = In-append_left c l.layers (length heap ∷ []) m

    linked-younger :
        (i c : ℕ) (l : Layer D P F)
        → get_elem? linked i ≡ some l
        → In c l.layers
        → (i < c) × (c < length heap + 1)
    unfolding add_child
    linked-younger i c l at m =
        let (old, at', change) = modify_from layer (add_child (length heap)) grown i l at in
        let kept = λ (n : In c old.layers). grown-younger i c old at' n in
        elim change [
          | inl (apart, same) ↦
              let (less, inside) = kept (subst (λ x. In c x.layers) same m) in (less, omega arith)
          | inr (same, changed) ↦
              elim (In-append c old.layers (length heap ∷ [])
                (subst (λ x. In c x.layers) changed m)) [
                  | inl n ↦ let (less, inside) = kept n in (less, omega arith)
                  | inr n ↦ elim n [ inl e ↦ (omega arith, omega arith) | inr n' ↦ absurd n' ]
                ]
        ]

    linked-owned :
        (c : ℕ)
        → suc c < length heap + 1
        → (p : ℕ) × (l : Layer D P F) × (get_elem? linked p ≡ some l) × In (suc c) l.layers
    unfolding add_child
    linked-owned c b = elim (dec_lt (suc c) (length heap)) [
      | yes old ↦
          let (p, l, at, m) = k.owned c old in
          let inside = get_elem?-lt heap p l at in
          let (l', at', keeps) =
            modify_keeps layer (add_child (length heap)) grown add_child_keeps p l
              (get_elem?-append_left heap (child ∷ []) p inside ∙ at) in
          (p, l', at', keeps (suc c) m)
      | no past ↦
          let (l, at) = get_elem?_of_lt heap layer h in
          let there : get_elem? grown layer ≡ some l =
            get_elem?-append_left heap (child ∷ []) layer h ∙ at in
          (
            layer,
            add_child (length heap) l,
            modify_self layer (add_child (length heap)) grown l there,
            In-append_right (suc c) l.layers (length heap ∷ []) (inl (omega arith)),
          )
    ]

    add_layer-Linked : Linked (add_layer layer id heap).1
    unfolding add_layer
    add_layer-Linked = record {
      younger = λ i c l at m.
          let (less, inside) = linked-younger i c l at m in (less, omega (arith, linked-length));
      owned = λ c b. linked-owned c (omega (arith, linked-length));
    }

  run-Linked :
      (os : List (Op D P)) (heap : List (Layer D P F))
      → IsValid (length heap) os
      → Linked heap
      → 0 < length heap
      → Linked (run os heap) × (0 < length (run os heap))
  unfolding run
  run-Linked [] heap v k h = (k, h)
  run-Linked (adds_layer layer id ∷ os) heap (b, v) k h =
      let size = add_layer-length layer id heap in
      run-Linked os (add_layer layer id heap).1 (rw size v) (add_layer-Linked layer id heap k b)
        (omega arith)
  run-Linked (edits layer e ∷ os) heap v k h =
      let size = length-modify layer (apply {F = F} e) heap in
      run-Linked os (modify layer (apply e) heap) (rw size v) (edit-Linked layer e heap k)
        (omega arith)

module _ {D P F : Type 0} (fr : F) where
  start-layers :
      (id i : ℕ) (l : Layer D P F)
      → get_elem? (start {D = D} {P = P} fr id) i ≡ some l
      → l.layers ≡ []
  unfolding set_frame new_layer set_parent
  start-layers id zero l e = ap (λ x. x.layers) (some_eq (sym e))
  start-layers id (suc i) l e = absurd (cc)

  start-Linked : (id : ℕ) → Linked (start {D = D} {P = P} fr id)
  unfolding set_frame new_layer set_parent
  start-Linked id = record {
    younger = λ i c l at m. absurd (subst (In c) (start-layers id i l at) m);
    owned = λ c b. absurd (omega arith);
  }

  -- Whatever the dissectors do below the root of a frame, the search for leaf layers ends, and
  -- finds exactly the layers that have no children.
  pub run-leaves :
      (id : ℕ) (os : List (Op D P))
      → IsValid 1 os
      → (leaves : List ℕ) × (find_leaf_layers
            (run os (start fr id))
            (length (run os (start fr id)))
            0
          ≡ some leaves)
        × ((j : ℕ) → In j leaves ↔ IsLeaf (run os (start fr id)) j)
  run-leaves id os v =
      let heap = run os (start fr id) in
      let (k, h) = run-Linked os (start fr id) v (start-Linked id) (omega arith) in
      let found = find_leaf_layers-Found heap k (length heap) 0 h (omega arith) in
      (
        found.leaves,
        found.ends,
        λ j. (
          found.sound j,
          λ leaf.
              let (l, at, none_below) = leaf in
              let inside = get_elem?-lt heap j l at in
              found.complete 0 j (inl refl) (below_root heap k (length heap) j inside inside) leaf,
        ),
      )
