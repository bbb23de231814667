-- ===== src/Layer/Parents.antt =====
-- The tree of layers under the root of a frame.
use deplug.Common.{
  ℕ, zero, suc, ◌+◌, ◌<◌, ◌≤◌, ◌≡◌, refl, sym, ◌∙◌, inl, inr, true, false, some, List, [], ◌∷◌,
  ◌++◌, arith, length, get_elem?, length-append, get_elem?-append_left, get_elem?-append_end,
  get_elem?_of_lt, some_eq,
}
use native.Mathlib.Decide.{dec_lt}
use deplug.Layer.{
  Layer, Attr, Payload, layer_member, frame_member, Confidence, modify, add_layer, new_layer,
  set_parent, exact, set_frame, set_confidence, set_worker, add_tag, add_attr, add_payload,
  add_child, is_root, parent, frame, frame_loop,
}
use deplug.Layer.Flags.{fields-independent}
use deplug.Layer.Heap.{length-modify, modify_from, get_elem?-lt}

-- What a dissector may do to a layer, other than adding a layer to it.
pub data Edit (D P : Type 0) : Type 0 where
  confidence_is : Confidence → Edit D P
  worker_of : ℕ → Edit D P
  tag_of : ℕ → Edit D P
  attr_of : Attr D P → Edit D P
  payload_of : Payload D P → Edit D P

pub data Op (D P : Type 0) : Type 0 where
  adds_layer : ℕ → ℕ → Op D P
  edits : ℕ → Edit D P → Op D P

module _ {D P F : Type 0} where
  unfoldable pub apply : Edit D P → Layer D P F → Layer D P F
  apply (confidence_is c) l = record l { flags = set_confidence c l.flags }
  apply (worker_of id) l = record l { flags = set_worker id l.flags }
  apply (tag_of tag) l = add_tag tag l
  apply (attr_of a) l = add_attr a l
  apply (payload_of p) l = add_payload p l

  unfoldable pub step : Op D P → List (Layer D P F) → List (Layer D P F)
  unfolding apply
  step (adds_layer layer id) heap = (add_layer layer id heap).1
  step (edits layer e) heap = modify layer (apply e) heap

  unfoldable pub run : List (Op D P) → List (Layer D P F) → List (Layer D P F)
  unfolding step
  run [] heap = heap
  run (o ∷ os) heap = run os (step o heap)

  pub add_layer-length :
      (layer id : ℕ) (heap : List (Layer D P F))
      → length (add_layer layer id heap).1 ≡ length heap + 1
  unfolding add_layer
  add_layer-length layer id heap =
      let child : Layer D P F = set_parent (some layer) (new_layer id) in
      omega (
        arith,
        length-modify layer (add_child (length heap)) (heap ++ child ∷ []),
        length-append heap (child ∷ []),
      )

-- Every call is made on a layer that is there, in a heap of `n` layers.
abbrev pub IsValid : {D P : Type 0} → ℕ → List (Op D P) → Type 0
IsValid n [] = Unit
IsValid n (adds_layer layer id ∷ os) = (layer < n) × IsValid (n + 1) os
IsValid n (edits layer e ∷ os) = IsValid n os

module _ {D P F : Type 0} (fr : F) where
  -- Layer 0 is the root and has the frame, every other layer has a parent that is older.
  abbrev pub Placed : ℕ → Layer D P F → Type 0
  Placed zero l = (is_root l.flags ≡ true) × (l.parent_link ≡ frame_member fr)
  Placed (suc i) l =
      (is_root l.flags ≡ false) × (p : ℕ) × (l.parent_link ≡ layer_member (some p)) × (p ≤ i)

  abbrev pub Tree : List (Layer D P F) → Type 0
  Tree heap = (i : ℕ) (l : Layer D P F) → get_elem? heap i ≡ some l → Placed i l

  Placed-congr :
      (i : ℕ) (l l' : Layer D P F)
      → is_root l'.flags ≡ is_root l.flags
      → l'.parent_link ≡ l.parent_link
      → Placed i l
      → Placed i l'
  Placed-congr zero l l' r p h = (r ∙ h.0, p ∙ h.1)
  Placed-congr (suc i) l l' r p (h, q, e, older) = (r ∙ h, q, p ∙ e, older)

  apply-Placed : (i : ℕ) (e : Edit D P) (l : Layer D P F) → Placed i l → Placed i (apply e l)
  unfolding apply add_tag add_attr add_payload
  apply-Placed i (confidence_is c) l h =
      let ((x, y, same), before, after) = fields-independent c 0 true l.flags in
      Placed-congr i l (apply (confidence_is c) l) same refl h
  apply-Placed i (worker_of id) l h =
      let (before, (x, y, same), after) = fields-independent exact id true l.flags in
      Placed-congr i l (apply (worker_of id) l) same refl h
  apply-Placed i (tag_of tag) l h = Placed-congr i l (apply (tag_of tag) l) refl refl h
  apply-Placed i (attr_of a) l h = Placed-congr i l (apply (attr_of a) l) refl refl h
  apply-Placed i (payload_of p) l h = Placed-congr i l (apply (payload_of p) l) refl refl h

  modify-Tree :
      (j : ℕ) (g : Layer D P F → Layer D P F) (heap : List (Layer D P F))
      → ((i : ℕ) (l : Layer D P F) → Placed i l → Placed i (g l))
      → Tree heap
      → Tree (modify j g heap)
  modify-Tree j g heap keeps t i l e =
      let (old, at, change) = modify_from j g heap i l e in
      elim change [
        | inl (apart, same) ↦ rw same (t i old at)
        | inr (same, changed) ↦ rw changed (keeps i old (t i old at))
      ]

  append-Tree :
      (heap : List (Layer D P F)) (l : Layer D P F)
      → Placed (length heap) l
      → Tree heap
      → Tree (heap ++ l ∷ [])
  append-Tree heap l new t i l' e = elim (dec_lt i (length heap)) [
    | yes old ↦ t i l' (sym (get_elem?-append_left heap (l ∷ []) i old) ∙ e)
    | no past ↦
        let size = length-append heap (l ∷ []) in
        let below = get_elem?-lt (heap ++ l ∷ []) i l' e in
        let last : i ≡ length heap = omega arith in
        let same : l' ≡ l = some_eq (sym e ∙ get_elem?-append_end heap l i last) in
        rw (same, last) new
  ]

  add_layer-Tree :
      (layer id : ℕ) (heap : List (Layer D P F))
      → layer < length heap
      → Tree heap
      → Tree (add_layer layer id heap).1
  unfolding add_layer set_parent new_layer add_child is_root
  add_layer-Tree layer id [] h t = absurd (omega arith)
  add_layer-Tree layer id (x ∷ heap) h t =
      let child : Layer D P F = set_parent (some layer) (new_layer id) in
      modify-Tree layer (add_child (length (x ∷ heap))) ((x ∷ heap) ++ child ∷ [])
        (λ i l p. Placed-congr i l (add_child (length (x ∷ heap)) l) refl refl p)
        (append-Tree (x ∷ heap) child (refl, layer, refl, omega arith) t)

  run-Tree :
      (os : List (Op D P)) (heap : List (Layer D P F))
      → IsValid (length heap) os
      → Tree heap
      → Tree (run os heap)
  unfolding run
  run-Tree [] heap v t = t
  run-Tree (adds_layer layer id ∷ os) heap (h, v) t =
      run-Tree os (add_layer layer id heap).1 (rw (add_layer-length layer id heap) v)
        (add_layer-Tree layer id heap h t)
  run-Tree (edits layer e ∷ os) heap v t =
      run-Tree os (modify layer (apply e) heap) (rw (length-modify layer (apply {F = F} e) heap) v)
        (modify-Tree layer (apply e) heap (λ i l p. apply-Placed i e l p) t)

  -- The loop goes up to the root.
  frame_loop-Tree :
      (rounds i : ℕ) (heap : List (Layer D P F))
      → Tree heap
      → i < rounds
      → i < length heap
      → frame_loop heap rounds i ≡ some (some fr)
  unfolding frame_loop
  frame_loop-Tree zero i heap t h b = absurd (omega arith)
  frame_loop-Tree (suc rounds) zero heap t h b =
      let (l, at) = get_elem?_of_lt heap 0 b in
      let (root, link) = t 0 l at in rw (frame_loop, at, root, link)
  frame_loop-Tree (suc rounds) (suc i) heap t h b =
      let (l, at) = get_elem?_of_lt heap (suc i) b in
      let (inner, p, link, older) = t (suc i) l at in
      let up = frame_loop-Tree rounds p heap t (omega arith) (omega arith) in
      let next : parent l ≡ some p = rw (parent, inner, link) in rw (frame_loop, at, inner, next) up

  -- The heap when the dissection of a frame starts: its root layer.
  abbrev pub start : ℕ → List (Layer D P F)
  start id = set_frame fr (new_layer id) ∷ []

  start-Tree : (id : ℕ) → Tree (start id)
  unfolding set_frame new_layer is_root
  start-Tree id zero l e =
      let same : l ≡ set_frame fr (new_layer id) = some_eq (sym e) in rw same (refl, refl)
  start-Tree id (suc i) l e = absurd (cc)

  -- However layers are added below the root of a frame and edited, as long as they are added to
  -- layers that are there, every layer knows the frame: the loop of `frame` ends, and ends at it.
  pub run-frame :
      (id : ℕ) (os : List (Op D P)) (i : ℕ)
      → IsValid 1 os
      → i < length (run os (start id))
      → frame i (run os (start id)) ≡ some (some fr)
  unfolding frame
  run-frame id os i v h =
      frame_loop-Tree (length (run os (start id))) i (run os (start id))
        (run-Tree os (start id) v (start-Tree id)) h h
