-- ===== src/FrameView/Leaves.antt =====
-- The leaf layers that a view finds.
use deplug.Common.{
  ℕ, zero, suc, ◌+◌, ◌<◌, ◌≤◌, ◌≡◌, refl, ap, sym, ◌∙◌, ◌⊎◌, inl, inr, Option, some, List, [], ◌∷◌,
  ◌++◌, arith, length, get_elem?, get_elem?_of_lt, some_eq,
}
use mathlib.Core.Path.{subst}
use deplug.Layer.{Layer}
use deplug.FrameView.{for_each, find_leaf_layers}

abbrev pub In : ℕ → List ℕ → Type 0
In c [] = ⊥
In c (x ∷ xs) = (c ≡ x) ⊎ In c xs

pub In-append : (c : ℕ) (xs ys : List ℕ) → In c (xs ++ ys) → In c xs ⊎ In c ys
In-append c [] ys h = inr h
In-append c (x ∷ xs) ys (inl e) = inl (inl e)
In-append c (x ∷ xs) ys (inr h) = elim (In-append c xs ys h) [ inl l ↦ inl (inr l) | inr r ↦ inr r ]

pub In-append_left : (c : ℕ) (xs ys : List ℕ) → In c xs → In c (xs ++ ys)
In-append_left c [] ys h = elim h [ ]
In-append_left c (x ∷ xs) ys (inl e) = inl e
In-append_left c (x ∷ xs) ys (inr h) = inr (In-append_left c xs ys h)

pub In-append_right : (c : ℕ) (xs ys : List ℕ) → In c ys → In c (xs ++ ys)
In-append_right c [] ys h = h
In-append_right c (x ∷ xs) ys h = inr (In-append_right c xs ys h)

module _ {D P F : Type 0} (heap : List (Layer D P F)) where
  -- Pointers to children lead to younger layers, and every layer but the root is a child of some.
  pub record Linked : Type 0 where
    pub younger :
        (i c : ℕ) (l : Layer D P F)
        → get_elem? heap i ≡ some l
        → In c l.layers
        → (i < c) × (c < length heap)
    pub owned :
        (c : ℕ)
        → suc c < length heap
        → (p : ℕ) × (l : Layer D P F) × (get_elem? heap p ≡ some l) × In (suc c) l.layers

  abbrev pub IsLeaf : ℕ → Type 0
  IsLeaf i = (l : Layer D P F) × (get_elem? heap i ≡ some l) × (l.layers ≡ [])

  -- `j` is below `i` or `i` itself.
  pub data Below (i : ℕ) : ℕ → Type 0 where
    here : Below i i
    child :
        (p c : ℕ) (l : Layer D P F)
        → Below i p
        → get_elem? heap p ≡ some l
        → In c l.layers
        → Below i c

  pub below_root : (k : Linked) (n j : ℕ) → j < n → j < length heap → Below 0 j
  below_root k zero j h b = absurd (omega arith)
  below_root k (suc n) zero h b = here
  below_root k (suc n) (suc c) h b =
      let (p, l, at, member) = k.owned c b in
      let (less, inside) = k.younger p (suc c) l at member in
      child p (suc c) l (below_root k n p (omega arith) (omega arith)) at member

  below_top :
      (i j : ℕ)
      → Below i j
      → (i ≡ j)
        ⊎ ((c : ℕ) × (l : Layer D P F) × (get_elem? heap i ≡ some l) × In c l.layers × Below c j)
  below_top i j here = inl refl
  below_top i j (child p c l b at member) = elim (below_top i p b) [
    | inl same ↦ inr (c, l, rw same at, member, here)
    | inr (d, l', at', member', b') ↦ inr (d, l', at', member', child p c l b' at member)
  ]

  -- What a search finds: leaves, and every leaf below one of the starts.
  pub record Found (result : Option (List ℕ)) (starts : List ℕ) : Type 0 where
    pub leaves : List ℕ
    pub ends : result ≡ some leaves
    pub sound : (j : ℕ) → In j leaves → IsLeaf j
    pub complete : (c j : ℕ) → In c starts → Below c j → IsLeaf j → In j leaves

  for_each-Found :
      (find : ℕ → Option (List ℕ)) (cs : List ℕ)
      → ((c : ℕ) → In c cs → Found (find c) (c ∷ []))
      → Found (for_each find cs) cs
  unfolding for_each
  for_each-Found find [] h = record {
    leaves = [];
    ends = refl;
    sound = λ j m. elim m [ ];
    complete = λ c j m b leaf. elim m [ ];
  }
  for_each-Found find (c ∷ cs) h =
      let first = h c (inl refl) in
      let rest = for_each-Found find cs (λ d m. h d (inr m)) in
      record {
        leaves = first.leaves ++ rest.leaves;
        ends = rw (for_each, first.ends, rest.ends);
        sound = λ j m. elim (In-append j first.leaves rest.leaves m) [
          | inl l ↦ first.sound j l
          | inr r ↦ rest.sound j r
        ];
        complete = λ d j m b leaf. elim m [
          | inl e ↦ In-append_left j first.leaves rest.leaves (first.complete d j (inl e) b leaf)
          | inr m' ↦ In-append_right j first.leaves rest.leaves (rest.complete d j m' b leaf)
        ];
      }

  leaf-Found :
      (rounds i : ℕ) (l : Layer D P F)
      → get_elem? heap i ≡ some l
      → l.layers ≡ []
      → Found (find_leaf_layers heap (suc rounds) i) (i ∷ [])
  unfolding find_leaf_layers
  leaf-Found rounds i l at none_below = record {
    leaves = i ∷ [];
    ends = rw (find_leaf_layers, at, none_below);
    sound = λ j m. elim m [ inl e ↦ (l, rw e at, none_below) | inr m' ↦ elim m' [ ] ];
    complete = λ c j m b leaf. elim m [
      | inl e ↦ elim (below_top c j b) [
        | inl same ↦ inl (sym same ∙ e)
        | inr (d, l', at', m', b') ↦
            let same : l' ≡ l = some_eq (sym at' ∙ ap (get_elem? heap) e ∙ at) in
            let empty : In d [] = subst (In d) (ap (λ x. x.layers) same ∙ none_below) m' in
            elim empty [ ]
      ]
      | inr m' ↦ elim m' [ ]
    ];
  }

  inner-Found :
      (rounds i c : ℕ) (cs : List ℕ) (l : Layer D P F)
      → get_elem? heap i ≡ some l
      → l.layers ≡ c ∷ cs
      → Found (for_each (find_leaf_layers heap rounds) (c ∷ cs)) (c ∷ cs)
      → Found (find_leaf_layers heap (suc rounds) i) (i ∷ [])
  unfolding find_leaf_layers
  inner-Found rounds i c cs l at some_below v = record {
    leaves = v.leaves;
    ends = rw (find_leaf_layers, at, some_below) (v.ends);
    sound = v.sound;
    complete = λ a j m b leaf. elim m [
      | inl e ↦ elim (below_top a j b) [
        | inl same ↦
            let (l', at', empty) = leaf in
            let alike : l' ≡ l = some_eq (sym at' ∙ ap (get_elem? heap) (sym same ∙ e) ∙ at) in
            absurd (cc)
        | inr (d, l', at', m', b') ↦
            let same : l' ≡ l = some_eq (sym at' ∙ ap (get_elem? heap) e ∙ at) in
            let member : In d (c ∷ cs) = subst (In d) (ap (λ x. x.layers) same ∙ some_below) m' in
            v.complete d j member b' leaf
      ]
      | inr m' ↦ elim m' [ ]
    ];
  }

  List-cases : (xs : List ℕ) → (xs ≡ []) ⊎ ((c : ℕ) × (cs : List ℕ) × (xs ≡ c ∷ cs))
  List-cases [] = inl refl
  List-cases (c ∷ cs) = inr (c, cs, refl)

  pub find_leaf_layers-Found :
      (k : Linked) (rounds i : ℕ)
      → i < length heap
      → length heap ≤ rounds + i
      → Found (find_leaf_layers heap rounds i) (i ∷ [])
  unfolding find_leaf_layers
  find_leaf_layers-Found k zero i h f = absurd (omega arith)
  find_leaf_layers-Found k (suc rounds) i h f =
      let (l, at) = get_elem?_of_lt heap i h in
      elim (List-cases l.layers) [
        | inl e ↦ leaf-Found rounds i l at e
        | inr (c, cs, e) ↦ inner-Found rounds i c cs l at e (
            for_each-Found (find_leaf_layers heap rounds) (c ∷ cs) (λ d m.
              let (less, inside) = k.younger i d l at (rw e m) in
              find_leaf_layers-Found k rounds d inside (omega arith)))
      ]
