-- ===== src/Layer/Heap.antt =====
-- Lists as heaps: what a write through a pointer does to the others.
use deplug.Common.{
  ℕ, zero, suc, ◌<◌, ◌≡◌, refl, ap, ◌≢◌, ◌⊎◌, some_eq, some, List, [], ◌∷◌, arith, length,
  get_elem?, set, Option-cases, inl, inr, get_elem?_of_lt, sym, ◌∙◌,
}
use native.Mathlib.Decide.{ℕ_discrete}
use deplug.Layer.{Layer, modify}

module _ {ℓ} {A : Type ℓ} where
  pub length-set : (xs : List A) (i : ℕ) (v : A) → length (set xs i v) ≡ length xs
  length-set [] i v = refl
  length-set (x ∷ xs) zero v = refl
  length-set (x ∷ xs) (suc i) v = ap suc (length-set xs i v)

  pub get_elem?-set_self :
      (xs : List A) (i : ℕ) (v : A) → i < length xs → get_elem? (set xs i v) i ≡ some v
  get_elem?-set_self [] i v h = elim h [ ]
  get_elem?-set_self (x ∷ xs) zero v h = refl
  get_elem?-set_self (x ∷ xs) (suc i) v h = get_elem?-set_self xs i v (omega arith)

  pub get_elem?-set_other :
      (xs : List A) (i j : ℕ) (v : A) → i ≢ j → get_elem? (set xs i v) j ≡ get_elem? xs j
  get_elem?-set_other [] i j v h = refl
  get_elem?-set_other (x ∷ xs) zero zero v h = absurd (h refl)
  get_elem?-set_other (x ∷ xs) zero (suc j) v h = refl
  get_elem?-set_other (x ∷ xs) (suc i) zero v h = refl
  get_elem?-set_other (x ∷ xs) (suc i) (suc j) v h = get_elem?-set_other xs i j v (omega arith)

  pub get_elem?-lt : (xs : List A) (i : ℕ) (x : A) → get_elem? xs i ≡ some x → i < length xs
  get_elem?-lt [] i x h = absurd (cc)
  get_elem?-lt (y ∷ xs) zero x h = omega arith
  get_elem?-lt (y ∷ xs) (suc i) x h = omega (arith, get_elem?-lt xs i x h)

module _ {D P F : Type 0} (i : ℕ) (g : Layer D P F → Layer D P F) (heap : List (Layer D P F)) where
  pub length-modify : length (modify i g heap) ≡ length heap
  unfolding modify
  length-modify = elim (Option-cases (get_elem? heap i)) [
    | inl e ↦ rw (e, modify)
    | inr (l, e) ↦ rw (e, modify) (length-set heap i (g l))
  ]

  pub modify_self :
      (l : Layer D P F) → get_elem? heap i ≡ some l → get_elem? (modify i g heap) i ≡ some (g l)
  unfolding modify
  modify_self l e = rw (e, modify) (get_elem?-set_self heap i (g l) (get_elem?-lt heap i l e))

  pub modify_other : (j : ℕ) → i ≢ j → get_elem? (modify i g heap) j ≡ get_elem? heap j
  unfolding modify
  modify_other j ne = elim (Option-cases (get_elem? heap i)) [
    | inl e ↦ rw (e, modify)
    | inr (l, e) ↦ rw (e, modify) (get_elem?-set_other heap i j (g l) ne)
  ]

  -- What is at an index after a write: what was there, or the result of the write.
  pub modify_from :
      (j : ℕ) (l : Layer D P F)
      → get_elem? (modify i g heap) j ≡ some l
      → (old : Layer D P F) × (get_elem? heap j ≡ some old)
        × (((i ≢ j) × (l ≡ old)) ⊎ ((i ≡ j) × (l ≡ g old)))
  modify_from j l e = elim (ℕ_discrete i j) [
    | no apart ↦ (l, sym (modify_other j apart) ∙ e, inl (apart, refl))
    | yes same ↦
        let inside : i < length heap =
          omega (arith, length-modify, get_elem?-lt (modify i g heap) j l e) in
        let (old, at) = get_elem?_of_lt heap i inside in
        let here : get_elem? (modify i g heap) i ≡ some l =
          ap (λ k. get_elem? (modify i g heap) k) same ∙ e in
        let there : get_elem? heap j ≡ some old = rw (← same) at in
        (old, there, inr (same, some_eq (sym here ∙ modify_self old at)))
  ]
