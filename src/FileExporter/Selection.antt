-- ===== src/FileExporter/Selection.antt =====
-- What the loop over the results of one block keeps, and lists that are cut in two.
use deplug.Common.{
  ℕ, zero, suc, ◌+◌, ◌≤◌, ◌≡◌, refl, ap, sym, ◌∙◌, inl, inr, Bool, Option, some, List, [], ◌∷◌,
  ◌++◌, if◌then◌else◌, arith, length, take, drop, Bool-cases, take-nil, drop-nil, get_elem?_of_lt,
  drop_of_get_elem?, drop_of_ge,
}
use deplug.FileExporter.{passes, keep}

take-split :
    {A : Type 0} (n l : ℕ) (xs : List A) → n ≤ l → take l xs ≡ take n xs ++ drop n (take l xs)
take-split zero l xs h = refl
take-split (suc n) zero xs h = absurd (omega arith)
take-split (suc n) (suc l) [] h = refl
take-split (suc n) (suc l) (x ∷ xs) h = ap (◌∷◌ x) (take-split n l xs (omega arith))

pub drop-split :
    {A : Type 0} (o n l : ℕ) (xs : List A)
    → o + n ≤ l
    → drop o (take l xs) ≡ take n (drop o xs) ++ drop (o + n) (take l xs)
drop-split zero n l xs h = let e : 0 + n ≡ n = omega arith in rw e (take-split n l xs (omega arith))
drop-split (suc o) n zero xs h = absurd (omega arith)
drop-split {A} (suc o) n (suc l) [] h = rw (take-nil A n, drop-nil A (suc o + n))
drop-split (suc o) n (suc l) (x ∷ xs) h =
    let e : suc o + n ≡ suc (o + n) = omega arith in rw e (drop-split o n l xs (omega arith))

pub drop-take_end : {A : Type 0} (l : ℕ) (xs : List A) → drop l (take l xs) ≡ []
drop-take_end zero xs = refl
drop-take_end (suc l) [] = refl
drop-take_end (suc l) (x ∷ xs) = drop-take_end l xs

module _ {V R : Type 0} (wanted : V → Bool) (raw : V → R) where
  -- The frames of the views that are wanted, in order.
  unfoldable pub selected : List V → List R
  selected [] = []
  selected (v ∷ views) = let rest = selected views in if wanted v then raw v ∷ rest else rest

  pub selected-append : (xs ys : List V) → selected (xs ++ ys) ≡ selected xs ++ selected ys
  unfolding selected
  selected-append [] ys = refl
  selected-append (x ∷ xs) ys = elim (Bool-cases (wanted x)) [
    | inl e ↦ rw e (ap (◌∷◌ (raw x)) (selected-append xs ys))
    | inr e ↦ rw e (selected-append xs ys)
  ]

  pub keep-selected :
      (filter : Option (Option (V → Option Bool))) (old : ℕ → Bool) (views : List V) (left i : ℕ)
      → ((b : Bool) (v : V) → passes filter b v ≡ wanted v)
      → i + left ≡ length views
      → keep filter raw old views left i ≡ some (selected (drop i views))
  unfolding keep selected
  keep-selected filter old views zero i sure e = rw (drop_of_ge i views (omega arith)) refl
  keep-selected filter old views (suc left) i sure e =
      let (v, at) = get_elem?_of_lt views i (omega arith) in
      let shift : suc i ≡ i + 1 = omega arith in
      let rest = keep-selected filter old views left (i + 1) sure (omega arith) in
      let next : drop i views ≡ v ∷ drop (i + 1) views =
        drop_of_get_elem? views i v at ∙ ap (λ k. v ∷ drop k views) shift in
      let raws = selected (drop (i + 1) views) in
      rw (keep, at, rest)
        (ap (λ b. some (if b then raw v ∷ raws else raws)) (sure (old i) v)
          ∙ ap (λ vs. some (selected vs)) (sym next))
