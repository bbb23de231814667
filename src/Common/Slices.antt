-- ===== src/Common/Slices.antt =====
-- Parts of lists: `take`, `drop` and `map` together.
use Prim.Native.Nat.{ℕ, zero, suc, ◌-◌}
use mathlib.Core.Path.{◌≡◌, refl, ap}
use mathlib.Core.List.{List, [], ◌∷◌, ◌++◌, map}
use native.Mathlib.Omega.{arith}
use deplug.Common.Lists.{length, take, drop, take-nil}

module _ {ℓ} {A : Type ℓ} where
  pub take-take-drop :
      (i n : ℕ) (xs : List A) → take i (take n xs) ++ take (i - n) (drop n xs) ≡ take i xs
  take-take-drop i zero xs = let e : i - 0 ≡ i = omega arith in rw (e, take-nil A i)
  take-take-drop zero (suc n) xs = let e : 0 - suc n ≡ 0 = omega arith in rw e
  take-take-drop (suc i) (suc n) [] = take-nil A (suc i - suc n)
  take-take-drop (suc i) (suc n) (x ∷ xs) =
      let e : suc i - suc n ≡ i - n = omega arith in rw e (ap (◌∷◌ x) (take-take-drop i n xs))

  pub take-map {κ} :
      {B : Type κ} (f : A → B) (n : ℕ) (xs : List A) → take n (map f xs) ≡ map f (take n xs)
  take-map f zero xs = refl
  take-map f (suc n) [] = refl
  take-map f (suc n) (x ∷ xs) = ap (◌∷◌ (f x)) (take-map f n xs)

  pub length-map {κ} : {B : Type κ} (f : A → B) (xs : List A) → length (map f xs) ≡ length xs
  length-map f [] = refl
  length-map f (x ∷ xs) = ap suc (length-map f xs)
