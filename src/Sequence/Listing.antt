-- ===== src/Sequence/Listing.antt =====
-- What a partial function on sequence numbers holds at 1, 2, …, n.
use deplug.Common.{
  ℕ, zero, suc, ◌+◌, ◌≤◌, ◌<◌, ◌≡◌, refl, Option, none, some, List, [], ◌∷◌, ◌++◌, arith,
}

-- What a partial function holds at 1, 2, …, n, in this order.
unfoldable pub opt_list {ℓ} : {A : Type ℓ} → Option A → List A
opt_list none = []
opt_list (some x) = x ∷ []

unfoldable pub listing {ℓ} : {A : Type ℓ} → (ℕ → Option A) → ℕ → List A
unfolding opt_list
listing h zero = []
listing h (suc n) = listing h n ++ opt_list (h (suc n))

module _ {ℓ} {A : Type ℓ} where
  pub listing_step :
      (h : ℕ → Option A) (n : ℕ) (x : A)
      → h (n + 1) ≡ some x
      → listing h (n + 1) ≡ listing h n ++ x ∷ []
  unfolding listing
  listing_step h n x e =
      let e' : n + 1 ≡ suc n = omega arith in
      let x' : h (suc n) ≡ some x = rw e' at e in rw (e', listing, x')

  pub listing_congr :
      (g h : ℕ → Option A) (n : ℕ)
      → ((k : ℕ) → 0 < k → k ≤ n → g k ≡ h k)
      → listing g n ≡ listing h n
  unfolding listing
  listing_congr g h zero e = refl
  listing_congr g h (suc n) e =
      rw (
        listing_congr g h n (λ k lo hi. e k lo (omega arith)),
        e (suc n) (omega arith) (omega arith),
      )
