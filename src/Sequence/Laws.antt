-- ===== src/Sequence/Laws.antt =====
-- The map laws of Sequence.
use deplug.Common.{
  ℕ, ◌+◌, ◌^◌, ◌≤◌, ◌<◌, ◌≡◌, refl, none, some, [], ◌∷◌, arith, ltb, ◌==◌, if◌then◌else◌,
}
use deplug.Sequence.{Sequence, find, put, insert, erase}

module _ {ℓ} {V : Type ℓ} where
  -- The keys ascend from `n` and are `uint32_t` values.
  abbrev pub Above : ℕ → Sequence V → Type 0
  Above n [] = Unit {0}
  Above n ((k, v) ∷ m) = (n ≤ k) × (k < 2 ^ 32) × Above (k + 1) m

  pub Above-mono : (n l : ℕ) (m : Sequence V) → l ≤ n → Above n m → Above l m
  Above-mono n l [] h a = tt
  Above-mono n l ((k, v) ∷ m) h a = (omega arith, a.1, a.2)

  pub find-put :
      (k j : ℕ) (v : V) (m : Sequence V)
      → find j (put k v m) ≡ (if k == j then some v else find j m)
  unfolding find put
  find-put k j v [] = refl
  find-put k j v ((i, w) ∷ m) = ground (arith, find-put k j v m)

  pub put-Above :
      (k n : ℕ) (v : V) (m : Sequence V) → n ≤ k → k < 2 ^ 32 → Above n m → Above n (put k v m)
  unfolding put
  put-Above k n v [] h b a = (h, b, tt)
  put-Above k n v ((i, w) ∷ m) h b a = ground (arith, put-Above k (i + 1) v m)

  -- No key lies below the bound.
  pub find_below : (j n : ℕ) (m : Sequence V) → Above n m → j < n → find j m ≡ none
  unfolding find
  find_below j n [] a h = refl
  find_below j n ((i, w) ∷ m) a h = ground (arith, find_below j (i + 1) m)

  pub find-insert :
      (k j n : ℕ) (v : V) (m : Sequence V)
      → Above n m
      → find j (insert k v m)
        ≡ (if k == j then elim (find j m) [ none ↦ some v | some w ↦ some w ] else find j m)
  unfolding find insert
  find-insert k j n v [] a = refl
  find-insert k j n v ((i, w) ∷ m) a =
      ground (arith, find-insert k j (i + 1) v m, find_below k (i + 1) m)

  pub insert-Above :
      (k n : ℕ) (v : V) (m : Sequence V) → n ≤ k → k < 2 ^ 32 → Above n m → Above n (insert k v m)
  unfolding insert
  insert-Above k n v [] h b a = (h, b, tt)
  insert-Above k n v ((i, w) ∷ m) h b a = ground (arith, insert-Above k (i + 1) v m)

  pub find-erase :
      (k j n : ℕ) (m : Sequence V)
      → Above n m
      → find j (erase (some k) m) ≡ (if ltb j k then none else find j m)
  unfolding find erase
  find-erase k j n [] a = ground arith
  find-erase k j n ((i, w) ∷ m) a = ground (arith, find-erase k j (i + 1) m, find_below j (i + 1) m)

  pub erase-Above : (k n : ℕ) (m : Sequence V) → Above n m → Above n (erase (some k) m)
  unfolding erase
  erase-Above k n [] a = tt
  erase-Above k n ((i, w) ∷ m) a =
      ground (arith, erase-Above k (i + 1) m, Above-mono (i + 1) n (erase (some k) m))
