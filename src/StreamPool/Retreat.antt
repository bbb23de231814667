-- ===== src/StreamPool/Retreat.antt =====
-- The index can go back, and the frame store then drops views.
use deplug.Common.{
  ℕ, zero, suc, ◌≤◌, ◌<◌, ◌≡◌, refl, ap, ◌∙◌, ◌≢◌, inl, inr, some, List, [], ◌∷◌, arith,
  Option-cases, get_elem?, set,
}
use deplug.FrameStore.{FrameStore, update, dissected_size}
use deplug.FrameStore.Views.{update_back}
use deplug.StreamPool.{Stat, raise, update_index}
use deplug.StreamPool.Progress.{update_index-le_pending}

get_elem?-set_ne {ℓ} :
    {A : Type ℓ} (xs : List A) (i j : ℕ) (v : A) → i ≢ j → get_elem? (set xs i v) j ≡ get_elem? xs j
get_elem?-set_ne [] i j v h = refl
get_elem?-set_ne (x ∷ xs) zero zero v h = absurd (h refl)
get_elem?-set_ne (x ∷ xs) zero (suc j) v h = refl
get_elem?-set_ne (x ∷ xs) (suc i) zero v h = refl
get_elem?-set_ne (x ∷ xs) (suc i) (suc j) v h = get_elem?-set_ne xs i j v (λ e. h (ap suc e))

update_index-others :
    (u pushed dissected t : ℕ) (stats after : List Stat) (r : ℕ)
    → update_index u pushed dissected stats ≡ some (r, after)
    → u ≢ t
    → get_elem? after t ≡ get_elem? stats t
unfolding update_index
update_index-others u pushed dissected t stats after r e apart =
    elim (Option-cases (get_elem? stats u)) [
      | inl missing ↦ ground arith
      | inr (s, found) ↦ ground (arith, get_elem?-set_ne stats u t (raise pushed dissected s) apart)
    ]

module _ {F V : Type 0} (new_view : F → V) where
  -- Whenever a thread that has dissected less than the store shows is given a newer frame, the next
  -- report of any other thread makes the store drop views: the number of dissected frames goes down
  -- to at most what the slow thread has dissected.
  pub retreat :
      (t u m : ℕ) (stats after : List Stat) (slow : Stat) (r : ℕ) (s : FrameStore F V)
      → get_elem? stats t ≡ some slow
      → slow.dissected < slow.pushed
      → slow.dissected < dissected_size s
      → u ≢ t
      → update_index u 0 m stats ≡ some (r, after)
      → (s' : FrameStore F V) × (update new_view r s ≡ some s')
        × (dissected_size s' ≤ slow.dissected)
        × (dissected_size s' < dissected_size s)
  unfolding dissected_size
  retreat t u m stats after slow r s found pending shown apart e =
      let still = update_index-others u 0 m t stats after r e apart ∙ found in
      let low = update_index-le_pending u 0 m t stats after r slow e still pending in
      let (s', ran, size) = update_back new_view r s (omega arith) in
      (s', ran, omega (arith, size), omega (arith, size))
