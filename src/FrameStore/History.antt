-- ===== src/FrameStore/History.antt =====
-- The frames that were inserted, in the order of their arrival, and the batch loop of `insert`.
use deplug.Common.{
  ℕ, ◌^◌, ◌≤◌, ◌<◌, ◌≡◌, refl, ◌⊎◌, inl, Option, none, some, List, [], ◌∷◌, ◌++◌, arith, ◌==◌,
  if◌then◌else◌,
}
use deplug.Sequence.{Sequence, find, put}
use deplug.Sequence.Laws.{Above, find-put, put-Above}
use deplug.FrameStore.{put_all}

module _ {F : Type 0} (index : F → ℕ) where
  -- The first frame with the index `k`.
  unfoldable pub find_index : ℕ → List F → Option F
  find_index k [] = none
  find_index k (f ∷ fs) = if index f == k then some f else find_index k fs

  -- Indices as `Session::getSeq` gives them out before its counter wraps: from 1, none twice.
  abbrev pub Distinct : List F → Type 0
  Distinct [] = Unit {0}
  Distinct (f ∷ fs) =
      (1 ≤ index f) × (index f < 2 ^ 32) × (find_index (index f) fs ≡ none) × Distinct fs

  pub find_index-append :
      (k : ℕ) (h b : List F)
      → find_index k (h ++ b) ≡ elim (find_index k h) [ none ↦ find_index k b | some f ↦ some f ]
  unfolding find_index
  find_index-append k [] b = refl
  find_index-append k (f ∷ h) b = ground (arith, find_index-append k h b)

  pub find_index_apart :
      (k : ℕ) (h b : List F) → Distinct (h ++ b) → (find_index k h ≡ none) ⊎ (find_index k b ≡ none)
  unfolding find_index
  find_index_apart k [] b d = inl refl
  find_index_apart k (g ∷ h) b d =
      ground (arith, find_index_apart k h b d.3, find_index-append (index g) h b)

  pub Distinct-right : (h b : List F) → Distinct (h ++ b) → Distinct b
  Distinct-right [] b d = d
  Distinct-right (f ∷ h) b d = Distinct-right h b d.3

  pub Distinct-left : (h b : List F) → Distinct (h ++ b) → Distinct h
  unfolding find_index
  Distinct-left [] b d = tt
  Distinct-left (f ∷ h) b d =
      (d.0, d.1, ground (arith, d.2, find_index-append (index f) h b), Distinct-left h b d.3)

  pub find_index_range : (k : ℕ) (h : List F) → Distinct h → 2 ^ 32 ≤ k → find_index k h ≡ none
  unfolding find_index
  find_index_range k [] d big = refl
  find_index_range k (f ∷ h) d big = ground (arith, find_index_range k h d.3)

  pub find-put_all :
      (k : ℕ) (b : List F) (m : Sequence F)
      → Distinct b
      → find k (put_all index b m) ≡ elim (find_index k b) [ none ↦ find k m | some f ↦ some f ]
  unfolding put_all find_index
  find-put_all k [] m d = refl
  find-put_all k (f ∷ b) m d =
      ground (arith, find-put_all k b (put (index f) f m) d.3, find-put (index f) k f m)

  pub put_all-Above :
      (b : List F) (m : Sequence F) → Distinct b → Above 1 m → Above 1 (put_all index b m)
  unfolding put_all
  put_all-Above [] m d a = a
  put_all-Above (f ∷ b) m d a =
      put_all-Above b (put (index f) f m) d.3 (put-Above (index f) 1 f m d.0 d.1 a)
