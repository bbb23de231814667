-- ===== src/Pipeline/Counts.antt =====
-- How often an index is in a list of frames, and in lists of such.
use deplug.Common.{
  ℕ, zero, suc, ◌+◌, ◌-◌, ◌^◌, ◌≤◌, ◌<◌, ◌≡◌, refl, sym, ap, ◌∙◌, inl, inr, none, some, List, [],
  ◌∷◌, ◌++◌, arith, ◌==◌, if◌then◌else◌, Bool-cases, length, get_elem?, set, some_eq,
}
use mathlib.Core.List.{flatten}
use deplug.Layer.Heap.{get_elem?-lt}
use deplug.FileImporter.Roundtrip.{stays}
use deplug.FrameStore.History.{find_index, Distinct}
use deplug.Pipeline.{Frame, index_of, empties}

module _ {P : Type 0} where
  unfoldable pub count : ℕ → List (Frame P) → ℕ
  count k [] = 0
  count k (f ∷ fs) = let rest = count k fs in if f.index == k then rest + 1 else rest

  unfoldable pub count_all : ℕ → List (List (Frame P)) → ℕ
  unfolding count
  count_all k [] = 0
  count_all k (fs ∷ lists) = count k fs + count_all k lists

  pub count-append : (k : ℕ) (xs ys : List (Frame P)) → count k (xs ++ ys) ≡ count k xs + count k ys
  unfolding count
  count-append k [] ys = omega arith
  count-append k (x ∷ xs) ys = ground (arith, count-append k xs ys)

  pub count_all-set :
      (k : ℕ) (lists : List (List (Frame P))) (i : ℕ) (old new : List (Frame P))
      → get_elem? lists i ≡ some old
      → count_all k (set lists i new) + count k old ≡ count_all k lists + count k new
  unfolding count_all
  count_all-set k [] i old new h = absurd (cc)
  count_all-set k (fs ∷ lists) zero old new h =
      let e : count k fs ≡ count k old = ap (count k) (some_eq h) in omega arith
  count_all-set k (fs ∷ lists) (suc i) old new h = omega (arith, count_all-set k lists i old new h)

  pub count-flatten :
      (k : ℕ) (lists : List (List (Frame P))) → count k (flatten lists) ≡ count_all k lists
  unfolding flatten count_all count
  count-flatten k [] = refl
  count-flatten k (fs ∷ lists) =
      count-append k fs (flatten lists) ∙ ap (λ n. count k fs + n) (count-flatten k lists)

  pub find_of_count :
      (k : ℕ) (xs : List (Frame P)) → count k xs ≡ 0 → find_index index_of k xs ≡ none
  unfolding count find_index
  find_of_count k [] h = refl
  find_of_count k (x ∷ xs) h = ground (arith, find_of_count k xs)

  pub find_of_count_some :
      (k : ℕ) (xs : List (Frame P))
      → 0 < count k xs
      → (x : Frame P) × (find_index index_of k xs ≡ some x)
  unfolding count find_index
  find_of_count_some k [] h = absurd (omega arith)
  find_of_count_some k (x ∷ xs) h = elim (Bool-cases (x.index == k)) [
    | inl e ↦ (x, rw e)
    | inr e ↦ let (y, f) = find_of_count_some k xs (ground (arith, h, e)) in (y, rw e f)
  ]

  -- Frames of a given list, at the places of their indices.
  abbrev pub IsGiven : List (Frame P) → Frame P → Type 0
  IsGiven given x = (1 ≤ x.index) × (get_elem? given (x.index - 1) ≡ some x)

  unfoldable pub AreGiven : List (Frame P) → List (Frame P) → Type 0
  AreGiven given [] = Unit {0}
  AreGiven given (x ∷ xs) = IsGiven given x × AreGiven given xs

  pub AreGiven-append :
      (given xs ys : List (Frame P))
      → AreGiven given xs
      → AreGiven given ys
      → AreGiven given (xs ++ ys)
  unfolding AreGiven
  AreGiven-append given [] ys h k = k
  AreGiven-append given (x ∷ xs) ys (h, hs) k = (h, AreGiven-append given xs ys hs k)

  pub AreGiven-right :
      (given xs ys : List (Frame P)) → AreGiven given (xs ++ ys) → AreGiven given ys
  unfolding AreGiven
  AreGiven-right given [] ys h = h
  AreGiven-right given (x ∷ xs) ys (h, hs) = AreGiven-right given xs ys hs

  pub AreGiven-left : (given xs ys : List (Frame P)) → AreGiven given (xs ++ ys) → AreGiven given xs
  unfolding AreGiven
  AreGiven-left given [] ys h = tt
  AreGiven-left given (x ∷ xs) ys (h, hs) = (h, AreGiven-left given xs ys hs)

  pub AreGiven-more :
      (given xs more : List (Frame P)) → AreGiven given xs → AreGiven (given ++ more) xs
  unfolding AreGiven
  AreGiven-more given [] more h = tt
  AreGiven-more given (x ∷ xs) more ((low, at), hs) =
      ((low, stays given more (x.index - 1) x at), AreGiven-more given xs more hs)

  -- The frame that is found is the given one.
  pub find-given :
      (given xs : List (Frame P)) (k : ℕ) (x : Frame P)
      → AreGiven given xs
      → find_index index_of k xs ≡ some x
      → get_elem? given (k - 1) ≡ some x
  unfolding find_index AreGiven
  find-given given [] k x h e = absurd (cc)
  find-given given (y ∷ xs) k x ((low, at), hs) e = elim (Bool-cases (y.index == k)) [
    | inl f ↦
        let same : y ≡ x = ground arith in
        let here : y.index ≡ k = ground arith in
        ap (λ k. get_elem? given (k - 1)) (sym here) ∙ at ∙ ap some same
    | inr f ↦ find-given given xs k x hs (ground (arith, e, f))
  ]

  -- Frames with distinct indices, as the store wants them.
  pub Distinct-of_count :
      (given xs : List (Frame P))
      → length given < 2 ^ 32 - 1
      → AreGiven given xs
      → ((k : ℕ) → count k xs ≤ 1)
      → Distinct index_of xs
  unfolding AreGiven count
  Distinct-of_count given [] small h once = tt
  Distinct-of_count given (x ∷ xs) small ((low, at), hs) once =
      let bound = get_elem?-lt given (x.index - 1) x at in
      let here = once x.index in
      (
        omega arith,
        omega arith,
        find_of_count x.index xs (ground (arith, here)),
        Distinct-of_count given xs small hs (λ k. let c = once k in ground (arith, c)),
      )

pub count_all-empties : (P : Type 0) (k n : ℕ) → count_all k (empties {A = Frame P} n) ≡ 0
unfolding count_all count empties
count_all-empties P k zero = refl
count_all-empties P k (suc n) = omega (arith, count_all-empties P k n)
