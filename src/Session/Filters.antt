-- ===== src/Session/Filters.antt =====
-- The frame numbers and the display filters by name.
use deplug.Common.{
  ℕ, zero, suc, ◌+◌, ◌^◌, ◌<◌, ◌≤◌, ◌≡◌, refl, ap, ◌∙◌, ◌≢◌, sym, ◌↔◌, inl, inr, Bool, true, false,
  none, List, [], ◌∷◌, if◌then◌else◌, arith, Bool-cases,
}
use deplug.Session.{Session, get_seq, init, find, erase, set_display_filter, get_filtered_frames}

-- The numbers that so many calls of `getSeq` give, in the order of the calls.
unfoldable pub numbers : {E : Type 0} → ℕ → Session E → List ℕ
unfolding get_seq
numbers zero s = []
numbers (suc n) s = let r = get_seq s in r.0 ∷ numbers n r.1

abbrev pub from : ℕ → ℕ → List ℕ
from i zero = []
from i (suc n) = i ∷ from (i + 1) n

module _ (E : Type 0) where
  numbers_from : (n : ℕ) (s : Session E) → s.index + n ≤ 2 ^ 32 → numbers n s ≡ from s.index n
  unfolding numbers get_seq
  numbers_from zero s h = refl
  numbers_from (suc zero) s h = refl
  numbers_from (suc (suc n)) s h =
      let next = (get_seq s).1 in
      let fits : next.index ≡ s.index + 1 = omega arith in
      ap (◌∷◌ s.index) (numbers_from (suc n) next (omega arith) ∙ ap (λ k. from k (suc n)) fits)

  -- A new session numbers its frames 1, 2, 3 and on, whichever threads call: the numbers are those
  -- that the frame store waits for, each given once, up to the largest `uint32_t`.
  pub numbers-init : (n : ℕ) → n < 2 ^ 32 → numbers n (init {E = E}) ≡ from 1 n
  unfolding init
  numbers-init n h = numbers_from n init (omega arith)

module _ {Name : Type 0} (same : Name → Name → Bool)
    (same_iff : (a b : Name) → (same a b ≡ true) ↔ (a ≡ b)) where
  different : (a b : Name) → same a b ≡ false → a ≢ b
  different a b e h = let yes : same a b ≡ true = (same_iff a b).1 h in absurd (cc)

module _ {Name Pool : Type 0} (same : Name → Name → Bool)
    (same_iff : (a b : Name) → (same a b ≡ true) ↔ (a ≡ b)) where
  find-erase :
      (name other : Name) (m : List (Name × Pool))
      → find same other (erase same name m) ≡ (if same name other then none else find same other m)
  unfolding find erase
  find-erase name other [] = elim (Bool-cases (same name other)) [ inl e ↦ rw e | inr e ↦ rw e ]
  find-erase name other ((n, p) ∷ m) =
      let rest = find-erase name other m in
      elim (Bool-cases (same n name)) [
        | inl e ↦
            let here : n ≡ name = (same_iff n name).0 e in
            let alike : same n other ≡ same name other = ap (λ k. same k other) here in
            ground (arith, e, rest, alike)
        | inr e ↦ elim (Bool-cases (same n other)) [
          | inr f ↦ ground (arith, e, f, rest)
          | inl f ↦ elim (Bool-cases (same name other)) [
            | inr g ↦ ground (arith, e, f, g, rest)
            | inl g ↦
                let both : n ≡ name = (same_iff n other).0 f ∙ sym ((same_iff name other).0 g) in
                absurd (different same same_iff n name e both)
          ]
        ]
      ]

  -- After `setDisplayFilter`, the frames of the name are those of the new pool, or none if the body
  -- is empty; the frames of every other name are what they were.
  pub set_display_filter-get_filtered_frames :
      (is_empty : Name → Bool) (new_pool : Name → Pool) (get : Pool → ℕ → ℕ → List ℕ)
      (name body other : Name) (offset length : ℕ) (m : List (Name × Pool))
      → get_filtered_frames same get other offset length
          (set_display_filter same is_empty new_pool name body m)
        ≡ (if same name other
            then (if is_empty body then [] else get (new_pool body) offset length)
            else get_filtered_frames same get other offset length m)
  unfolding set_display_filter get_filtered_frames find
  set_display_filter-get_filtered_frames is_empty new_pool get name body other offset length m =
      let rest = find-erase name other m in
      elim (Bool-cases (same name other)) [
        | inl e ↦ elim (Bool-cases (is_empty body)) [
          | inl f ↦ rw (f, get_filtered_frames, rest, e)
          | inr f ↦ rw (f, get_filtered_frames, find, e)
        ]
        | inr e ↦ elim (Bool-cases (is_empty body)) [
          | inl f ↦ rw (f, get_filtered_frames, rest, e)
          | inr f ↦ rw (f, get_filtered_frames, rest, e)
        ]
      ]
