-- ===== src/Sequence/Advance.antt =====
-- The loop of Sequence.
use deplug.Common.{
  ℕ, zero, suc, ◌+◌, ◌^◌, ◌≤◌, ◌<◌, ◌≡◌, refl, ◌≢◌, ◌⊎◌, inl, inr, Option, none, some, List, [],
  ◌∷◌, arith, ltb, if◌then◌else◌, Option-cases, length,
}
use deplug.Sequence.{Sequence, next, find, Advanced, advance, advance_all, begin}
use native.Mathlib.Decide.{dec_lt}
use deplug.Sequence.Laws.{Above, find_below}

module _ {ℓ} {V : Type ℓ} where
  -- The number of keys past `s`, which bounds the rounds of the loop.
  past : ℕ → Sequence V → ℕ
  past s [] = 0
  past s ((k, v) ∷ m) = (if ltb s k then 1 else 0) + past s m

  past-le-length : (s : ℕ) (m : Sequence V) → past s m ≤ length m
  unfolding past
  past-le-length s [] = omega arith
  past-le-length s ((k, v) ∷ m) = ground (arith, past-le-length s m)

  past_mono : (s : ℕ) (m : Sequence V) → past (s + 1) m ≤ past s m
  unfolding past
  past_mono s [] = omega arith
  past_mono s ((k, v) ∷ m) = ground (arith, past_mono s m)

  past_of_find :
      (s : ℕ) (v : V) (m : Sequence V) → find (s + 1) m ≡ some v → past (s + 1) m < past s m
  unfolding past find
  past_of_find s v [] h = absurd (cc)
  past_of_find s v ((k, w) ∷ m) h = ground (arith, past_of_find s v m, past_mono s m)

-- Where the loop stops: the keys up to the new `max_seq` were all there, the next is not.
pub record Stops {ℓ} {V : Type ℓ} (m : Sequence V) (from to : ℕ) : Type ℓ where
  pub grown : from ≤ to
  pub bounded : to < 2 ^ 32
  pub filled : (k : ℕ) → from < k → k ≤ to → find k m ≢ none
  pub gap : find (next to) m ≡ none

module _ {ℓ} {V : Type ℓ} where
  next_of_find :
      (s : ℕ) (v : V) (m : Sequence V)
      → Above 1 m
      → s < 2 ^ 32
      → find (next s) m ≡ some v
      → (next s ≡ s + 1) × (s + 1 < 2 ^ 32)
  next_of_find s v m a b h = elim (dec_lt (s + 1) (2 ^ 32)) [
    | yes p ↦ (omega arith, p)
    | no p ↦ absurd (cc (find_below (next s) 1 m a (omega arith)))
  ]

module _ {ℓ κ} {V : Type ℓ} {W : Type κ} (visit : ℕ → V → List W → List W) where
  abbrev turn : ℕ → V → Advanced W → Advanced W
  turn s v a = record { max_seq = s; end = some s; out = visit s v a.out }

  -- The rule of the loop: what holds before it and is kept by each visit holds after it.
  pub advance_inv {μ} :
      (P : ℕ → List W → Type μ) (m : Sequence V)
      → Above 1 m
      → ((s : ℕ) (v : V) (out : List W)
          → find (s + 1) m ≡ some v
          → P s out
          → P (s + 1) (visit (s + 1) v out))
      → (fuel : ℕ) (a : Advanced W) → a.max_seq < 2 ^ 32
      → P a.max_seq a.out
      → P (advance visit fuel m a).max_seq (advance visit fuel m a).out
  unfolding advance
  advance_inv P m above keep zero a b h = h
  advance_inv P m above keep (suc fuel) a b h = elim (Option-cases (find (next a.max_seq) m)) [
    | inl e ↦ rw (e, advance) h
    | inr (v, e) ↦
        let (e', b') = next_of_find a.max_seq v m above b e in
        rw (e, advance)
          (advance_inv P m above keep fuel (turn (next a.max_seq) v a) (omega arith)
            (rw e' (keep a.max_seq v a.out (rw e' at e) h)))
  ]

  Stops-turn : (m : Sequence V) (s r : ℕ) → find (s + 1) m ≢ none → Stops m (s + 1) r → Stops m s r
  Stops-turn m s r here rest = record {
    grown = omega (arith, rest.grown);
    bounded = rest.bounded;
    filled = λ k lo hi. elim (dec_lt (s + 1) k) [
      | yes p ↦ rest.filled k p hi
      | no p ↦ let e : k ≡ s + 1 = omega arith in rw e here
    ];
    gap = rest.gap;
  }

  -- With more rounds than keys past the start, the loop ends by its test.
  advance-Stops :
      (m : Sequence V)
      → Above 1 m
      → (fuel : ℕ) (a : Advanced W) → a.max_seq < 2 ^ 32
      → past a.max_seq m < fuel
      → Stops m a.max_seq (advance visit fuel m a).max_seq
  unfolding advance
  advance-Stops m above zero a b enough = absurd (omega arith)
  advance-Stops m above (suc fuel) a b enough = elim (Option-cases (find (next a.max_seq) m)) [
    | inl e ↦
        rw (e, advance)
          (record {
            grown = omega arith;
            bounded = b;
            filled = λ k lo hi. absurd (omega arith);
            gap = e;
          })
    | inr (v, e) ↦
        let (e', b') = next_of_find a.max_seq v m above b e in
        let found : find (a.max_seq + 1) m ≡ some v = rw e' at e in
        rw (e, advance)
          (Stops-turn m a.max_seq _ (λ none_there. cc)
            (rw e' (
              advance-Stops m above fuel (turn (a.max_seq + 1) v a) b'
                (omega (arith, past_of_find a.max_seq v m found)))))
  ]

  -- `end` stands at the last key that was found.
  abbrev EndsAt : ℕ → Option ℕ → Advanced W → Type 0
  EndsAt from begin r =
      (r.max_seq ≡ from) × (r.end ≡ begin) ⊎ (from < r.max_seq) × (r.end ≡ some r.max_seq)

  advance-EndsAt :
      (m : Sequence V)
      → Above 1 m
      → (fuel : ℕ) (a : Advanced W) → a.max_seq < 2 ^ 32
      → EndsAt a.max_seq a.end (advance visit fuel m a)
  unfolding advance
  advance-EndsAt m above zero a b = inl (refl, refl)
  advance-EndsAt m above (suc fuel) a b = elim (Option-cases (find (next a.max_seq) m)) [
    | inl e ↦ rw (e, advance) (inl (refl, refl))
    | inr (v, e) ↦
        let (e', b') = next_of_find a.max_seq v m above b e in
        rw (e, advance)
          (ground (arith, advance-EndsAt m above fuel (turn (next a.max_seq) v a) (omega arith)))
  ]

  module _ (m : Sequence V) (above : Above 1 m) (from : ℕ) (b : from < 2 ^ 32) (out : List W) where
    pub advance_all-Stops : Stops m from (advance_all visit m from out).max_seq
    unfolding advance_all
    advance_all-Stops =
        advance-Stops m above (length m + 1) (record { max_seq = from; end = begin m; out = out }) b
          (omega (arith, past-le-length from m))

    pub advance_all-end :
        from < (advance_all visit m from out).max_seq
        → (advance_all visit m from out).end ≡ some (advance_all visit m from out).max_seq
    unfolding advance_all
    advance_all-end grew = ground (
      arith,
      advance-EndsAt m above (length m + 1) (record { max_seq = from; end = begin m; out = out }) b,
    )

    pub advance_all_inv {μ} :
        (P : ℕ → List W → Type μ)
        → ((s : ℕ) (v : V) (out : List W)
            → find (s + 1) m ≡ some v
            → P s out
            → P (s + 1) (visit (s + 1) v out))
        → P from out
        → P (advance_all visit m from out).max_seq (advance_all visit m from out).out
    unfolding advance_all
    advance_all_inv P keep h = advance_inv P m above keep (length m + 1) _ b h
