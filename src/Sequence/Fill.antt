-- ===== src/Sequence/Fill.antt =====
-- The loop of Sequence on a map that holds, past the start, what a partial function `h` holds.
use deplug.Common.{ℕ, ◌+◌, ◌^◌, ◌≤◌, ◌<◌, ◌≡◌, sym, ◌∙◌, ◌≢◌, Option, none, List, arith}
use native.Mathlib.Decide.{dec_lt}
use deplug.Sequence.{Sequence, next, find, advance_all}
use deplug.Sequence.Laws.{Above}
use deplug.Sequence.Advance.{Stops, advance_all-Stops}

module _ {ℓ κ} {V : Type ℓ} {W : Type κ} (visit : ℕ → V → List W → List W) (h : ℕ → Option V)
    (m : Sequence V) (above : Above 1 m) (from : ℕ) (small : from < 2 ^ 32) (out : List W)
    (pending : (k : ℕ) → from < k → find k m ≡ h k) where
  abbrev to : ℕ
  to = (advance_all visit m from out).max_seq

  stop : Stops m from to
  stop = advance_all-Stops visit m above from small out

  pub advance_all_filled :
      ((k : ℕ) → 0 < k → k ≤ from → h k ≢ none) → (k : ℕ) → 0 < k → k ≤ to → h k ≢ none
  advance_all_filled old k lo hi = elim (dec_lt from k) [
    | yes new ↦ rw (← pending k new) (stop.filled k new hi)
    | no past ↦ old k lo (omega arith)
  ]

  pub advance_all_gap : ((k : ℕ) → 2 ^ 32 ≤ k → h k ≡ none) → h (to + 1) ≡ none
  advance_all_gap range =
      let s = stop in
      elim (dec_lt (to + 1) (2 ^ 32)) [
        | yes fits ↦
            let e : next to ≡ to + 1 = omega arith in
            sym (pending (to + 1) (omega arith)) ∙ (rw e at s.gap)
        | no over ↦ range (to + 1) (omega arith)
      ]
