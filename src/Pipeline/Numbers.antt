-- ===== src/Pipeline/Numbers.antt =====
-- The frames in the order of their indices, while the threads go on.
use deplug.Common.{
  ℕ, zero, suc, ◌+◌, ◌-◌, ◌^◌, ◌≤◌, ◌<◌, ◌≡◌, refl, ◌∙◌, ◌⊎◌, inl, inr, true, false, none, List, [],
  ◌∷◌, ◌++◌, append-nil, append_assoc, arith, ltb, if◌then◌else◌, Option-cases, length, get_elem?,
  length-append,
}
use mathlib.Core.Path.{subst}
use deplug.Layer.Heap.{length-set, get_elem?-lt}
use deplug.Queue.{Dequeued, stopped, got, dequeue}
use deplug.Pipeline.{
  Frame, Pipeline, set_index, push, take_frames, hand_on, Step, numbers, pushes, takes, hands_on,
  step, run,
}
use deplug.Pipeline.Stages.{
  IsTracked, set_index-IsTracked, push-IsTracked, take_frames-IsTracked, hand_on-IsTracked,
}

module _ {P : Type 0} (sources : ℕ) where
  -- The packets that get an index, in the order of the steps, and their indices from `index` on.
  unfoldable pub numbered : ℕ → List (Step P) → List (Frame P)
  numbered index [] = []
  numbered index (numbers i packet ∷ steps) =
      let taken = numbered (index + 1) steps in
      let passed = numbered index steps in
      if ltb i sources then record { packet = packet; index = index } ∷ taken else passed
  numbered index (pushes i ∷ steps) = numbered index steps
  numbered index (takes j ∷ steps) = numbered index steps
  numbered index (hands_on j ∷ steps) = numbered index steps

pub numbered-bound :
    {P : Type 0} (sources : ℕ) (steps : List (Step P)) (n : ℕ)
    → length (numbered sources n steps) ≤ length steps
unfolding numbered
numbered-bound sources [] n = omega arith
numbered-bound sources (numbers i packet ∷ steps) n =
    ground (arith, numbered-bound sources steps (n + 1), numbered-bound sources steps n)
numbered-bound sources (pushes i ∷ steps) n = omega (arith, numbered-bound sources steps n)
numbered-bound sources (takes j ∷ steps) n = omega (arith, numbered-bound sources steps n)
numbered-bound sources (hands_on j ∷ steps) n = omega (arith, numbered-bound sources steps n)

get_elem?-none : {A : Type 0} (xs : List A) (i : ℕ) → get_elem? xs i ≡ none → length xs ≤ i
get_elem?-none [] i h = omega arith
get_elem?-none (x ∷ xs) zero h = absurd (cc)
get_elem?-none (x ∷ xs) (suc i) h = omega (arith, get_elem?-none xs i h)

dequeued-cases : {A : Type 0} (r : Dequeued A) → (r ≡ stopped) ⊎ ((xs : List A) × (r ≡ got xs))
dequeued-cases stopped = inl refl
dequeued-cases (got xs) = inr (xs, refl)

module _ {E P V : Type 0} (sources : ℕ) where
  sources-length :
      (s : Step P) (p : Pipeline E P V)
      → length p.sources ≡ sources
      → length (step s p).sources ≡ sources
  unfolding step set_index push take_frames hand_on
  sources-length (numbers i packet) p h = elim (Option-cases (get_elem? p.sources i)) [
    | inl e ↦ rw (step, set_index, e) h
    | inr (fs, e) ↦ rw (step, set_index, e) (length-set p.sources i _ ∙ h)
  ]
  sources-length (pushes i) p h = elim (Option-cases (get_elem? p.sources i)) [
    | inl e ↦ rw (step, push, e) h
    | inr (fs, e) ↦ rw (step, push, e) (length-set p.sources i [] ∙ h)
  ]
  sources-length (takes j) p h = elim (Option-cases (get_elem? p.hands j)) [
    | inl e ↦ rw (step, take_frames, e) h
    | inr (hand, e) ↦ elim (dequeued-cases (dequeue 128 p.queue).0) [
      | inl f ↦ rw (step, take_frames, e, f) h
      | inr (frames, f) ↦ rw (step, take_frames, e, f) h
    ]
  ]
  sources-length (hands_on j) p h = elim (Option-cases (get_elem? p.hands j)) [
    | inl e ↦ rw (step, hand_on, e) h
    | inr (fs, e) ↦ rw (step, hand_on, e) h
  ]

  pub run-IsTracked :
      (steps : List (Step P)) (given : List (Frame P)) (p : Pipeline E P V)
      → length p.sources ≡ sources
      → length given + length steps < 2 ^ 32 - 1
      → IsTracked given p
      → IsTracked (given ++ numbered sources (length given + 1) steps) (run steps p)
  unfolding run numbered step
  run-IsTracked [] given p h small t = rw append-nil t
  run-IsTracked (pushes i ∷ steps) given p h small t =
      run-IsTracked steps given (push i p) (sources-length (pushes i) p h) (omega arith)
        (push-IsTracked given p t i)
  run-IsTracked (takes j ∷ steps) given p h small t =
      run-IsTracked steps given (take_frames j p) (sources-length (takes j) p h) (omega arith)
        (take_frames-IsTracked given p t j)
  run-IsTracked (hands_on j ∷ steps) given p h small t =
      run-IsTracked steps given (hand_on j p) (sources-length (hands_on j) p h) (omega arith)
        (hand_on-IsTracked given p t j)
  run-IsTracked (numbers i packet ∷ steps) given p h small t =
      let still = sources-length (numbers i packet) p h in
      elim (Option-cases (get_elem? p.sources i)) [
        | inl e ↦
            let out : ltb i sources ≡ false = ground (arith, get_elem?-none p.sources i e, h) in
            let same : set_index i packet p ≡ p = rw (set_index, e) in
            rw (out, same) (run-IsTracked steps given p h (omega arith) t)
        | inr (fs, e) ↦
            let x : Frame P = record { packet = packet; index = length given + 1 } in
            let in_range : ltb i sources ≡ true =
              ground (arith, get_elem?-lt p.sources i fs e, h) in
            let more = length-append given (x ∷ []) in
            let count : length (given ++ x ∷ []) + 1 ≡ length given + 1 + 1 = omega arith in
            let rest = numbered sources (length given + 1 + 1) steps in
            let all : IsTracked ((given ++ x ∷ []) ++ rest) (run steps (set_index i packet p)) =
              subst
                (λ n.
                  IsTracked ((given ++ x ∷ []) ++ numbered sources n steps)
                    (run steps (set_index i packet p)))
                count
                (run-IsTracked steps (given ++ x ∷ []) (set_index i packet p) still (omega arith)
                  (set_index-IsTracked given p t i packet fs e (omega arith))) in
            rw in_range (
              subst (λ fs. IsTracked fs (run steps (set_index i packet p)))
                (append_assoc given (x ∷ []) rest) all)
      ]
