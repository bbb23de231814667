-- ===== src/FrameStore/Wakeup.antt =====
-- No lost wake-up: a call after which a waiting reader could go on has notified the readers.
use deplug.Common.{
  ℕ, ◌+◌, ◌^◌, ◌≤◌, ◌<◌, ◌≡◌, refl, ◌⊎◌, inl, inr, true, false, Option, some, List, [], ◌∷◌, arith,
  ltb, Bool-cases, length, length-append,
}
use deplug.Sequence.{Advanced, advance_all}
use deplug.Sequence.Laws.{Above}
use deplug.Sequence.Advance.{advance_all_inv}
use deplug.FrameStore.{
  FrameStore, insert, put_all, commit, push_frame, close, update, dequeue_views, waits_for_frames,
  waits_for_views, contains, remove,
}
use deplug.FrameStore.History.{Distinct, put_all-Above}

module _ {F V : Type 0} (index : F → ℕ) (new_view : F → V) where
  -- The calls that change the store. A batch carries its distinct `uint32_t` indices from 1.
  pub data Call : Type 0 where
    inserts : (b : List F) → Distinct index b → Call
    updates : ℕ → Call
    closes : ℕ → Call
    dequeues : ℕ → ℕ → ℕ → Call

  unfoldable pub step : Call → FrameStore F V → Option (FrameStore F V)
  step (inserts b d) s = some (insert index b s)
  step (updates n) s = update new_view n s
  step (closes id) s = some (close id s)
  step (dequeues offset size id) s = some (dequeue_views offset size id s).1

  -- What both conditions of waiting depend on stays as it was.
  record SameSight (s t : FrameStore F V) : Type 0 where
    frames : length t.frames ≡ length s.frames
    views : t.views ≡ s.views
    closed : t.closed ≡ s.closed
    threads : t.closed_threads ≡ s.closed_threads

  -- The length of `frames` and the last sequence number grow together.
  abbrev Grown : FrameStore F V → ℕ → List F → Type 0
  Grown s n out = (s.max_seq ≤ n) × (length out + s.max_seq ≡ length s.frames + n)

  push-Grown :
      (s : FrameStore F V) (n : ℕ) (f : F) (out : List F)
      → Grown s n out
      → Grown s (n + 1) (push_frame (n + 1) f out)
  push-Grown s n f out g = (omega arith, omega (arith, length-append out (f ∷ [])))

  insert_quiet :
      (b : List F) (s : FrameStore F V)
      → Distinct index b
      → Above 1 s.sequence
      → s.max_seq < 2 ^ 32
      → (s.notifies < (insert index b s).notifies) ⊎ SameSight s (insert index b s)
  unfolding insert commit
  insert_quiet b s d above small =
      let m = put_all index b s.sequence in
      let a : Advanced F = advance_all push_frame m s.max_seq s.frames in
      let g : Grown s a.max_seq a.out =
        advance_all_inv push_frame m (put_all-Above index b s.sequence d above) s.max_seq small
          s.frames (Grown s) (λ n f out _ h. push-Grown s n f out h) (omega arith, omega arith) in
      elim (Bool-cases (ltb s.max_seq a.max_seq)) [
        | inl grew ↦ inl (rw (grew, commit) (omega arith))
        | inr not_grown ↦
            let e : a.max_seq ≡ s.max_seq = ground arith in
            inr (
              rw (not_grown, commit)
                (record { frames = omega arith; views = refl; closed = refl; threads = refl }))
      ]

  contains_of_remove :
      (j i : ℕ) (ts : List ℕ) → contains j (remove i ts) ≡ true → contains j ts ≡ true
  unfolding contains remove
  contains_of_remove j i [] h = h
  contains_of_remove j i (t ∷ ts) h = ground (arith, contains_of_remove j i ts)

  -- A call that ends the wait of a reader of frames has called `notify_all`.
  pub step-wakes_frames :
      (c : Call) (s t : FrameStore F V) (offset : ℕ)
      → Above 1 s.sequence
      → s.max_seq < 2 ^ 32
      → step c s ≡ some t
      → waits_for_frames offset s ≡ true
      → waits_for_frames offset t ≡ false
      → s.notifies < t.notifies
  unfolding step waits_for_frames
  step-wakes_frames (inserts b d) s t offset above small e w go =
      ground (arith, insert_quiet b s d above small)
  step-wakes_frames (updates n) s t offset above small e w go = unfold update in ground arith
  step-wakes_frames (closes id) s t offset above small e w go = unfold close in ground arith
  step-wakes_frames (dequeues o n id) s t offset above small e w go =
      unfold dequeue_views in ground arith

  -- So has a call that ends the wait of a reader of views, a thread closed by its id included.
  step-wakes_views :
      (c : Call) (s t : FrameStore F V) (offset id : ℕ)
      → Above 1 s.sequence
      → s.max_seq < 2 ^ 32
      → step c s ≡ some t
      → waits_for_views offset id s ≡ true
      → waits_for_views offset id t ≡ false
      → s.notifies < t.notifies
  unfolding step waits_for_views
  step-wakes_views (inserts b d) s t offset id above small e w go =
      ground (arith, insert_quiet b s d above small)
  step-wakes_views (updates n) s t offset id above small e w go = unfold update in ground arith
  step-wakes_views (closes i) s t offset id above small e w go = unfold close in ground arith
  step-wakes_views (dequeues o n i) s t offset id above small e w go =
      unfold dequeue_views in ground (arith, contains_of_remove id i s.closed_threads)
