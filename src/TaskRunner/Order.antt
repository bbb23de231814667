-- ===== src/TaskRunner/Order.antt =====
-- The tasks run in the order of their ids, each once.
use deplug.Common.{
  ℕ, ◌+◌, ◌≡◌, refl, ap, sym, ◌∙◌, Bool, true, false, List, [], ◌∷◌, ◌++◌, append-nil, append_assoc,
}
use deplug.TaskRunner.{TaskRunner, init, add, close, turn}

pub data Op (T : Type 0) : Type 0 where
  adds : T → Op T
  turns : Op T
  closes : Op T

module _ {T : Type 0} where
  unfoldable pub step : Op T → TaskRunner T → TaskRunner T
  step (adds task) r = (add task r).1
  step turns r = turn r
  step closes r = close r

  unfoldable pub run : List (Op T) → TaskRunner T → TaskRunner T
  unfolding step
  run [] r = r
  run (o ∷ os) r = run os (step o r)

  -- The tasks that are added, numbered from `n` on.
  unfoldable pub numbered : ℕ → List (Op T) → List (ℕ × T)
  numbered n [] = []
  numbered n (adds task ∷ os) = (n, task) ∷ numbered (n + 1) os
  numbered n (turns ∷ os) = numbered n os
  numbered n (closes ∷ os) = numbered n os

  abbrev pub all_tasks : TaskRunner T → List (ℕ × T)
  all_tasks r = r.started ++ r.queue

  turn_queue :
      (started queue : List (ℕ × T)) (count : ℕ) (closed : Bool)
      → (all_tasks
            (turn (record { count = count; queue = queue; closed = closed; started = started }))
          ≡ started ++ queue)
        × ((turn
              (record { count = count; queue = queue; closed = closed; started = started })).count
            ≡ count)
  unfolding turn
  turn_queue started queue count true = (refl, refl)
  turn_queue started [] count false = (refl, refl)
  turn_queue started (t ∷ ts) count false = (append_assoc started (t ∷ []) ts, refl)

  -- The tasks that are added, each with the id that `add` returned for it.
  unfoldable pub returned : List (Op T) → TaskRunner T → List (ℕ × T)
  unfolding step
  returned [] r = []
  returned (adds task ∷ os) r = ((add task r).0, task) ∷ returned os (step (adds task) r)
  returned (turns ∷ os) r = returned os (step turns r)
  returned (closes ∷ os) r = returned os (step closes r)

  returned-numbered :
      (os : List (Op T)) (r : TaskRunner T) → returned os r ≡ numbered (r.count + 1) os
  unfolding returned numbered add close
  returned-numbered [] r = refl
  returned-numbered (adds task ∷ os) r =
      ap (◌∷◌ (r.count + 1, task)) (returned-numbered os (add task r).1)
  returned-numbered (turns ∷ os) r =
      returned-numbered os (turn r)
      ∙ ap (λ k. numbered (k + 1) os) (turn_queue r.started r.queue r.count r.closed).1
  returned-numbered (closes ∷ os) r = returned-numbered os (close r)

  run-all_tasks :
      (os : List (Op T)) (r : TaskRunner T)
      → all_tasks (run os r) ≡ all_tasks r ++ numbered (r.count + 1) os
  unfolding run numbered add close
  run-all_tasks [] r = sym (append-nil (all_tasks r))
  run-all_tasks (adds task ∷ os) r =
      run-all_tasks os (add task r).1
      ∙ ap (λ k. k ++ numbered (r.count + 1 + 1) os)
          (sym (append_assoc r.started r.queue ((r.count + 1, task) ∷ [])))
      ∙ append_assoc (all_tasks r) ((r.count + 1, task) ∷ []) (numbered (r.count + 1 + 1) os)
  run-all_tasks (turns ∷ os) r =
      let (same, count) = turn_queue r.started r.queue r.count r.closed in
      run-all_tasks os (turn r)
      ∙ ap (λ k. k ++ numbered ((turn r).count + 1) os) same
      ∙ ap (λ k. all_tasks r ++ numbered (k + 1) os) count
  run-all_tasks (closes ∷ os) r = run-all_tasks os (close r)

  -- However the thread's turns come between the calls, the tasks that have run, followed by those
  -- that wait, are those that were added, in order, each with the id that `add` returned for it, and
  -- these ids are 1, 2, 3 and on: each task runs at most once, and none before one that was added
  -- earlier.
  pub run-numbered :
      (os : List (Op T))
      → (all_tasks (run os (init {T = T})) ≡ returned os init)
        × (returned os (init {T = T}) ≡ numbered 1 os)
  unfolding init
  run-numbered os =
      (run-all_tasks os init ∙ sym (returned-numbered os init), returned-numbered os init)
