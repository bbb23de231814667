-- ===== src/FilterPool/Threads.antt =====
-- plugkit/src/filter_thread.cpp, filter.cpp, and in filter_thread_pool.cpp what starts the threads and
-- passes inspector messages on to them. `V` stands for `const FrameView *`; the function that a filter's
-- script gives is a parameter, which may throw.
use deplug.Common.{
  ℕ, zero, suc, ◌+◌, Bool, false, Option, none, some, List, [], ◌∷◌, ◌++◌, map, ◌==◌, if◌then◌else◌,
  length, get_elem?, set,
}
use deplug.FrameStore.{FrameStore, stopped, got, dequeue_views, close, no_thread}
use deplug.FilterPool.{FilterPool, thread_callback}

-- How `loop` returns: `false`, or `true` with or without a call of the callback.
pub data Turn : Type 0 where
  ends : Turn
  idle : Turn
  calls_back : ℕ → List Bool → Turn

module _ {V : Type 0} where
  -- What a view is found to be: `results` starts with zeros, which stay when a call throws.
  unfoldable pub verdict : Option (V → Option Bool) → V → Bool
  verdict none view = false
  verdict (some func) view = elim (func view) [ none ↦ false | some value ↦ value ]

  -- `Filter::test`, without the function if the script does not give one.
  unfoldable pub test : Option (V → Option Bool) → List V → List Bool
  unfolding verdict
  test func views = map (verdict func) views

  -- `loop` after the wait, with the thread's id and its `offset`: the turn, the new offset, and the
  -- store, where `dequeue` may take a mark away.
  unfoldable pub loop :
      {F : Type 0}
      → (V → ℕ)
      → Option (V → Option Bool)
      → ℕ
      → ℕ
      → FrameStore F V
      → Turn × ℕ × FrameStore F V
  unfolding test
  loop index func id offset store =
      let r = dequeue_views offset 2048 id store in
      elim (r.0) [
        | stopped ↦ (ends, offset, r.1)
        | got [] ↦ (idle, offset, r.1)
        | got (view ∷ views) ↦ (
          calls_back (index view) (test func (view ∷ views)),
          offset + length (view ∷ views),
          r.1,
        )
      ]

-- `FilterThread::close`, where a thread that was not started has the default id.
unfoldable pub close_thread : {F V : Type 0} → ℕ → FrameStore F V → FrameStore F V
close_thread id store = if id == no_thread then store else close id store

-- The number of threads that `start` makes: the option, which is meant to be no negative number, what
-- the machine has, or 1.
unfoldable pub concurrency : ℕ → ℕ → ℕ
concurrency option hardware =
    if option == 0 then (if hardware == 0 then 1 else hardware) else option

-- `start` makes a thread for each `i` below the concurrency, with the inspector that `name` gives;
-- `sendInspectorMessage` gives a message to the first thread with that inspector.
unfoldable pub make_inspectors : {Name : Type 0} → (ℕ → Name) → ℕ → ℕ → List Name
make_inspectors name i zero = []
make_inspectors name i (suc left) = name i ∷ make_inspectors name (i + 1) left

module _ {Name Message : Type 0} (same : Name → Name → Bool) where
  -- The messages that each thread has been sent.
  unfoldable pub send_inspector_message :
      Name → Message → List Name → List (List Message) → List (List Message)
  send_inspector_message id message (inspector ∷ inspectors) (queue ∷ queues) =
      let rest = send_inspector_message id message inspectors queues in
      if same inspector id then (queue ++ message ∷ []) ∷ queues else queue ∷ rest
  send_inspector_message id message inspectors queues = queues

-- The pool and the offsets of its threads.
pub record Threads : Type 0 where
  pub offsets : List ℕ
  pub pool : FilterPool

unfoldable pub zeros : ℕ → List ℕ
zeros zero = []
zeros (suc n) = 0 ∷ zeros n

unfoldable pub start : ℕ → ℕ → FilterPool → Threads
unfolding concurrency zeros
start option hardware pool = record { offsets = zeros (concurrency option hardware); pool = pool }

module _ {F V : Type 0} (index : V → ℕ) (func : Option (V → Option Bool)) where
  -- Thread `i`, whose id is `id`, goes once through its loop.
  unfoldable pub turn : ℕ → ℕ → FrameStore F V → Threads → Threads
  unfolding loop thread_callback
  turn i id store t = elim (get_elem? t.offsets i) [
    | none ↦ t
    | some offset ↦
        let r = loop index func id offset store in
        elim (r.0) [
          | ends ↦ t
          | idle ↦ t
          | calls_back begin results ↦ record {
            offsets = set t.offsets i r.1;
            pool = thread_callback begin results t.pool;
          }
        ]
  ]
