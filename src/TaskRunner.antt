-- ===== src/TaskRunner.antt =====
-- plugkit/src/task.cpp: the thread that runs the import and export tasks one after the other. `T`
-- stands for a task; `started` has the tasks that the thread has run, with their ids. The count is an
-- `int`, far from whose bound no session comes. `add` raises it before it takes the mutex; it is one
-- step here, since only the main thread, which owns the session, calls it.
pub mod Order
mod Tests
use deplug.Common.{ℕ, ◌+◌, Bool, true, false, ◌||◌, not, List, [], ◌∷◌, ◌++◌}

pub record TaskRunner (T : Type 0) : Type 0 where
  pub count : ℕ
  pub queue : List (ℕ × T)
  pub closed : Bool
  pub started : List (ℕ × T)

unfoldable pub init : {T : Type 0} → TaskRunner T
init = record { count = 0; queue = []; closed = false; started = [] }

module _ {T : Type 0} where
  -- The id that `add` returns, and the runner.
  unfoldable pub add : T → TaskRunner T → ℕ × TaskRunner T
  add task r =
      (r.count + 1, record r { count = r.count + 1; queue = r.queue ++ (r.count + 1, task) ∷ [] })

  -- The flag that `close` sets; the thread is joined after it.
  unfoldable pub close : TaskRunner T → TaskRunner T
  close r = record r { closed = true }

  unfoldable pub is_empty : List (ℕ × T) → Bool
  is_empty [] = true
  is_empty (t ∷ ts) = false

  -- The condition under which the thread waits.
  unfoldable pub waits : TaskRunner T → Bool
  unfolding is_empty
  waits r = not (r.closed || not (is_empty r.queue))

  -- What follows the wait, to the end of the task; a closed runner stays as it is.
  unfoldable pub turn : TaskRunner T → TaskRunner T
  turn r = elim (r.closed) [
    | true ↦ r
    | false ↦ elim (r.queue) [
      | [] ↦ r
      | t ∷ ts ↦ record r { queue = ts; started = r.started ++ t ∷ [] }
    ]
  ]
