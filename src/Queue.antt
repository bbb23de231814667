-- ===== src/Queue.antt =====
-- plugkit/src/queue.hpp: the closable blocking queue that feeds the dissector threads. Each method
-- holds the mutex from its start to its end, so it is one step on the state; `dequeue` stands for
-- the part after the wait, which ends when `waits` is false or when the time is over.
pub mod Fifo
mod Tests
use deplug.Common.{
  ℕ, ◌+◌, Bool, true, false, ◌||◌, not, List, [], ◌∷◌, ◌++◌, ltb, if◌then◌else◌, wrap32, length,
}

-- `buf` has the front first. The constructor leaves the atomic `count` uninitialised.
pub record Queue {ℓ} (A : Type ℓ) : Type ℓ where
  pub buf : List A
  pub closed : Bool
  pub count : ℕ

-- What `dequeue` hands back: `false` with nothing written, or `true`, the elements written, whose
-- number is the new `*size`.
pub data Dequeued {ℓ} (A : Type ℓ) : Type ℓ where
  stopped : Dequeued A
  got : List A → Dequeued A

abbrev pub is_empty {ℓ} : {A : Type ℓ} → List A → Bool
is_empty [] = true
is_empty (x ∷ xs) = false

module _ {ℓ} {A : Type ℓ} where
  unfoldable pub init : ℕ → Queue A
  init garbage = record { buf = []; closed = false; count = garbage }

  -- The overload for one value does not store `count`.
  unfoldable pub enqueue : A → Queue A → Queue A
  enqueue value q = if q.closed then q else record q { buf = q.buf ++ value ∷ [] }

  push_all : List A → List A → List A
  push_all buf [] = buf
  push_all buf (x ∷ xs) = push_all (buf ++ x ∷ []) xs

  unfoldable pub enqueue_range : List A → Queue A → Queue A
  unfolding push_all
  enqueue_range xs q =
      if q.closed
      then q
      else record q { buf = push_all q.buf xs; count = wrap32 (length (push_all q.buf xs)) }

  -- `while (!buf.empty() && num < *size)`: the elements moved out, and what stays in the buffer.
  drain : List A → ℕ → ℕ → List A × List A
  drain [] num size = ([], [])
  drain (x ∷ buf) num size =
      let rest = drain buf (num + 1) size in
      if ltb num size then (x ∷ rest.0, rest.1) else ([], x ∷ buf)

  -- The condition under which `dequeue` keeps waiting.
  unfoldable pub waits : ℕ → Queue A → Bool
  waits wait_for q = if ltb 0 wait_for then not (not (is_empty q.buf) || q.closed) else false

  unfoldable pub dequeue : ℕ → Queue A → Dequeued A × Queue A
  unfolding drain
  dequeue size q =
      if q.closed
      then (stopped, q)
      else if is_empty q.buf
      then (got [], q)
      else let moved = drain q.buf 0 size in
        (got moved.0, record q { buf = moved.1; count = wrap32 (length moved.1) })

  unfoldable pub close : Queue A → Queue A
  close q = record q { closed = true }

  unfoldable pub size : Queue A → ℕ
  size q = q.count
