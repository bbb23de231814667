-- ===== src/Queue/Tests.antt =====
-- Queue<T> on concrete calls.
use deplug.Common.{ℕ, ◌≤◌, ◌<◌, ◌≡◌, refl, false, List, [], ◌∷◌, ◌++◌, arith, length}
use deplug.Queue.{Queue, stopped, got, enqueue, enqueue_range, dequeue, close, waits}
use deplug.Queue.Fifo.{
  Op, puts, puts_range, takes, closes, run, run-fifo, accepted, dequeue-progress,
}

abbrev calls : List (Op ℕ)
calls = puts 1 ∷ puts_range (2 ∷ 3 ∷ []) ∷ takes 2 ∷ puts 4 ∷ closes ∷ takes 8 ∷ puts 5 ∷ []

abbrev fresh : Queue ℕ
fresh = record { buf = []; closed = false; count = 0 }

abbrev three : Queue ℕ
three = record { buf = 7 ∷ 8 ∷ 9 ∷ []; closed = false; count = 3 }

run-calls : (run calls fresh).0 ≡ 1 ∷ 2 ∷ []
unfolding run enqueue enqueue_range dequeue close
run-calls = refl

left-calls : (run calls fresh).1.buf ≡ 3 ∷ 4 ∷ []
unfolding run enqueue enqueue_range dequeue close
left-calls = refl

run-fifo_example :
    ((run calls fresh).0 ++ (run calls fresh).1.buf ≡ 1 ∷ 2 ∷ 3 ∷ 4 ∷ [])
    × ((later : List (Op ℕ)) → (run (calls ++ closes ∷ later) fresh).0 ≡ (run calls fresh).0)
    × ((later : List (Op ℕ)) (n : ℕ)
        → (dequeue n (run (calls ++ closes ∷ later) fresh).1).0 ≡ stopped)
unfolding accepted
run-fifo_example = run-fifo calls fresh refl

dequeue-progress_example :
    (xs : List ℕ) × ((dequeue 2 three).0 ≡ got xs) × (0 < length xs) × (length xs ≤ 2)
unfolding waits
dequeue-progress_example = dequeue-progress 3000 2 three (omega arith) refl refl (omega arith)
