-- ===== src/Pipeline/Tests.antt =====
-- Two sources whose frames overtake each other, and two dissector threads.
use deplug.Common.{ℕ, ◌≡◌, refl, List, [], ◌∷◌, arith, length, take}
use mathlib.Core.List.{flatten}
use deplug.Queue.{enqueue_range, dequeue}
use deplug.FrameStore
use deplug.Sequence
use deplug.Session
use deplug.Pipeline.{Step, numbers, pushes, takes, hands_on, run, start, empties}
use deplug.Pipeline.Numbers.{numbered}
use deplug.Pipeline.Complete.{final, run-prefix, run_complete}

abbrev steps : List (Step ℕ)
steps =
    numbers 0 70
    ∷ numbers 1 80
    ∷ pushes 1
    ∷ takes 1
    ∷ hands_on 1
    ∷ pushes 0
    ∷ takes 0
    ∷ hands_on 0
    ∷ []

-- The second frame waits in the store for the first.
stored : (final ℕ ℕ ℕ 0 2 2 steps).store.frames ≡ numbered 2 1 steps
unfolding run start numbered FrameStore.insert Sequence.advance_all Sequence.find Sequence.erase
    FrameStore.init Session.init Session.get_seq enqueue_range dequeue empties Sequence.put
stored = refl

run-prefix_example :
    (final ℕ ℕ ℕ 0 2 2 steps).store.frames
    ≡ take (final ℕ ℕ ℕ 0 2 2 steps).store.max_seq (numbered 2 1 steps)
run-prefix_example = run-prefix ℕ ℕ ℕ 0 2 2 steps (omega arith)

run_complete_example :
    ((final ℕ ℕ ℕ 0 2 2 steps).store.frames ≡ numbered 2 1 steps)
    × ((final ℕ ℕ ℕ 0 2 2 steps).store.max_seq ≡ length (numbered 2 1 steps))
unfolding run start Session.init Session.get_seq enqueue_range dequeue empties flatten
run_complete_example = run_complete ℕ ℕ ℕ 0 2 2 steps (omega arith) (refl, refl, refl)
