-- ===== src/FilterPool/Tests.antt =====
-- The filter pool on concrete results: even frames pass.
use deplug.Common.{
  ℕ, zero, suc, ◌+◌, ◌%◌, ◌≡◌, refl, sym, ap, some_eq, get_elem?, Option, some, none, Bool, true,
  false, List, [], ◌∷◌, arith, ◌==◌, if◌then◌else◌,
}
use deplug.Sequence
use deplug.FilterPool.{init, thread_callback}
use deplug.FilterPool.Matches.{Block, matches}
use deplug.FilterPool.Threads.{verdict, start}
use deplug.FilterPool.Turns.{IsNumbered}
use deplug.FilterPool.Display.{furthest, run, run-displayed}
use deplug.FrameStore.{FrameStore, dequeue_views, contains, copy}
use deplug.FilterPool.Reorder.{IsFiltered, pool_after, pool_after-IsFiltered}

abbrev even : ℕ → Bool
even k = k % 2 == 0

-- The later block came first, and one frame has two results.
abbrev blocks : List Block
blocks = (1, false ∷ true ∷ []) ∷ (2, true ∷ false ∷ true ∷ []) ∷ []

matching_frames : (pool_after blocks).frames ≡ 2 ∷ 4 ∷ []
unfolding pool_after thread_callback init Sequence.insert Sequence.advance_all Sequence.find
matching_frames = refl

pool_after-IsFiltered_example : IsFiltered even (pool_after blocks) blocks
pool_after-IsFiltered_example = pool_after-IsFiltered even blocks (
  (omega arith, omega arith, (refl, (refl, tt))),
  ((omega arith, omega arith, (refl, (refl, (refl, tt)))), tt),
)

-- Two threads over a store of three views, where a view is its frame's index; the function throws for
-- the third.
abbrev script : Option (ℕ → Option Bool)
script = some (λ v. if v == 3 then none else some (v % 2 == 0))

abbrev store : FrameStore ℕ ℕ
store = record {
  sequence = [];
  frames = 1 ∷ 2 ∷ 3 ∷ [];
  views = 1 ∷ 2 ∷ 3 ∷ [];
  max_seq = 3;
  closed_threads = [];
  closed = false;
  callbacks = 1;
  notifies = 1;
}

three_views :
    (i v : ℕ)
    → get_elem? (1 ∷ 2 ∷ 3 ∷ []) i ≡ some v
    → (v ≡ i + 1) × (verdict script v ≡ verdict script (i + 1))
three_views zero v e = (sym (some_eq e), ap (verdict script) (sym (some_eq e)))
three_views (suc zero) v e = (sym (some_eq e), ap (verdict script) (sym (some_eq e)))
three_views (suc (suc zero)) v e = (sym (some_eq e), ap (verdict script) (sym (some_eq e)))
three_views (suc (suc (suc i))) v e = absurd (cc)

store-IsNumbered : IsNumbered (λ v. v) script (verdict script) store
store-IsNumbered = record { small = omega arith; numbered = three_views }

abbrev turns : List (ℕ × ℕ × FrameStore ℕ ℕ)
turns = (1, 8, store) ∷ (0, 7, store) ∷ (1, 8, store) ∷ []

displayed_frames :
    (run (λ v. v) script (verdict script) turns (start 2 0 init)).pool.frames ≡ 2 ∷ []
unfolding run start init thread_callback Sequence.insert Sequence.advance_all Sequence.find verdict
    dequeue_views contains copy Sequence.erase
displayed_frames = refl

run-displayed_example :
    ((run (λ v. v) script (verdict script) turns (start 2 0 init)).pool.max_seq
      ≡ furthest (run (λ v. v) script (verdict script) turns (start 2 0 init)).offsets)
    × ((run (λ v. v) script (verdict script) turns (start 2 0 init)).pool.frames
        ≡ matches
            (verdict script)
            (furthest (run (λ v. v) script (verdict script) turns (start 2 0 init)).offsets))
run-displayed_example =
    run-displayed (λ v. v) script (verdict script) 2 0 turns
      (store-IsNumbered, (store-IsNumbered, (store-IsNumbered, tt)))
