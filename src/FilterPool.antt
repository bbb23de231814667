-- ===== src/FilterPool.antt =====
-- plugkit/src/filter_thread_pool.cpp: the results of the filter threads, which arrive in blocks and
-- out of order, put together to the list of the frames that pass the display filter.
pub mod Threads
pub mod Matches
pub mod Reorder
pub mod Turns
pub mod Display
mod Tests
use deplug.Common.{ℕ, ◌+◌, ◌-◌, Bool, List, [], ◌∷◌, ◌++◌, ltb, if◌then◌else◌, wrap32, length}
use deplug.Sequence
use deplug.Sequence.{Sequence, Advanced}
use deplug.FrameStore.{slice, range_end}

pub record FilterPool : Type 0 where
  pub sequence : Sequence Bool
  pub frames : List ℕ
  pub max_seq : ℕ
  -- How often `d->callback()` was called.
  pub callbacks : ℕ

unfoldable pub init : FilterPool
init = record { sequence = []; frames = []; max_seq = 0; callbacks = 0 }

-- `if (it->second) d->frames.push_back(it->first)`
abbrev pub keep_match : ℕ → Bool → List ℕ → List ℕ
keep_match seq match frames = if match then frames ++ seq ∷ [] else frames

-- `for (const auto &match : results) { sequence.insert(make_pair(begin, match)); begin++; }`
pub insert_results : ℕ → List Bool → Sequence Bool → Sequence Bool
insert_results begin [] m = m
insert_results begin (match ∷ results) m =
    insert_results (Sequence.next begin) results (Sequence.insert begin match m)

commit : Sequence Bool → Advanced ℕ → FilterPool → FilterPool
commit m a p =
    if ltb p.max_seq a.max_seq
    then record {
      sequence = Sequence.erase a.end m;
      frames = a.out;
      max_seq = a.max_seq;
      callbacks = p.callbacks + 1;
    }
    else record p { sequence = m; frames = a.out }

-- `threadCallback(begin, results)` in `start`, which runs under the write lock.
unfoldable pub thread_callback : ℕ → List Bool → FilterPool → FilterPool
unfolding insert_results commit
thread_callback begin results p =
    let m = insert_results begin results p.sequence in
    commit m (Sequence.advance_all keep_match m p.max_seq p.frames) p

unfoldable pub get : ℕ → ℕ → FilterPool → List ℕ
get offset length p = slice p.frames (range_end offset length - offset) offset

unfoldable pub size : FilterPool → ℕ
size p = wrap32 (length p.frames)
