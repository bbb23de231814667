-- ===== src/FrameStore/Tests.antt =====
-- The frame store on concrete frames; a frame is its index, and a view is the index doubled.
use deplug.Common.{
  ℕ, ◌*◌, ◌^◌, ◌<◌, ◌≡◌, refl, true, false, none, some, List, [], ◌∷◌, arith, length,
}
use mathlib.Core.List.{flatten}
use deplug.Sequence
use deplug.FrameStore.{
  remove, FrameStore, stopped, got, init, insert, update, close, get, dequeue_frames, dequeue_views,
  contains, copy, waits_for_frames, waits_for_views, dissected_size,
}
use deplug.FrameStore.History.{Distinct, find_index}
use deplug.FrameStore.Reorder.{IsOrdered}
use deplug.FrameStore.Arrivals.{
  insert_all, after, insert_all-IsOrdered, insert_all-order_irrelevant,
}
use deplug.FrameStore.Follow.{Event, writes, reads, Reader, follow, IsPrefix, follow-IsPrefix}
use deplug.FrameStore.Readers.{get_lem, read_all, close-dequeue_views}
use deplug.FrameStore.Views.{update-views, update_past}
use deplug.FrameStore.Wakeup.{Call, inserts, step, step-wakes_frames}

abbrev id_index : ℕ → ℕ
id_index f = f

abbrev double : ℕ → ℕ
double f = 2 * f

abbrev late_first : List (List ℕ)
late_first = (3 ∷ 2 ∷ []) ∷ (5 ∷ []) ∷ (1 ∷ []) ∷ []

abbrev in_order : List (List ℕ)
in_order = (1 ∷ 2 ∷ 3 ∷ 5 ∷ []) ∷ []

late_frames : (after ℕ id_index late_first).frames ≡ 1 ∷ 2 ∷ 3 ∷ []
unfolding insert_all insert init Sequence.advance_all Sequence.put Sequence.find Sequence.erase
late_frames = refl

late_sequence : (after ℕ id_index late_first).sequence ≡ (3, 3) ∷ (5, 5) ∷ []
unfolding insert_all insert init Sequence.advance_all Sequence.put Sequence.find Sequence.erase
late_sequence = refl

late_first-Distinct : Distinct id_index (flatten late_first)
unfolding find_index flatten
late_first-Distinct = (
  omega arith,
  omega arith,
  refl,
  (
    omega arith,
    omega arith,
    refl,
    (omega arith, omega arith, refl, (omega arith, omega arith, refl, tt)),
  ),
)

in_order-Distinct : Distinct id_index (flatten in_order)
unfolding find_index flatten
in_order-Distinct = (
  omega arith,
  omega arith,
  refl,
  (
    omega arith,
    omega arith,
    refl,
    (omega arith, omega arith, refl, (omega arith, omega arith, refl, tt)),
  ),
)

insert_all-IsOrdered_example : IsOrdered id_index (after ℕ id_index late_first) (flatten late_first)
insert_all-IsOrdered_example = insert_all-IsOrdered ℕ id_index late_first late_first-Distinct

same_frames :
    (k : ℕ) → find_index id_index k (flatten late_first) ≡ find_index id_index k (flatten in_order)
unfolding find_index flatten
same_frames k = ground arith

insert_all-order_irrelevant_example :
    ((after ℕ id_index late_first).frames ≡ (after ℕ id_index in_order).frames)
    × ((after ℕ id_index late_first).max_seq ≡ (after ℕ id_index in_order).max_seq)
insert_all-order_irrelevant_example =
    insert_all-order_irrelevant ℕ id_index late_first in_order late_first-Distinct in_order-Distinct
      same_frames

-- Two writes with a read after each.
abbrev events : List (Event ℕ)
events = writes (2 ∷ 1 ∷ []) ∷ reads 8 ∷ writes (3 ∷ []) ∷ reads 8 ∷ []

abbrev at_start : Reader ℕ ℕ
at_start = record { store = init; seen = [] }

read_frames : (follow id_index events at_start).seen ≡ 1 ∷ 2 ∷ 3 ∷ []
unfolding follow dequeue_frames copy insert init Sequence.advance_all Sequence.put Sequence.find
    Sequence.erase
read_frames = refl

events_small : length (follow id_index events at_start).store.frames < 2 ^ 32
unfolding follow dequeue_frames copy insert init Sequence.advance_all Sequence.put Sequence.find
    Sequence.erase
events_small = omega arith

follow-IsPrefix_example : IsPrefix id_index (follow id_index events at_start)
follow-IsPrefix_example = follow-IsPrefix id_index events at_start events_small refl

-- Three frames, of which two have a view.
abbrev loaded : FrameStore ℕ ℕ
loaded = record {
  sequence = [];
  frames = 1 ∷ 2 ∷ 3 ∷ [];
  views = 2 ∷ 4 ∷ [];
  max_seq = 3;
  closed_threads = [];
  closed = false;
  callbacks = 1;
  notifies = 1;
}

get_lem_example : get 1 5 loaded ≡ 4 ∷ []
get_lem_example = get_lem 1 5 loaded (omega arith) (omega arith)

close-dequeue_views_example :
    (waits_for_views 0 7 (close 7 loaded) ≡ false)
    × (dequeue_views 0 8 7 (close 7 loaded) ≡ (stopped, record loaded { notifies = 2 }))
    × (read_all ((0, 8) ∷ (1, 8) ∷ []) 7 (record loaded { notifies = 2 })
        ≡ (got (2 ∷ 4 ∷ []) ∷ got (4 ∷ []) ∷ [], record loaded { notifies = 2 }))
unfolding remove
close-dequeue_views_example =
    close-dequeue_views 0 8 7 loaded ((0, 8) ∷ (1, 8) ∷ []) (omega arith) refl (omega arith)

update-views_example :
    (t : FrameStore ℕ ℕ) × (update double 3 loaded ≡ some t)
    × (t ≡ record loaded { views = 2 ∷ 4 ∷ 6 ∷ []; callbacks = 2; notifies = 2 })
    × (dissected_size t ≡ 3)
update-views_example = update-views double 3 loaded (omega arith) (omega arith) refl

update_past_example : update double 4 loaded ≡ none
update_past_example = update_past double 4 loaded (omega arith) (omega arith)

abbrev bring_four : Call id_index double
bring_four = inserts (4 ∷ []) (unfold find_index in (omega arith, omega arith, refl, tt))

loaded_waits : waits_for_frames 3 loaded ≡ true
unfolding waits_for_frames
loaded_waits = refl

four_goes_on : waits_for_frames 3 (insert id_index (4 ∷ []) loaded) ≡ false
unfolding waits_for_frames insert Sequence.advance_all Sequence.put Sequence.find Sequence.erase
four_goes_on = refl

views_wait : waits_for_views 2 7 loaded ≡ true
unfolding waits_for_views contains
views_wait = refl

closed_goes_on : waits_for_views 2 7 (close 7 loaded) ≡ false
unfolding waits_for_views contains close
closed_goes_on = refl

step-wakes_frames_example : loaded.notifies < (insert id_index (4 ∷ []) loaded).notifies
unfolding step
step-wakes_frames_example =
    step-wakes_frames id_index double bring_four loaded (insert id_index (4 ∷ []) loaded) 3 tt
      (omega arith) refl loaded_waits four_goes_on
