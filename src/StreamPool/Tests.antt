-- ===== src/StreamPool/Tests.antt =====
-- The progress of two stream dissector threads.
use deplug.Common.{ℕ, ◌≤◌, ◌<◌, ◌≡◌, ◌≢◌, ◌⊎◌, refl, false, some, List, [], ◌∷◌, arith, get_elem?}
use deplug.FrameStore.{FrameStore, update, dissected_size}
use deplug.StreamPool.{Stat, update_index}
use deplug.Layer.{Layer, new_layer}
use deplug.FrameView.{find_leaf_layers}
use deplug.StreamPool.Dispatch.{sort_layers, find_streamed_layers}
use deplug.StreamPool.Routing.{
  empty_map, of_worker, sort_layers-of_worker, reversed_result, find_streamed_layers-reversed,
}
use deplug.StreamPool.Progress.{top, IsPending, update_index-waiting}
use deplug.StreamPool.Retreat.{retreat}

abbrev stat : ℕ → ℕ → Stat
stat p d = record { pushed = p; dissected = d }

-- The first thread has done 10 frames; the second has been given frame 11, its first.
abbrev slow_second : List Stat
slow_second = stat 12 10 ∷ stat 11 0 ∷ []

reported : update_index 0 0 12 slow_second ≡ some (0, stat 12 12 ∷ stat 11 0 ∷ [])
unfolding update_index
reported = refl

update_index-waiting_example :
    (after : List Stat) × (r : ℕ) × (update_index 0 0 12 slow_second ≡ some (r, after))
    × (get_elem? after 0 ≡ some (stat 12 12))
    × ((other : ℕ) → other ≢ 0 → get_elem? after other ≡ get_elem? slow_second other)
    × ((t frame : ℕ) (s : Stat)
        → get_elem? after t ≡ some s
        → s.dissected < frame
        → frame ≤ s.pushed
        → r < frame)
    × ((r ≡ top after) ⊎ IsPending after r)
update_index-waiting_example = update_index-waiting 0 0 12 slow_second (stat 12 10) refl

-- The first thread has frames 1 and 20 and has done the first, the other has done 2 to 19: the
-- result stays at 1.
held_back :
    update_index 1 19 19 (stat 20 1 ∷ stat 19 0 ∷ []) ≡ some (1, stat 20 1 ∷ stat 19 19 ∷ [])
unfolding update_index
held_back = refl

abbrev shown : FrameStore ℕ ℕ
shown = record {
  sequence = [];
  frames = 1 ∷ 2 ∷ 3 ∷ [];
  views = 1 ∷ 2 ∷ [];
  max_seq = 3;
  closed_threads = [];
  closed = false;
  callbacks = 0;
  notifies = 0;
}

retreat_example :
    (s' : FrameStore ℕ ℕ) × (update (λ f. f) 0 shown ≡ some s')
    × (dissected_size s' ≤ 0)
    × (dissected_size s' < dissected_size shown)
unfolding dissected_size
retreat_example =
    retreat (λ f. f) 1 0 12 slow_second _ (stat 11 0) 0 shown refl (omega arith) (omega arith)
      (omega arith) reported

-- Layers by their workers, for two threads: the worker 3 is that of the second.
sort_layers-of_worker_example :
    (layers : List ℕ) × (get_elem? (sort_layers (λ l. l) 2 (3 ∷ 4 ∷ 1 ∷ 3 ∷ []) (empty_map 2)) 1
      ≡ some layers)
    × (layers ≡ 3 ∷ 1 ∷ 3 ∷ [])
    × (of_worker (λ l. l) 3 layers ≡ 3 ∷ 3 ∷ [])
sort_layers-of_worker_example =
    sort_layers-of_worker (λ l. l) 2 3 (3 ∷ 4 ∷ 1 ∷ 3 ∷ []) (omega arith)

abbrev heap : List (Layer ℕ ℕ ℕ)
heap = record (new_layer 1) { layers = 1 ∷ 2 ∷ [] } ∷ new_layer 2 ∷ new_layer 3 ∷ []

find_streamed_layers-reversed_example :
    find_streamed_layers heap 3 0 ≡ reversed_result (find_leaf_layers heap 3 0)
find_streamed_layers-reversed_example = find_streamed_layers-reversed heap 3 0

streamed : find_streamed_layers heap 3 0 ≡ some (2 ∷ 1 ∷ [])
unfolding find_streamed_layers new_layer
streamed = refl
