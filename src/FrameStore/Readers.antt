-- ===== src/FrameStore/Readers.antt =====
-- Reading: `dequeue`, `get` and `update` against the lists that they read.
use deplug.Common.{
  ℕ, zero, suc, ◌+◌, ◌-◌, ◌^◌, ◌<◌, max, ◌≡◌, refl, ap, ◌∙◌, ◌≢◌, false, List, [], ◌∷◌, arith, ltb,
  if◌then◌else◌, lt→ltb, wrap32, length, take, drop, get_elem?_of_ge, get_elem?_of_lt,
  drop_of_get_elem?, drop_of_ge,
}
use native.Mathlib.Decide.{dec_lt}
use deplug.FrameStore.{
  FrameStore, Read, stopped, got, copy, slice, range_end, dequeue_frames, dequeue_views, get,
  waits_for_views, no_thread, contains, remove, close,
}

module _ {ℓ} {A : Type ℓ} where
  copy-take :
      (from : List A) (offset left i : ℕ)
      → copy from offset (length from) left i ≡ take left (drop (i + offset) from)
  unfolding copy
  copy-take from offset zero i = refl
  copy-take from offset (suc left) i = elim (dec_lt (i + offset) (length from)) [
    | yes p ↦
        let (x, e) = get_elem?_of_lt from (i + offset) p in
        let shift : suc (i + offset) ≡ i + 1 + offset = omega arith in
        rw (lt→ltb _ _ p, e, drop_of_get_elem? from (i + offset) x e, shift)
          (ap (◌∷◌ x) (copy-take from offset left (i + 1)))
    | no p ↦
        let e : ltb (i + offset) (length from) ≡ false = ground arith in
        rw (e, drop_of_ge (i + offset) from (omega arith))
  ]

  pub copy_all :
      (from : List A) (offset size max : ℕ)
      → size ≡ length from
      → copy from offset size max 0 ≡ take max (drop offset from)
  copy_all from offset size max e =
      let start : 0 + offset ≡ offset = omega arith in
      rw e (copy-take from offset max 0 ∙ ap (λ k. take max (drop k from)) start)

  slice-take : (from : List A) (left i : ℕ) → slice from left i ≡ take left (drop i from)
  unfolding slice
  slice-take from zero i = refl
  slice-take from (suc left) i = elim (dec_lt i (length from)) [
    | yes p ↦
        let (x, e) = get_elem?_of_lt from i p in
        let shift : suc i ≡ i + 1 = omega arith in
        ground (
          arith,
          e,
          drop_of_get_elem? from i x e,
          slice-take from left (i + 1),
          ap (λ k. take left (drop k from)) shift,
        )
    | no p ↦ ground (arith, get_elem?_of_ge from i (omega arith), drop_of_ge i from (omega arith))
  ]

contains-remove : (id : ℕ) (ts : List ℕ) → contains id (remove id ts) ≡ false
unfolding contains remove
contains-remove id [] = refl
contains-remove id (t ∷ ts) = ground (arith, contains-remove id ts)

abbrev pub views_at : {V : Type 0} → List (ℕ × ℕ) → List V → List (Read V)
views_at [] views = []
views_at ((offset, size) ∷ reads) views = got (take size (drop offset views)) ∷ views_at reads views

module _ {F V : Type 0} where
  -- An open store with less than 2 ^ 32 frames hands out the frames from `offset` on, `max` at
  -- most; a closed one hands out none, so that a reader stops also before the end.
  pub dequeue_frames_lem :
      (offset max : ℕ) (s : FrameStore F V)
      → length s.frames < 2 ^ 32
      → dequeue_frames offset max s ≡ (if s.closed then [] else take max (drop offset s.frames))
  unfolding dequeue_frames
  dequeue_frames_lem offset max s small =
      ground (arith, copy_all s.frames offset (wrap32 (length s.frames)) max (omega arith))

  -- `get` gives the views from `offset` on, `length` at most; but where `offset + length` passes
  -- the range of a `uint32_t` it gives none.
  pub get_lem :
      (offset len : ℕ) (s : FrameStore F V)
      → offset < 2 ^ 32
      → len < 2 ^ 32
      → get offset len s
        ≡ (if ltb (offset + len) (2 ^ 32) then take len (drop offset s.views) else [])
  unfolding get
  get_lem offset len s a b = elim (dec_lt (offset + len) (2 ^ 32)) [
    | yes fits ↦
        let e : range_end offset len - offset ≡ len = omega arith in
        rw (e, lt→ltb (offset + len) (2 ^ 32) fits) (slice-take s.views len offset)
    | no over ↦
        let e : range_end offset len - offset ≡ 0 = omega arith in
        let f : ltb (offset + len) (2 ^ 32) ≡ false = ground arith in
        rw (e, f) (slice-take s.views 0 offset)
  ]

  close_wakes :
      (offset id : ℕ) (s : FrameStore F V)
      → id ≢ no_thread
      → waits_for_views offset id (close id s) ≡ false
  unfolding waits_for_views close contains
  close_wakes offset id s some_id = ground arith

  close_stops :
      (offset size id : ℕ) (s : FrameStore F V)
      → id ≢ no_thread
      → dequeue_views offset size id (close id s) ≡ (
        stopped,
        record s { closed_threads = remove id s.closed_threads; notifies = s.notifies + 1 },
      )
  unfolding dequeue_views close contains remove
  close_stops offset size id s some_id = ground arith

  -- The reads of a thread, one after the other, each with its offset and its size.
  unfoldable pub read_all : List (ℕ × ℕ) → ℕ → FrameStore F V → List (Read V) × FrameStore F V
  unfolding dequeue_views
  read_all [] id s = ([], s)
  read_all ((offset, size) ∷ reads) id s =
      let now = dequeue_views offset size id s in
      let rest = read_all reads id now.1 in (now.0 ∷ rest.0, rest.1)

  read_all_open :
      (reads : List (ℕ × ℕ)) (id : ℕ) (s : FrameStore F V)
      → contains id s.closed_threads ≡ false
      → s.closed ≡ false
      → length s.views < 2 ^ 32
      → read_all reads id s ≡ (views_at reads s.views, s)
  unfolding read_all dequeue_views
  read_all_open [] id s not_closed open_store small = refl
  read_all_open ((offset, size) ∷ reads) id s not_closed open_store small =
      let delivered : dequeue_views offset size id s ≡ (got (take size (drop offset s.views)), s) =
        ground (arith, copy_all s.views offset (wrap32 (length s.views)) size (omega arith)) in
      rw (read_all, delivered, read_all_open reads id s not_closed open_store small) refl

  -- `close(id)` ends the wait of the thread `id` and stops its next read, on an open store, and no
  -- read after it: however many follow, each gets the views at its offset. After the stopped read
  -- the store is as it was, but that `id` is not among the closed threads and the count of the
  -- notifications is one more.
  pub close-dequeue_views :
      (offset size id : ℕ) (s : FrameStore F V) (reads : List (ℕ × ℕ))
      → id ≢ no_thread
      → s.closed ≡ false
      → length s.views < 2 ^ 32
      → let after = record s {
        closed_threads = remove id s.closed_threads;
        notifies = s.notifies + 1;
      } in
        (waits_for_views offset id (close id s) ≡ false)
        × (dequeue_views offset size id (close id s) ≡ (stopped, after))
        × (read_all reads id after ≡ (views_at reads s.views, after))
  close-dequeue_views offset size id s reads some_id open_store small = (
    close_wakes offset id s some_id,
    close_stops offset size id s some_id,
    read_all_open reads id
        (record s { closed_threads = remove id s.closed_threads; notifies = s.notifies + 1 })
        (contains-remove id s.closed_threads) open_store small,
  )
