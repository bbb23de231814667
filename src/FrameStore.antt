-- ===== src/FrameStore.antt =====
-- plugkit/src/frame_store.cpp: the store that puts the dissected frames back into the order of
-- their indices and keeps the views made of them. `F` stands for `Frame *` with `index` for
-- `frame->index()`, `V` for `const FrameView *`; a thread id is a number, 0 for the default id.
-- A method is one step, since it holds the mutex; of a method that waits on the condition variable
-- the step is what follows the wait, and `waits_…` is the condition under which it goes on waiting.
pub mod History
pub mod Reorder
pub mod Arrivals
pub mod Readers
pub mod Views
pub mod Follow
pub mod Wakeup
mod Tests
use deplug.Common.{
  ℕ, zero, suc, ◌+◌, ◌-◌, ◌%◌, ◌^◌, max, Bool, true, false, ◌&&◌, ◌||◌, not, Option, none, some,
  List, [], ◌∷◌, ◌++◌, ltb, ◌==◌, if◌then◌else◌, wrap32, length, get_elem?, take,
}
use deplug.Sequence
use deplug.Sequence.{Sequence, Advanced}

pub record FrameStore (F V : Type 0) : Type 0 where
  pub sequence : Sequence F
  pub frames : List F
  pub views : List V
  pub max_seq : ℕ
  pub closed_threads : List ℕ
  pub closed : Bool
  -- How often `d->callback()` and `d->cond.notify_all()` were called.
  pub callbacks : ℕ
  pub notifies : ℕ

abbrev pub no_thread : ℕ
no_thread = 0

-- `closedThreads.count(id) > 0`, `closedThreads.erase(id)`, `closedThreads.insert(id)`
unfoldable pub contains : ℕ → List ℕ → Bool
contains id [] = false
contains id (t ∷ ts) = t == id || contains id ts

unfoldable pub remove : ℕ → List ℕ → List ℕ
remove id [] = []
remove id (t ∷ ts) = let rest = remove id ts in if t == id then rest else t ∷ rest

-- The loops that copy `from[i + offset]` for `i` from 0 while `i + offset < size` and `i < max`;
-- `left` is `max - i`.
unfoldable pub copy {ℓ} : {A : Type ℓ} → List A → ℕ → ℕ → ℕ → ℕ → List A
copy from offset size zero i = []
copy from offset size (suc left) i =
    let rest = copy from offset size left (i + 1) in
    if ltb (i + offset) size
    then elim (get_elem? from (i + offset)) [ none ↦ [] | some x ↦ x ∷ rest ]
    else []

-- The loop `for (size_t i = offset; i < offset + length && i < size; ++i)` of `get`, whose bound
-- is a `uint32_t`; `left` counts the rounds up to that bound.
unfoldable pub slice {ℓ} : {A : Type ℓ} → List A → ℕ → ℕ → List A
slice from zero i = []
slice from (suc left) i =
    let rest = slice from left (i + 1) in elim (get_elem? from i) [ none ↦ [] | some x ↦ x ∷ rest ]

abbrev pub range_end : ℕ → ℕ → ℕ
range_end offset length = (offset + length) % 2 ^ 32

-- What a blocking read of views gives: `false`, or `true` and the views, whose number is `*size`.
pub data Read (V : Type 0) : Type 0 where
  stopped : Read V
  got : List V → Read V

unfoldable pub init : {F V : Type 0} → FrameStore F V
init = record {
  sequence = [];
  frames = [];
  views = [];
  max_seq = 0;
  closed_threads = [];
  closed = false;
  callbacks = 0;
  notifies = 0;
}

abbrev pub push_frame : {F : Type 0} → ℕ → F → List F → List F
push_frame seq frame frames = frames ++ frame ∷ []

module _ {F : Type 0} (index : F → ℕ) where
  pub put_all : List F → Sequence F → Sequence F
  put_all [] m = m
  put_all (f ∷ fs) m = put_all fs (Sequence.put (index f) f m)

module _ {F V : Type 0} (index : F → ℕ) where
  commit : Sequence F → Advanced F → FrameStore F V → FrameStore F V
  commit m a s =
      if ltb s.max_seq a.max_seq
      then record s {
        sequence = Sequence.erase a.end m;
        frames = a.out;
        max_seq = a.max_seq;
        callbacks = s.callbacks + 1;
        notifies = s.notifies + 1;
      }
      else record s { sequence = m; frames = a.out }

  unfoldable pub insert : List F → FrameStore F V → FrameStore F V
  unfolding put_all commit
  insert batch s =
      let m = put_all index batch s.sequence in
      commit m (Sequence.advance_all push_frame m s.max_seq s.frames) s

module _ {F V : Type 0} where
  -- `dequeue(offset, max, dst)`, which the stream dissector pool reads frames with.
  unfoldable pub waits_for_frames : ℕ → FrameStore F V → Bool
  waits_for_frames offset s = not (s.closed || ltb offset (wrap32 (length s.frames)))

  unfoldable pub dequeue_frames : ℕ → ℕ → FrameStore F V → List F
  dequeue_frames offset max s =
      if s.closed then [] else copy s.frames offset (wrap32 (length s.frames)) max 0

  -- `dequeue(offset, size, dst, id, waitFor)`, which the filter threads read views with.
  unfoldable pub waits_for_views : ℕ → ℕ → FrameStore F V → Bool
  waits_for_views offset id s = not (
      s.closed
      || (not (id == no_thread) && contains id s.closed_threads)
      || ltb offset (wrap32 (length s.views)))

  unfoldable pub dequeue_views : ℕ → ℕ → ℕ → FrameStore F V → Read V × FrameStore F V
  dequeue_views offset size id s =
      if not (id == no_thread) && contains id s.closed_threads
      then (stopped, record s { closed_threads = remove id s.closed_threads })
      else if s.closed
      then (stopped, s)
      else (got (copy s.views offset (wrap32 (length s.views)) size 0), s)

  unfoldable pub get : ℕ → ℕ → FrameStore F V → List V
  get offset length s = slice s.views (range_end offset length - offset) offset

  unfoldable pub dissected_size : FrameStore F V → ℕ
  dissected_size s = length s.views

  unfoldable pub close : ℕ → FrameStore F V → FrameStore F V
  close id s =
      if id == no_thread then record s { closed = true; notifies = s.notifies + 1 } else record s {
        closed_threads =
            (if contains id s.closed_threads then s.closed_threads else id ∷ s.closed_threads);
        notifies = s.notifies + 1;
      }

module _ {F V : Type 0} (new_view : F → V) where
  -- The views of `frames[i]` for `i` from `size` up to `index`; `none` is a read past the end of
  -- `frames`.
  new_views : List F → ℕ → ℕ → Option (List V)
  new_views frames zero i = some []
  new_views frames (suc left) i =
      let rest = new_views frames left (i + 1) in
      elim (get_elem? frames i) [
        | none ↦ none
        | some f ↦ elim rest [ none ↦ none | some vs ↦ some (new_view f ∷ vs) ]
      ]

  -- `views.resize(index)` drops the views past `index`, if there are any.
  unfoldable pub update : ℕ → FrameStore F V → Option (FrameStore F V)
  unfolding new_views
  update index s = elim (new_views s.frames (index - length s.views) (length s.views)) [
    | none ↦ none
    | some vs ↦ some (record s {
      views = take index s.views ++ vs;
      callbacks = s.callbacks + 1;
      notifies = s.notifies + 1;
    })
  ]
