-- ===== src/FrameStore/Views.antt =====
-- `update`: the views against the frames.
use deplug.Common.{
  ℕ, zero, suc, ◌+◌, ◌-◌, ◌≤◌, ◌<◌, ◌≡◌, refl, sym, ap, ◌∙◌, none, some, List, [], ◌++◌, map, arith,
  length, take, drop, length-append, length-take, get_elem?_of_ge, get_elem?_of_lt,
  drop_of_get_elem?,
}
use mathlib.Core.List.{map-append}
use deplug.FrameStore.{FrameStore, update, new_views, dissected_size}
use deplug.Common.{take-take-drop, take-map, length-map}

module _ {F V : Type 0} (new_view : F → V) where
  new_views-map :
      (frames : List F) (left i : ℕ)
      → i + left ≤ length frames
      → new_views new_view frames left i ≡ some (map new_view (take left (drop i frames)))
  unfolding new_views
  new_views-map frames zero i h = refl
  new_views-map frames (suc left) i h =
      let (f, e) = get_elem?_of_lt frames i (omega arith) in
      let shift : suc i ≡ i + 1 = omega arith in
      ground (
        arith,
        e,
        new_views-map frames left (i + 1) (omega arith),
        drop_of_get_elem? frames i f e,
        ap (λ k. take left (drop k frames)) shift,
      )

  new_views_past :
      (frames : List F) (left i : ℕ)
      → length frames < i + left
      → 0 < left
      → new_views new_view frames left i ≡ none
  unfolding new_views
  new_views_past frames zero i h p = absurd (omega arith)
  new_views_past frames (suc left) i h p =
      ground (arith, new_views_past frames left (i + 1), get_elem?_of_ge frames i)

  made_all :
      (index : ℕ) (s : FrameStore F V)
      → index ≤ length s.frames
      → length s.views ≤ length s.frames
      → new_views new_view s.frames (index - length s.views) (length s.views)
        ≡ some (map new_view (take (index - length s.views) (drop (length s.views) s.frames)))
  made_all index s fits old =
      new_views-map s.frames (index - length s.views) (length s.views) (omega arith)

  resized :
      (index : ℕ) (s : FrameStore F V)
      → s.views ≡ map new_view (take (length s.views) s.frames)
      → take index s.views
          ++ map new_view (take (index - length s.views) (drop (length s.views) s.frames))
        ≡ map new_view (take index s.frames)
  resized index s views =
      let n = length s.views in
      let kept : take index s.views ≡ map new_view (take index (take n s.frames)) =
        ap (take index) views ∙ take-map new_view index (take n s.frames) in
      ap (λ t. t ++ map new_view (take (index - n) (drop n s.frames))) kept
      ∙ sym (map-append new_view _ _)
      ∙ ap (map new_view) (take-take-drop index n s.frames)

  -- `update(index)` with at most as many frames as are there: every one of the first `index`
  -- frames has its view, and there is no other view, whatever the number of views before; so a
  -- smaller `index` takes views away. Nothing but the views and the two counters changes, and these by one each.
  pub update-views :
      (index : ℕ) (s : FrameStore F V)
      → index ≤ length s.frames
      → length s.views ≤ length s.frames
      → s.views ≡ map new_view (take (length s.views) s.frames)
      → (t : FrameStore F V) × (update new_view index s ≡ some t)
        × (t ≡ record s {
          views = map new_view (take index s.frames);
          callbacks = s.callbacks + 1;
          notifies = s.notifies + 1;
        })
        × (dissected_size t ≡ index)
  unfolding update dissected_size
  update-views index s fits old views =
      let n = length s.views in
      let extra = map new_view (take (index - n) (drop n s.frames)) in
      let made : new_views new_view s.frames (index - n) n ≡ some extra =
        made_all index s fits old in
      let whole : take index s.views ++ extra ≡ map new_view (take index s.frames) =
        resized index s views in
      (
        record s {
          views = take index s.views ++ extra;
          callbacks = s.callbacks + 1;
          notifies = s.notifies + 1;
        },
        rw (made, update),
        ap
            (λ (vs : List V). record s {
              views = vs;
              callbacks = s.callbacks + 1;
              notifies = s.notifies + 1;
            })
            whole,
        omega (
          arith,
          ap length whole,
          length-map new_view (take index s.frames),
          length-take index s.frames,
        ),
      )

  -- An `index` past the frames, and past the views, reads past the end of `frames`.
  pub update_past :
      (index : ℕ) (s : FrameStore F V)
      → length s.frames < index
      → length s.views < index
      → update new_view index s ≡ none
  unfolding update
  update_past index s past more = ground (
    arith,
    new_views_past s.frames (index - length s.views) (length s.views) (omega arith) (omega arith),
  )

  -- An `index` below the number of views takes views away.
  pub update_back :
      (index : ℕ) (s : FrameStore F V)
      → index < length s.views
      → (t : FrameStore F V) × (update new_view index s ≡ some t) × (dissected_size t ≡ index)
  unfolding update new_views dissected_size
  update_back index s back =
      let e : index - length s.views ≡ 0 = omega arith in
      (
        record s {
          views = take index s.views ++ [];
          callbacks = s.callbacks + 1;
          notifies = s.notifies + 1;
        },
        rw (e, update, new_views),
        omega (arith, length-append (take index s.views) [], length-take index s.views),
      )
