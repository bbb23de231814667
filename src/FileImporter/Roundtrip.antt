-- ===== src/FileImporter/Roundtrip.antt =====
-- Frames that were imported and are exported again.
use deplug.Common.{
  ℕ, zero, suc, ◌+◌, ◌*◌, ◌/◌, ◌%◌, ◌^◌, ◌<◌, ◌≡◌, refl, ap, ◌∙◌, true, ltb, some, List, [], ◌∷◌,
  ◌++◌, arith, length, get_elem?, get_elem?-append_left, get_elem?-append_end, some_eq,
}
use deplug.Layer.Heap.{get_elem?-lt}
use deplug.Layer.{
  Layer, new_layer, new_payload, add_tag, add_slice, add_payload, set_frame, set_parent,
}
use deplug.FileImporter.{
  RawFrame, Frame, Heap, timestamp_of, seconds_of, nanoseconds_of, find, tag_of, create_frame,
  api_callback, first_slice, create_raw_frame,
}

pub stays {ℓ} :
    {A : Type ℓ} (xs ys : List A) (i : ℕ) (x : A)
    → get_elem? xs i ≡ some x
    → get_elem? (xs ++ ys) i ≡ some x
stays xs ys i x h = get_elem?-append_left xs ys i (get_elem?-lt xs i x h) ∙ h

seconds_of-timestamp :
    (sec nsec : ℕ)
    → nsec < 1000000000
    → sec * 1000000000 + nsec < 2 ^ 63
    → seconds_of (timestamp_of sec nsec) ≡ sec
unfolding seconds_of timestamp_of
seconds_of-timestamp sec nsec nano soon =
    let same : (sec * 1000000000 + nsec) % 2 ^ 64 ≡ sec * 1000000000 + nsec = omega arith in
    let fits : ltb (sec * 1000000000 + nsec) (2 ^ 63) ≡ true = ground arith in
    let back : (sec * 1000000000 + nsec) / 1000000000 ≡ sec = omega arith in rw (same, fits) back

nanoseconds_of-timestamp :
    (sec nsec : ℕ)
    → nsec < 1000000000
    → sec * 1000000000 + nsec < 2 ^ 63
    → nanoseconds_of (timestamp_of sec nsec) ≡ nsec
unfolding nanoseconds_of timestamp_of
nanoseconds_of-timestamp sec nsec nano soon =
    let same : (sec * 1000000000 + nsec) % 2 ^ 64 ≡ sec * 1000000000 + nsec = omega arith in
    let fits : ltb (sec * 1000000000 + nsec) (2 ^ 63) ≡ true = ground arith in
    let back : (sec * 1000000000 + nsec) % 1000000000 ≡ nsec = omega arith in rw (same, fits) back

module _ {D P : Type 0} where
  -- What is in the heap stays there.
  abbrev IsKept : Heap D P → Heap D P → Type 0
  IsKept h k =
      ((i : ℕ) (f : Frame) → get_elem? h.frames i ≡ some f → get_elem? k.frames i ≡ some f)
      × ((i : ℕ) (l : Layer D P ℕ) → get_elem? h.layers i ≡ some l → get_elem? k.layers i ≡ some l)

  module _ (tag : ℕ) (raw : RawFrame) (h : Heap D P) where
    abbrev made : ℕ × Heap D P
    made = create_frame tag raw h

    create_frame-IsKept : IsKept h made.1
    unfolding create_frame
    create_frame-IsKept = (λ i f e. stays h.frames _ i f e, λ i l e. stays h.layers _ i l e)

    -- The frame that was made, in any heap that kept it.
    created :
        (ex : List (ℕ × ℕ)) (k : Heap D P)
        → IsKept made.1 k
        → raw.ts_nsec < 1000000000
        → raw.ts_sec * 1000000000 + raw.ts_nsec < 2 ^ 63
        → raw.actual_length < 2 ^ 32
        → find tag ex ≡ some raw.link
        → create_raw_frame ex k made.0 ≡ some (record raw { root = some (length h.layers) })
    unfolding create_frame create_raw_frame first_slice new_layer new_payload add_tag add_slice
        add_payload set_frame set_parent
    created ex k (frames, layers) nano soon short known =
        let f =
          frames (length h.frames) _ (get_elem?-append_end h.frames _ (length h.frames) refl) in
        let l =
          layers (length h.layers) _ (get_elem?-append_end h.layers _ (length h.layers) refl) in
        let sec = seconds_of-timestamp raw.ts_sec raw.ts_nsec nano soon in
        let rest = nanoseconds_of-timestamp raw.ts_sec raw.ts_nsec nano soon in
        let size : raw.actual_length % 2 ^ 32 ≡ raw.actual_length = omega arith in
        rw (create_raw_frame, f, l, known, sec, rest, size)

module _ {D P : Type 0} (link_token : ℕ → ℕ) (im : List (ℕ × ℕ)) where
  api_callback-IsKept :
      (raws : List RawFrame) (h : Heap D P) → IsKept h (api_callback link_token im raws h).1
  unfolding api_callback
  api_callback-IsKept [] h = (λ i f e. e, λ i l e. e)
  api_callback-IsKept (raw ∷ raws) h =
      let tag = tag_of link_token im raw.link in
      let first = create_frame-IsKept tag raw h in
      let rest = api_callback-IsKept raws (create_frame tag raw h).1 in
      (λ i f e. rest.0 i f (first.0 i f e), λ i l e. rest.1 i l (first.1 i l e))

  -- A frame that an importer reads is exported as it was read, with the root layer that it got: its
  -- bytes, its lengths, its time and its link, whichever frames are read before and after it in the
  -- block; if its nanoseconds are less than a second, its time is not before the epoch and its
  -- nanoseconds since then fit in an `int64_t`, its actual length is a `uint32_t`, and the
  -- exporter knows the token of its link by that link.
  pub api_callback-create_raw_frame :
      (ex : List (ℕ × ℕ)) (raws : List RawFrame) (h : Heap D P) (i : ℕ) (raw : RawFrame)
      → get_elem? raws i ≡ some raw
      → raw.ts_nsec < 1000000000
      → raw.ts_sec * 1000000000 + raw.ts_nsec < 2 ^ 63
      → raw.actual_length < 2 ^ 32
      → find (tag_of link_token im raw.link) ex ≡ some raw.link
      → (frame root : ℕ) × (get_elem? (api_callback link_token im raws h).0 i ≡ some frame)
        × (create_raw_frame ex (api_callback link_token im raws h).1 frame
            ≡ some (record raw { root = some root }))
  unfolding api_callback
  api_callback-create_raw_frame ex [] h i raw at nano soon short known = absurd (cc)
  api_callback-create_raw_frame ex (r ∷ raws) h zero raw at nano soon short known =
      let same : r ≡ raw = some_eq at in
      let tag = tag_of link_token im r.link in
      let made = create_frame tag r h in
      let out =
        created tag r h ex (api_callback link_token im raws made.1).1
          (api_callback-IsKept raws made.1) (rw same nano) (rw same soon) (rw same short)
          (rw same known) in
      (
        made.0,
        length h.layers,
        refl,
        out ∙ ap (λ (r : RawFrame). some (record r { root = some (length h.layers) })) same,
      )
  api_callback-create_raw_frame ex (r ∷ raws) h (suc i) raw at nano soon short known =
      api_callback-create_raw_frame ex raws (create_frame (tag_of link_token im r.link) r h).1 i raw
        at nano soon short known
