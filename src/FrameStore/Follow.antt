-- ===== src/FrameStore/Follow.antt =====
-- The reader of the stream dissector pool beside the writers: it asks from `offset` on, and adds the
-- number of frames it got to `offset` (stream_dissector_thread_pool.cpp, the loop of `start`).
use deplug.Common.{
  ℕ, zero, suc, ◌+◌, ◌^◌, ◌≤◌, ◌<◌, max, ◌≡◌, refl, sym, ap, ◌∙◌, inl, inr, Bool, true, false, some,
  List, [], ◌∷◌, ◌++◌, append-nil, append_assoc, arith, if◌then◌else◌, Option-cases, length, take,
  drop, length-append, length-take, length-drop,
}
use deplug.Sequence.{Sequence, Advanced, find, next, advance, advance_all}
use deplug.FrameStore.{FrameStore, insert, put_all, push_frame, dequeue_frames, waits_for_frames}
use deplug.FrameStore.Readers.{dequeue_frames_lem}

module _ {F : Type 0} where
  advance-extends :
      (fuel : ℕ) (m : Sequence F) (a : Advanced F)
      → (zs : List F) × ((advance push_frame fuel m a).out ≡ a.out ++ zs)
  unfolding advance
  advance-extends zero m a = ([], sym (append-nil a.out))
  advance-extends (suc fuel) m a = elim (Option-cases (find (next a.max_seq) m)) [
    | inl e ↦ ([], rw (e, advance) (sym (append-nil a.out)))
    | inr (v, e) ↦
        let b : Advanced F = record {
          max_seq = next a.max_seq;
          end = some (next a.max_seq);
          out = a.out ++ v ∷ [];
        } in
        let (zs, more) = advance-extends fuel m b in
        (v ∷ zs, rw (e, advance) (more ∙ append_assoc a.out (v ∷ []) zs))
  ]

  advance_all-extends :
      (m : Sequence F) (from : ℕ) (out : List F)
      → (zs : List F) × ((advance_all push_frame m from out).out ≡ out ++ zs)
  unfolding advance_all
  advance_all-extends m from out = advance-extends (length m + 1) m _

  prefix_take :
      (seen xs zs : List F) → seen ≡ take (length seen) xs → seen ≡ take (length seen) (xs ++ zs)
  prefix_take [] xs zs e = refl
  prefix_take (x ∷ seen) [] zs e = absurd (cc)
  prefix_take (x ∷ seen) (y ∷ xs) zs e = cc (prefix_take seen xs zs (cc))

  take-length-take : (n : ℕ) (xs : List F) → take n xs ≡ take (length (take n xs)) xs
  take-length-take zero xs = refl
  take-length-take (suc n) [] = refl
  take-length-take (suc n) (x ∷ xs) = ap (◌∷◌ x) (take-length-take n xs)

  prefix_read :
      (seen xs : List F) (n : ℕ)
      → seen ≡ take (length seen) xs
      → let now = seen ++ take n (drop (length seen) xs) in now ≡ take (length now) xs
  prefix_read [] xs n e = take-length-take n xs
  prefix_read (x ∷ seen) [] n e = absurd (cc)
  prefix_read (x ∷ seen) (y ∷ xs) n e = cc (prefix_read seen xs n (cc))

  prefix_reply :
      (seen xs got : List F) (n : ℕ) (closed : Bool)
      → seen ≡ take (length seen) xs
      → got ≡ (if closed then [] else take n (drop (length seen) xs))
      → seen ++ got ≡ take (length (seen ++ got)) xs
  prefix_reply seen xs got n true e g = rw (g, append-nil seen) e
  prefix_reply seen xs got n false e g = rw g (prefix_read seen xs n e)

-- A batch from a dissector thread, or one read of at most so many frames.
pub data Event (F : Type 0) : Type 0 where
  writes : List F → Event F
  reads : ℕ → Event F

-- The store, and the frames that the reader has got, whose number is its `offset`.
pub record Reader (F V : Type 0) : Type 0 where
  pub store : FrameStore F V
  pub seen : List F

module _ {F V : Type 0} (index : F → ℕ) where
  -- No call of `insert` takes a frame away or changes the place of one.
  insert-extends :
      (b : List F) (s : FrameStore F V)
      → (zs : List F) × ((insert index b s).frames ≡ s.frames ++ zs)
  unfolding insert
  insert-extends b s =
      let (zs, e) = advance_all-extends (put_all index b s.sequence) s.max_seq s.frames in
      (zs, ground (arith, e))

  unfoldable pub follow : List (Event F) → Reader F V → Reader F V
  follow [] w = w
  follow (writes b ∷ es) w = follow es (record w { store = insert index b w.store })
  follow (reads max ∷ es) w =
      follow es (record w { seen = w.seen ++ dequeue_frames (length w.seen) max w.store })

  abbrev pub IsPrefix : Reader F V → Type 0
  IsPrefix w = w.seen ≡ take (length w.seen) w.store.frames

  follow-length :
      (es : List (Event F)) (w : Reader F V)
      → length w.store.frames ≤ length (follow es w).store.frames
  unfolding follow
  follow-length [] w = omega arith
  follow-length (writes b ∷ es) w =
      let (zs, e) = insert-extends b w.store in
      omega (
        arith,
        follow-length es (record w { store = insert index b w.store }),
        ap length e,
        length-append w.store.frames zs,
      )
  follow-length (reads max ∷ es) w = follow-length es _

  -- Whatever batches arrive between its reads, the reader has got a prefix of `frames`: every frame
  -- up to its offset once, in order, and none that is not in the store.
  pub follow-IsPrefix :
      (es : List (Event F)) (w : Reader F V)
      → length (follow es w).store.frames < 2 ^ 32
      → IsPrefix w
      → IsPrefix (follow es w)
  unfolding follow
  follow-IsPrefix [] w small p = p
  follow-IsPrefix (writes b ∷ es) w small p =
      let (zs, e) = insert-extends b w.store in
      follow-IsPrefix es (record w { store = insert index b w.store }) small
        (rw e (prefix_take w.seen w.store.frames zs p))
  follow-IsPrefix (reads max ∷ es) w small p =
      let after = record w { seen = w.seen ++ dequeue_frames (length w.seen) max w.store } in
      follow-IsPrefix es after small (
        prefix_reply w.seen w.store.frames _ max w.store.closed p
          (dequeue_frames_lem (length w.seen) max w.store (omega (arith, follow-length es after))))

module _ {F V : Type 0} where
  -- A reader that is not kept waiting by an open store and asks for a frame gets one.
  pub dequeue_frames-progress :
      (offset max : ℕ) (s : FrameStore F V)
      → waits_for_frames offset s ≡ false
      → s.closed ≡ false
      → length s.frames < 2 ^ 32
      → 0 < max
      → 0 < length (dequeue_frames offset max s)
  unfolding waits_for_frames
  dequeue_frames-progress offset max s w o small some_room =
      rw (dequeue_frames_lem offset max s small, o)
        (omega (arith, length-take max (drop offset s.frames), length-drop offset s.frames, ready))
    where
      ready : offset < length s.frames
      ready = ground arith
