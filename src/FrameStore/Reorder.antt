-- ===== src/FrameStore/Reorder.antt =====
-- The store as a reorder buffer: what `insert` makes of frames that arrive out of order.
use deplug.Common.{
  ℕ, ◌+◌, ◌^◌, ◌≤◌, ◌<◌, ◌≡◌, refl, sym, ap, ◌∙◌, ◌≢◌, inl, inr, Option, none, some, List, [], ◌++◌,
  arith, ltb, ltb→lt, Bool-cases,
}
use deplug.Sequence.{Sequence, Advanced, find, advance_all}
use deplug.Sequence.Laws.{Above, find-erase, erase-Above}
use deplug.Sequence.Advance.{Stops, advance_all-Stops, advance_all-end, advance_all_inv}
use deplug.FrameStore.{FrameStore, init, insert, put_all, commit, push_frame}
use deplug.Sequence.Fill.{advance_all_filled, advance_all_gap}
use deplug.Sequence.Listing.{listing, listing_step, listing_congr}
use deplug.FrameStore.History.{
  find_index, Distinct, find_index-append, find_index_apart, Distinct-right, find_index_range,
  find-put_all, put_all-Above,
}

module _ {F V : Type 0} (index : F → ℕ) where
  -- `frames` against the arrivals: the longest run of indices 1, 2, … that are all there, in order.
  pub record IsOrdered (s : FrameStore F V) (h : List F) : Type 0 where
    pub listed : s.frames ≡ listing (λ k. find_index index k h) s.max_seq
    pub filled : (k : ℕ) → 0 < k → k ≤ s.max_seq → find_index index k h ≢ none
    pub gap : find_index index (s.max_seq + 1) h ≡ none

  pub record Inv (s : FrameStore F V) (h : List F) : Type 0 where
    pub above : Above 1 s.sequence
    pub small : s.max_seq < 2 ^ 32
    pub pending : (k : ℕ) → s.max_seq < k → find k s.sequence ≡ find_index index k h
    pub order : IsOrdered s h

  module _ (s : FrameStore F V) (h b : List F) (d : Distinct index (h ++ b)) (v : Inv s h) where
    abbrev later : ℕ → Option F
    later k = find_index index k (h ++ b)

    -- The sequence with the batch in it.
    abbrev merged : Sequence F
    merged = put_all index b s.sequence

    merged-later : (k : ℕ) → s.max_seq < k → find k merged ≡ later k
    merged-later k past = ground (
      arith,
      find-put_all index k b s.sequence (Distinct-right index h b d),
      find_index-append index k h b,
      v.pending k past,
      find_index_apart index k h b d,
    )

    later_old : (k : ℕ) → 0 < k → k ≤ s.max_seq → later k ≡ find_index index k h
    later_old k lo hi = ground (arith, find_index-append index k h b, v.order.filled k lo hi)

    abbrev moved : Advanced F
    moved = advance_all push_frame merged s.max_seq s.frames

    merged-Above : Above 1 merged
    merged-Above = put_all-Above index b s.sequence (Distinct-right index h b d) v.above

    moved-Stops : Stops merged s.max_seq moved.max_seq
    moved-Stops = advance_all-Stops push_frame merged merged-Above s.max_seq v.small s.frames

    abbrev IsListed : ℕ → List F → Type 0
    IsListed n out = (s.max_seq ≤ n) × (out ≡ listing later n)

    push-IsListed :
        (n : ℕ) (f : F) (out : List F)
        → find (n + 1) merged ≡ some f
        → IsListed n out
        → IsListed (n + 1) (push_frame (n + 1) f out)
    push-IsListed n f out e (grown, listed) = (
      omega arith,
      rw listed (sym (listing_step later n f (sym (merged-later (n + 1) (omega arith)) ∙ e))),
    )

    moved-IsListed : IsListed moved.max_seq moved.out
    moved-IsListed =
        advance_all_inv push_frame merged merged-Above s.max_seq v.small s.frames IsListed
          push-IsListed
          (
            omega arith,
            v.order.listed ∙ listing_congr _ later s.max_seq (λ k lo hi. sym (later_old k lo hi)),
          )

    later_filled : (k : ℕ) → 0 < k → k ≤ s.max_seq → later k ≢ none
    later_filled k lo hi = rw (later_old k lo hi) (v.order.filled k lo hi)

    moved_filled : (k : ℕ) → 0 < k → k ≤ moved.max_seq → later k ≢ none
    moved_filled =
        advance_all_filled push_frame later merged merged-Above s.max_seq v.small s.frames
          merged-later later_filled

    moved_gap : later (moved.max_seq + 1) ≡ none
    moved_gap =
        advance_all_gap push_frame later merged merged-Above s.max_seq v.small s.frames merged-later
          (λ k big. find_index_range index k (h ++ b) d big)

    moved-Inv :
        (t : FrameStore F V)
        → t.frames ≡ moved.out
        → t.max_seq ≡ moved.max_seq
        → Above 1 t.sequence
        → ((k : ℕ) → moved.max_seq < k → find k t.sequence ≡ find k merged)
        → Inv t (h ++ b)
    moved-Inv t frames max_seq above same =
        let stop = moved-Stops in
        record {
          above = above;
          small = rw max_seq stop.bounded;
          pending = λ k past.
              same k (rw max_seq at past) ∙ merged-later k (omega (arith, max_seq, stop.grown));
          order = record {
            listed = frames ∙ moved-IsListed.1 ∙ ap (listing later) (sym max_seq);
            filled = λ k lo hi. moved_filled k lo (rw max_seq at hi);
            gap = rw max_seq moved_gap;
          };
        }

    commit-Inv : Inv (commit index merged moved s) (h ++ b)
    unfolding commit
    commit-Inv = elim (Bool-cases (ltb s.max_seq moved.max_seq)) [
      | inl grew ↦
          let end =
            advance_all-end push_frame merged merged-Above s.max_seq v.small s.frames
              (ltb→lt s.max_seq moved.max_seq grew) in
          rw (grew, commit, end)
            (moved-Inv _ refl refl (erase-Above moved.max_seq 1 merged merged-Above)
              (λ k past. ground (arith, find-erase moved.max_seq k 1 merged merged-Above)))
      | inr not_grown ↦
          let stop = moved-Stops in
          rw (not_grown, commit)
            (moved-Inv _ refl (ground (arith, stop.grown)) merged-Above (λ k past. refl))
    ]

  -- A batch keeps the store in order, if it brings new indices.
  pub insert-Inv :
      (s : FrameStore F V) (h b : List F)
      → Distinct index (h ++ b)
      → Inv s h
      → Inv (insert index b s) (h ++ b)
  unfolding insert
  insert-Inv s h b d v = commit-Inv s h b d v

  pub init-Inv : Inv init []
  unfolding init find find_index listing
  init-Inv = record {
    above = tt;
    small = omega arith;
    pending = λ k past. refl;
    order = record { listed = refl; filled = λ k lo hi. absurd (omega arith); gap = refl };
  }
