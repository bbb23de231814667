-- ===== src/FrameStore/Arrivals.antt =====
-- The store after a sequence of batches, against the set of the frames that arrived.
use deplug.Common.{
  ℕ, ◌+◌, ◌≤◌, ◌≡◌, sym, ap, ◌∙◌, List, [], ◌∷◌, ◌++◌, append-nil, append_assoc, arith,
}
use native.Mathlib.Decide.{dec_lt}
use mathlib.Core.List.{flatten}
use deplug.FrameStore.{FrameStore, init, insert}
use deplug.Sequence.Listing.{listing, listing_congr}
use deplug.FrameStore.History.{find_index, Distinct, Distinct-left}
use deplug.FrameStore.Reorder.{IsOrdered, Inv, insert-Inv, init-Inv}

module _ {F V : Type 0} (index : F → ℕ) where
  -- One call of `insert` for each batch, in this order.
  unfoldable pub insert_all : List (List F) → FrameStore F V → FrameStore F V
  insert_all [] s = s
  insert_all (b ∷ bs) s = insert_all bs (insert index b s)

  insert_all-Inv :
      (bs : List (List F)) (s : FrameStore F V) (h : List F)
      → Distinct index (h ++ flatten bs)
      → Inv index s h
      → Inv index (insert_all bs s) (h ++ flatten bs)
  unfolding insert_all flatten
  insert_all-Inv [] s h d v = rw append-nil v
  insert_all-Inv (b ∷ bs) s h d v =
      let d' : Distinct index ((h ++ b) ++ flatten bs) = rw (append_assoc h b (flatten bs)) d in
      rw (← append_assoc h b (flatten bs)) (
        insert_all-Inv bs (insert index b s) (h ++ b) d'
          (insert-Inv index s h b (Distinct-left index (h ++ b) (flatten bs) d') v))

module _ {F : Type 0} (V : Type 0) (index : F → ℕ) where
  abbrev pub after : List (List F) → FrameStore F V
  after bs = insert_all index bs init

  -- After any calls of `insert` on a new store, whatever the batches and the order of arrival,
  -- provided that the indices run from 1, fit a `uint32_t` and are distinct: `frames` holds the
  -- frames with the indices 1, 2, …, `maxSeq` in this order, each of which has arrived, and the
  -- frame `maxSeq + 1` has not.
  pub insert_all-IsOrdered :
      (bs : List (List F)) → Distinct index (flatten bs) → IsOrdered index (after bs) (flatten bs)
  insert_all-IsOrdered bs d = (insert_all-Inv index bs init [] d (init-Inv index)).order

  max_seq-le :
      (s t : FrameStore F V) (h g : List F)
      → IsOrdered index s h
      → IsOrdered index t g
      → ((k : ℕ) → find_index index k h ≡ find_index index k g)
      → s.max_seq ≤ t.max_seq
  max_seq-le s t h g v w same = elim (dec_lt t.max_seq s.max_seq) [
    | yes beyond ↦
        absurd (v.filled (t.max_seq + 1) (omega arith) (omega arith) (same (t.max_seq + 1) ∙ w.gap))
    | no within ↦ omega arith
  ]

  -- Two schedules that bring the same frames leave the same `frames` and `maxSeq`, in whatever
  -- batches and order the dissector threads deliver them.
  pub insert_all-order_irrelevant :
      (bs cs : List (List F))
      → Distinct index (flatten bs)
      → Distinct index (flatten cs)
      → ((k : ℕ) → find_index index k (flatten bs) ≡ find_index index k (flatten cs))
      → ((after bs).frames ≡ (after cs).frames) × ((after bs).max_seq ≡ (after cs).max_seq)
  insert_all-order_irrelevant bs cs d e same =
      let s = after bs in
      let t = after cs in
      let v = insert_all-IsOrdered bs d in
      let w = insert_all-IsOrdered cs e in
      let n : s.max_seq ≡ t.max_seq =
        omega (arith, max_seq-le s t _ _ v w same, max_seq-le t s _ _ w v (λ k. sym (same k))) in
      (
        v.listed
            ∙ listing_congr _ _ s.max_seq (λ k lo hi. same k)
            ∙ ap (listing (λ k. find_index index k (flatten cs))) n
            ∙ sym w.listed,
        n,
      )
