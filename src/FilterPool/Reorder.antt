-- ===== src/FilterPool/Reorder.antt =====
-- The pool after any blocks of results: the reorder buffer of the display filter.
use deplug.Common.{
  ℕ, suc, ◌+◌, ◌^◌, ◌≤◌, ◌<◌, ◌≡◌, refl, sym, ap, ◌∙◌, ◌≢◌, inl, inr, Bool, true, false, Option,
  none, some, List, [], ◌∷◌, arith, ltb, if◌then◌else◌, ltb→lt, Bool-cases,
}
use deplug.Sequence.{Sequence, Advanced, find, advance_all}
use deplug.Sequence.Laws.{Above, find-erase, erase-Above}
use deplug.Sequence.Advance.{advance_all-Stops, advance_all-end, advance_all_inv}
use deplug.FilterPool.{FilterPool, init, keep_match, insert_results, commit, thread_callback}
use deplug.Sequence.Fill.{advance_all_filled, advance_all_gap}
use deplug.FilterPool.Matches.{
  Block, covers, IsBlock, AllBlocks, matches, find-insert_results, insert_results-Above,
}

-- The blocks as they arrived, the last first.
unfoldable pub pool_after : List Block → FilterPool
pool_after [] = init
pool_after ((begin, results) ∷ bs) = thread_callback begin results (pool_after bs)

module _ (passes : ℕ → Bool) where
  -- What the blocks say of the frame `k`.
  abbrev verdict : List Block → ℕ → Option Bool
  verdict bs k = if covers k bs then some (passes k) else none

  -- `frames` against the results that arrived: the matching ones among the longest run of frames
  -- 1, 2, … that all have a result.
  pub record IsFiltered (p : FilterPool) (bs : List Block) : Type 0 where
    pub listed : p.frames ≡ matches passes p.max_seq
    pub filled : (k : ℕ) → 0 < k → k ≤ p.max_seq → covers k bs ≡ true
    pub gap : covers (p.max_seq + 1) bs ≡ false

  pub record Inv (p : FilterPool) (bs : List Block) : Type 0 where
    pub above : Above 1 p.sequence
    pub small : p.max_seq < 2 ^ 32
    pub pending : (k : ℕ) → p.max_seq < k → find k p.sequence ≡ verdict bs k
    pub order : IsFiltered p bs

  matches_step :
      (n : ℕ) → matches passes (n + 1) ≡ keep_match (n + 1) (passes (n + 1)) (matches passes n)
  unfolding matches
  matches_step n = let e : n + 1 ≡ suc n = omega arith in rw (e, matches)

  covers_range : (k : ℕ) (bs : List Block) → AllBlocks passes bs → 2 ^ 32 ≤ k → covers k bs ≡ false
  unfolding covers
  covers_range k [] a big = refl
  covers_range k ((begin, results) ∷ bs) a big = ground (arith, covers_range k bs a.1)

  module _ (p : FilterPool) (bs : List Block) (begin : ℕ) (results : List Bool)
      (block : IsBlock passes begin results) (all : AllBlocks passes bs) (v : Inv p bs) where
    abbrev more : List Block
    more = (begin, results) ∷ bs

    abbrev merged : Sequence Bool
    merged = insert_results begin results p.sequence

    merged-Above : Above 1 merged
    merged-Above = insert_results-Above passes begin results p.sequence v.above block

    merged-verdict : (k : ℕ) → p.max_seq < k → find k merged ≡ verdict more k
    unfolding covers
    merged-verdict k past = ground (
      arith,
      find-insert_results passes k begin results p.sequence v.above block,
      v.pending k past,
    )

    old_verdict : (k : ℕ) → 0 < k → k ≤ p.max_seq → verdict more k ≢ none
    unfolding covers
    old_verdict k lo hi = ground (arith, v.order.filled k lo hi)

    abbrev moved : Advanced ℕ
    moved = advance_all keep_match merged p.max_seq p.frames

    abbrev IsListed : ℕ → List ℕ → Type 0
    IsListed n out = (p.max_seq ≤ n) × (out ≡ matches passes n)

    keep-IsListed :
        (n : ℕ) (match : Bool) (out : List ℕ)
        → find (n + 1) merged ≡ some match
        → IsListed n out
        → IsListed (n + 1) (keep_match (n + 1) match out)
    keep-IsListed n match out e (grown, listed) =
        let said : match ≡ passes (n + 1) = ground (arith, merged-verdict (n + 1) (omega arith)) in
        (omega arith, rw (said, listed) (sym (matches_step n)))

    moved-IsListed : IsListed moved.max_seq moved.out
    moved-IsListed =
        advance_all_inv keep_match merged merged-Above p.max_seq v.small p.frames IsListed
          keep-IsListed (omega arith, v.order.listed)

    covered : (k : ℕ) → verdict more k ≢ none → covers k more ≡ true
    covered k h = ground arith

    uncovered : (k : ℕ) → verdict more k ≡ none → covers k more ≡ false
    uncovered k h = ground arith

    moved-Inv :
        (t : FilterPool)
        → t.frames ≡ moved.out
        → t.max_seq ≡ moved.max_seq
        → Above 1 t.sequence
        → ((k : ℕ) → moved.max_seq < k → find k t.sequence ≡ find k merged)
        → Inv t more
    moved-Inv t frames max_seq above same =
        let stop = advance_all-Stops keep_match merged merged-Above p.max_seq v.small p.frames in
        record {
          above = above;
          small = rw max_seq stop.bounded;
          pending = λ k past.
              same k (rw max_seq at past) ∙ merged-verdict k (omega (arith, max_seq, stop.grown));
          order = record {
            listed = frames ∙ moved-IsListed.1 ∙ ap (matches passes) (sym max_seq);
            filled = λ k lo hi. covered k (
                advance_all_filled keep_match (verdict more) merged merged-Above p.max_seq v.small
                  p.frames merged-verdict old_verdict k lo (rw max_seq at hi));
            gap = rw max_seq (
                uncovered (moved.max_seq + 1) (
                  advance_all_gap keep_match (verdict more) merged merged-Above p.max_seq v.small
                    p.frames merged-verdict out_of_range));
          };
        }
      where
        out_of_range : (k : ℕ) → 2 ^ 32 ≤ k → verdict more k ≡ none
        out_of_range k big = rw (covers_range k more (block, all) big)

    commit-Inv : Inv (commit merged moved p) more
    unfolding commit
    commit-Inv = elim (Bool-cases (ltb p.max_seq moved.max_seq)) [
      | inl grew ↦
          let end =
            advance_all-end keep_match merged merged-Above p.max_seq v.small p.frames
              (ltb→lt p.max_seq moved.max_seq grew) in
          rw (grew, commit, end)
            (moved-Inv _ refl refl (erase-Above moved.max_seq 1 merged merged-Above)
              (λ k past. ground (arith, find-erase moved.max_seq k 1 merged merged-Above)))
      | inr not_grown ↦
          let stop = advance_all-Stops keep_match merged merged-Above p.max_seq v.small p.frames in
          rw (not_grown, commit)
            (moved-Inv _ refl (ground (arith, stop.grown)) merged-Above (λ k past. refl))
    ]

  init-Inv : Inv init []
  unfolding init find covers matches
  init-Inv = record {
    above = tt;
    small = omega arith;
    pending = λ k past. refl;
    order = record { listed = refl; filled = λ k lo hi. absurd (omega arith); gap = refl };
  }

  pool_after-Inv : (bs : List Block) → AllBlocks passes bs → Inv (pool_after bs) bs
  unfolding pool_after thread_callback
  pool_after-Inv [] a = init-Inv
  pool_after-Inv ((begin, results) ∷ bs) a =
      commit-Inv (pool_after bs) bs begin results a.0 a.1 (pool_after-Inv bs a.1)

  -- After blocks of true results in any order, overlapping or repeated as they are with several
  -- filter threads, `frames` lists the passing frames among 1, …, `maxSeq`, ascending and each
  -- once; every frame up to `maxSeq` has a result, and the frame after it has none.
  pub pool_after-IsFiltered :
      (bs : List Block) → AllBlocks passes bs → IsFiltered (pool_after bs) bs
  pool_after-IsFiltered bs a = (pool_after-Inv bs a).order
