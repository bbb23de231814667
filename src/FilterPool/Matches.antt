-- ===== src/FilterPool/Matches.antt =====
-- The pool against the verdicts that arrived.
use deplug.Common.{
  ℕ, zero, suc, ◌+◌, ◌^◌, ◌≤◌, ◌≡◌, refl, ap, ◌∙◌, Bool, false, ◌&&◌, ◌||◌, Option, none, some,
  List, [], ◌∷◌, ◌++◌, arith, ltb, leb, ◌==◌, if◌then◌else◌, length,
}
use deplug.Sequence.{Sequence, next, find, insert}
use deplug.Sequence.Laws.{Above, find-insert, insert-Above}
use deplug.FilterPool.{insert_results}

-- The results of one call: `results` for the frames `begin`, `begin + 1`, ….
abbrev pub Block : Type 0
Block = ℕ × List Bool

abbrev pub inside : ℕ → ℕ → List Bool → Bool
inside k begin results = leb begin k && ltb k (begin + length results)

-- Some block has a result for the frame `k`.
unfoldable pub covers : ℕ → List Block → Bool
covers k [] = false
covers k ((begin, results) ∷ bs) = inside k begin results || covers k bs

module _ (passes : ℕ → Bool) where
  -- The verdicts of a filter whose answer depends on the frame alone.
  abbrev pub IsVerdict : ℕ → List Bool → Type 0
  IsVerdict begin [] = Unit {0}
  IsVerdict begin (match ∷ results) = (match ≡ passes begin) × IsVerdict (begin + 1) results

  abbrev pub IsBlock : ℕ → List Bool → Type 0
  IsBlock begin results = (1 ≤ begin) × (begin + length results ≤ 2 ^ 32) × IsVerdict begin results

  abbrev pub AllBlocks : List Block → Type 0
  AllBlocks [] = Unit {0}
  AllBlocks ((begin, results) ∷ bs) = IsBlock begin results × AllBlocks bs

  -- The indices up to `n` that pass, in ascending order.
  unfoldable pub matches : ℕ → List ℕ
  matches zero = []
  matches (suc n) = if passes (suc n) then matches n ++ suc n ∷ [] else matches n

  -- What the map holds for `k` after the loop over a block, if it held `old`.
  abbrev pub settle : ℕ → Bool → Option Bool → Option Bool
  settle k hit old = if hit then (elim old [ none ↦ some (passes k) | some v ↦ some v ]) else old

  settle_step :
      (k begin : ℕ) (match : Bool) (results : List Bool) (old : Option Bool)
      → match ≡ passes begin
      → settle k
          (inside k (begin + 1) results)
          (if begin == k then elim old [ none ↦ some match | some v ↦ some v ] else old)
        ≡ settle k (inside k begin (match ∷ results)) old
  settle_step k begin match results none e = ground arith
  settle_step k begin match results (some v) e = ground arith

  -- `begin++` does not wrap inside a block.
  insert_results-next :
      (begin : ℕ) (results : List Bool) (m : Sequence Bool)
      → begin + suc (length results) ≤ 2 ^ 32
      → insert_results (next begin) results m ≡ insert_results (begin + 1) results m
  unfolding insert_results
  insert_results-next begin [] m h = refl
  insert_results-next begin (r ∷ results) m h =
      let e : next begin ≡ begin + 1 = omega arith in
      ap (λ b. insert_results (next b) results (insert b r m)) e

  pub find-insert_results :
      (k begin : ℕ) (results : List Bool) (m : Sequence Bool)
      → Above 1 m
      → IsBlock begin results
      → find k (insert_results begin results m) ≡ settle k (inside k begin results) (find k m)
  unfolding insert_results
  find-insert_results k begin [] m a b = let e : inside k begin [] ≡ false = ground arith in rw e
  find-insert_results k begin (match ∷ results) m a b =
      let m' = insert begin match m in
      ap (find k) (insert_results-next begin results m' (omega arith))
      ∙ find-insert_results k (begin + 1) results m'
          (insert-Above begin 1 match m b.0 (omega arith) a) (omega arith, omega arith, b.2.1)
      ∙ ap (settle k (inside k (begin + 1) results)) (find-insert begin k 1 match m a)
      ∙ settle_step k begin match results (find k m) b.2.0

  pub insert_results-Above :
      (begin : ℕ) (results : List Bool) (m : Sequence Bool)
      → Above 1 m
      → IsBlock begin results
      → Above 1 (insert_results begin results m)
  unfolding insert_results
  insert_results-Above begin [] m a b = a
  insert_results-Above begin (match ∷ results) m a b =
      rw (insert_results-next begin results (insert begin match m) (omega arith)) (
        insert_results-Above (begin + 1) results (insert begin match m)
          (insert-Above begin 1 match m b.0 (omega arith) a) (omega arith, omega arith, b.2.1))
