-- ===== src/Allocator/Elements.antt =====
-- The elements of a vector, through the calls of the allocator.
use deplug.Common.{
  ℕ, ◌+◌, ◌%◌, ◌^◌, ◌≤◌, ◌<◌, ◌≡◌, refl, sym, ap, ◌∙◌, inl, inr, true, false, List, if◌then◌else◌,
  arith, ◌==◌, Bool-cases,
}
use mathlib.Core.Path.{subst}
use deplug.FrameStore.{contains}
use deplug.Allocator.{Cell, BlockAllocator, size_of, value, alloc_uninitialized, alloc, allocable}
use deplug.Allocator.Chains.{write_here, write_other}
use deplug.Allocator.Blocks.{IsFresh, IsSound}
use deplug.Allocator.Handing.{Handed}
use deplug.Allocator.Safety.{alloc-Handed}
use deplug.Allocator.Vector.{
  copy, relocate, store, increment, place, move, emplace_back, element, size, data_of,
}
use deplug.Allocator.Rows.{copy_at, alloc_keeps, alloc_next, rows_apart}

not_null : (p : ℕ) → 0 < p → (p == 0) ≡ false
not_null p pos = ground arith

-- A vector of `n` elements, all in memory that is in use.
pub record IsVector {T : Type 0} (count : Cell T → ℕ) (n begin : ℕ) (a : BlockAllocator T)
    (live : List ℕ) : Type 0 where
  pub there : 0 < begin
  pub counted : count (a.heap begin) ≡ n
  pub used : (j : ℕ) → j < n + 1 → contains (begin + j) live ≡ true
  pub sound : IsSound a live

module _ {T : Type 0} (bits count : Cell T → ℕ) (x : T) (base n begin : ℕ) (a : BlockAllocator T)
    (live : List ℕ) where
  record Placed (r : ℕ × BlockAllocator T) : Type 0 where
    where_to : 0 < r.0
    counted : count (r.1.heap r.0) ≡ n
    kept : (i : ℕ) → i < n → r.1.heap (r.0 + 1 + i) ≡ a.heap (begin + 1 + i)
    new : r.1.heap (r.0 + 1 + n) ≡ value x

  module _ (v : IsVector count n begin a live) (small : n + 2 ≤ 1022)
      (fresh : IsFresh base a.blocks) where
    stays :
        (m : ℕ)
        → 0 < m
        → m ≤ 1022
        → (j : ℕ) → j < n + 1
        → (alloc_uninitialized bits m base a).1.heap (begin + j) ≡ a.heap (begin + j)
    stays m pos fits j low =
        alloc_keeps bits a live m base (begin + j) v.sound pos fits fresh (v.used j low)

    in_place-Placed :
        allocable bits (begin + n + 1) a ≡ true → Placed (begin, (alloc bits x base a).1)
    unfolding alloc
    in_place-Placed h =
        let chunk = alloc_next bits a base (begin + n + 1) (omega arith) h in
        let r = alloc_uninitialized bits 1 base a in
        let old : (j : ℕ)
            → j < n + 1
            → (alloc bits x base a).1.heap (begin + j) ≡ a.heap (begin + j) =
          λ j low.
            write_other r.0 (begin + j) (value x) r.1.heap (omega (arith, chunk))
            ∙ stays 1 (omega arith) (omega arith) j low in
        record {
          where_to = v.there;
          counted =
              let e : begin + 0 ≡ begin = omega arith in
              ap (λ p. count ((alloc bits x base a).1.heap p)) (sym e)
              ∙ ap count (old 0 (omega arith))
              ∙ ap (λ p. count (a.heap p)) e
              ∙ v.counted;
          kept = λ i low.
              let e : begin + 1 + i ≡ begin + (1 + i) = omega arith in
              ap (alloc bits x base a).1.heap e ∙ old (1 + i) (omega arith) ∙ ap a.heap (sym e);
          new =
              let e : begin + 1 + n ≡ r.0 = omega (arith, chunk) in
              ap (alloc bits x base a).1.heap e ∙ write_here r.0 (value x) r.1.heap;
        }

    relocate-Placed :
        (r : ℕ × BlockAllocator T)
        → Handed (n + 2) live r
        → ((j : ℕ) → j < n + 1 → r.1.heap (begin + j) ≡ a.heap (begin + j))
        → Placed (relocate x n begin r)
    unfolding relocate store
    relocate-Placed r h old =
        let apart =
          rows_apart bits live r.0 begin (n + 1) (λ j low. h.unused j (omega arith)) v.used in
        let copied = copy r.0 begin (n + 1) r.1.heap in
        let at : (j : ℕ)
            → j < n + 1
            → (relocate x n begin r).1.heap (r.0 + j) ≡ a.heap (begin + j) =
          λ j low.
            write_other (r.0 + n + 1) (r.0 + j) (value x) copied (omega arith)
            ∙ copy_at r.0 begin (n + 1) j r.1.heap low apart
            ∙ old j low in
        record {
          where_to = h.given;
          counted =
              let e : r.0 ≡ r.0 + 0 = omega arith in
              let f : begin + 0 ≡ begin = omega arith in
              ap (λ p. count ((relocate x n begin r).1.heap p)) e
              ∙ ap count (at 0 (omega arith))
              ∙ ap (λ p. count (a.heap p)) f
              ∙ v.counted;
          kept = λ i low.
              let e : r.0 + 1 + i ≡ r.0 + (1 + i) = omega arith in
              let f : begin + (1 + i) ≡ begin + 1 + i = omega arith in
              ap (relocate x n begin r).1.heap e ∙ at (1 + i) (omega arith) ∙ ap a.heap f;
          new =
              let e : r.0 + 1 + n ≡ r.0 + n + 1 = omega arith in
              ap (relocate x n begin r).1.heap e ∙ write_here (r.0 + n + 1) (value x) copied;
        }

    move-Placed : Placed (move bits count x base begin a)
    unfolding move
    move-Placed =
        subst (λ m. Placed (relocate x m begin (alloc_uninitialized bits (m + 2) base a)))
          (sym v.counted)
          (relocate-Placed (alloc_uninitialized bits (n + 2) base a)
            (alloc-Handed bits a live (n + 2) base v.sound (omega arith) small fresh)
            (stays (n + 2) (omega arith) small))

    place-Placed : Placed (place bits count x base begin a)
    unfolding place
    place-Placed =
        let some_vector : (begin == 0) ≡ false = not_null begin v.there in
        elim (Bool-cases (allocable bits (begin + n + 1) a)) [
          | inl e ↦
              let f : allocable bits (begin + count (a.heap begin) + 1) a ≡ true =
                ap (λ m. allocable bits (begin + m + 1) a) v.counted ∙ e in
              rw (place, some_vector, f) (in_place-Placed e)
          | inr e ↦
              let f : allocable bits (begin + count (a.heap begin) + 1) a ≡ false =
                ap (λ m. allocable bits (begin + m + 1) a) v.counted ∙ e in
              rw (place, some_vector, f) move-Placed
        ]

element_at :
    {T : Type 0} (p i : ℕ) (a : BlockAllocator T) → 0 < p → element p i a ≡ a.heap (p + 1 + i)
unfolding element data_of
element_at p i a pos = ap (λ b. a.heap ((if b then 0 else p + 1) + i)) (not_null p pos)

size_at :
    {T : Type 0} (count : Cell T → ℕ) (p : ℕ) (a : BlockAllocator T)
    → 0 < p
    → size count p a ≡ count (a.heap p)
unfolding size
size_at count p a pos = rw (size, not_null p pos) refl

counted_in :
    {T : Type 0} (bits count : Cell T → ℕ) (x : T) (base n begin : ℕ) (a : BlockAllocator T)
    (live : List ℕ) (r : ℕ × BlockAllocator T)
    → ((m : ℕ) → count (size_of m) ≡ m)
    → 0 < begin
    → n < 1022
    → Placed bits count x base n begin a live r
    → ((i : ℕ) → i < n → element r.0 i (increment count r.0 r.1) ≡ element begin i a)
      × (element r.0 n (increment count r.0 r.1) ≡ value x)
      × (size count r.0 (increment count r.0 r.1) ≡ n + 1)
unfolding increment store
counted_in bits count x base n begin a live r reads there small k =
    let c = size_of ((count (r.1.heap r.0) + 1) % 2 ^ 32) in
    let after = increment count r.0 r.1 in
    let more : (count (r.1.heap r.0) + 1) % 2 ^ 32 ≡ n + 1 = omega (arith, k.counted) in
    (
      λ i low.
          element_at r.0 i after k.where_to
          ∙ write_other r.0 (r.0 + 1 + i) c r.1.heap (omega arith)
          ∙ k.kept i low
          ∙ sym (element_at begin i a there),
      element_at r.0 n after k.where_to
          ∙ write_other r.0 (r.0 + 1 + n) c r.1.heap (omega arith)
          ∙ k.new,
      size_at count r.0 after k.where_to
          ∙ ap count (write_here r.0 c r.1.heap)
          ∙ reads ((count (r.1.heap r.0) + 1) % 2 ^ 32)
          ∙ more,
    )

-- Provided that a size reads as what was stored, that the vector's row is in use in a sound allocator
-- and has at most 1020 elements, and that new memory is fresh: `emplace_back` keeps every element,
-- puts the new one behind them and counts it, whether the row grows where it is or the elements move.
pub emplace_back-elements :
    {T : Type 0} (bits count : Cell T → ℕ) (x : T) (base n begin : ℕ) (a : BlockAllocator T)
    (live : List ℕ)
    → ((m : ℕ) → count (size_of m) ≡ m)
    → IsVector count n begin a live
    → n + 2 ≤ 1022
    → IsFresh base a.blocks
    → (let r = emplace_back bits count x base begin a in
        ((i : ℕ) → i < n → element r.0 i r.1 ≡ element begin i a)
        × (element r.0 n r.1 ≡ value x)
        × (size count r.0 r.1 ≡ n + 1))
unfolding emplace_back
emplace_back-elements bits count x base n begin a live reads v small fresh =
    counted_in bits count x base n begin a live (place bits count x base begin a) reads v.there
      (omega arith) (place-Placed bits count x base n begin a live v small fresh)
