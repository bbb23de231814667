-- ===== src/Allocator/Rows.antt =====
-- Rows of chunks: what a copy does, and what an allocation leaves as it is.
use deplug.Common.{
  ℕ, zero, suc, ◌+◌, ◌-◌, ◌≤◌, ◌<◌, ◌≡◌, refl, sym, ap, ◌∙◌, ◌⊎◌, inl, inr, true, false, List, [],
  ◌∷◌, arith, ltb, leb, ◌==◌, ◌||◌, Bool-cases,
}
use deplug.FrameStore.{contains}
use deplug.Allocator.{
  Cell, BlockAllocator, link, write, link_rest, follows, unlink_first, new_block,
  alloc_uninitialized, take_chunk, allocable,
}
use deplug.Allocator.Chains.{write_here, write_other, unlink_other, link_rest-at}
use deplug.Allocator.Blocks.{IsFresh, IsSound}
use deplug.Allocator.Vector.{copy}

module _ {T : Type 0} where
  copy_outside :
      (to from n p : ℕ) (heap : ℕ → Cell T)
      → (p < to) ⊎ (to + n ≤ p)
      → copy to from n heap p ≡ heap p
  unfolding copy
  copy_outside to from zero p heap out = refl
  copy_outside to from (suc n) p heap out =
      copy_outside (to + 1) (from + 1) n p (write to (heap from) heap) (omega arith)
      ∙ write_other to p (heap from) heap (omega arith)

  -- Rows that do not meet.
  pub copy_at :
      (to from n i : ℕ) (heap : ℕ → Cell T)
      → i < n
      → (from + n ≤ to) ⊎ (to + n ≤ from)
      → copy to from n heap (to + i) ≡ heap (from + i)
  unfolding copy
  copy_at to from zero i heap small apart = absurd (omega arith)
  copy_at to from (suc n) zero heap small apart =
      let here : to + 0 ≡ to = omega arith in
      let there : from ≡ from + 0 = omega arith in
      ap (copy (to + 1) (from + 1) n (write to (heap from) heap)) here
      ∙ copy_outside (to + 1) (from + 1) n to (write to (heap from) heap) (omega arith)
      ∙ write_here to (heap from) heap
      ∙ ap heap there
  copy_at to from (suc n) (suc i) heap small apart =
      let here : to + suc i ≡ to + 1 + i = omega arith in
      let there : from + 1 + i ≡ from + suc i = omega arith in
      ap (copy (to + 1) (from + 1) n (write to (heap from) heap)) here
      ∙ copy_at (to + 1) (from + 1) n i (write to (heap from) heap) (omega arith) (omega arith)
      ∙ write_other to (from + 1 + i) (heap from) heap (omega arith)
      ∙ ap heap there

module _ {T : Type 0} (bits : Cell T → ℕ) where
  new_block_keeps :
      (n base p : ℕ) (heap : ℕ → Cell T) (blocks : List ℕ)
      → n ≤ 1022
      → (p < base) ⊎ (base + 1024 ≤ p)
      → (new_block bits n base (record { heap = heap; blocks = blocks })).heap p ≡ heap p
  unfolding new_block
  new_block_keeps n base p heap blocks small out =
      let first = write base (link (base + 1 + n)) heap in
      write_other (base + 1023) p (link 0) (link_rest base (1 + n) (1023 - (1 + n)) first)
        (omega arith)
      ∙ ground (arith, link_rest-at bits base (1 + n) (1023 - (1 + n)) p first)
      ∙ write_other base p (link (base + 1 + n)) heap (omega arith)

  unlink_first_keeps :
      (n p : ℕ) (heap : ℕ → Cell T) (blocks live : List ℕ)
      → IsSound (record { heap = heap; blocks = blocks }) live
      → contains p live ≡ true
      → (unlink_first bits n (record { heap = heap; blocks = blocks })).heap p ≡ heap p
  unfolding unlink_first contains
  unlink_first_keeps n p heap [] live s used = refl
  unlink_first_keeps n p heap (front ∷ blocks) live s used =
      let k = s.good front (ground arith) in
      unlink_other bits front n p heap
        (λ e. let out = ap (λ b. contains b live) (sym e) ∙ k.head in absurd (cc))

  pub alloc_keeps :
      (a : BlockAllocator T) (live : List ℕ) (n base p : ℕ)
      → IsSound a live
      → 0 < n
      → n ≤ 1022
      → IsFresh base a.blocks
      → contains p live ≡ true
      → (alloc_uninitialized bits n base a).1.heap p ≡ a.heap p
  unfolding alloc_uninitialized
  alloc_keeps a live n base p s pos small fresh used =
      let guard : (n == 0 || ltb 1023 n) ≡ false = ground arith in
      elim (Bool-cases (take_chunk bits n a == 0)) [
        | inl e ↦
            let (b, known, low, high) = s.owned p used in
            let out = fresh.1 b known in
            rw (alloc_uninitialized, guard, e)
              (new_block_keeps n base p a.heap a.blocks small (omega arith))
        | inr e ↦
            rw (alloc_uninitialized, guard, e) (unlink_first_keeps n p a.heap a.blocks live s used)
      ]

  take_chunk_next :
      (heap : ℕ → Cell T) (blocks : List ℕ) (p : ℕ)
      → 0 < p
      → allocable bits p (record { heap = heap; blocks = blocks }) ≡ true
      → take_chunk bits 1 (record { heap = heap; blocks = blocks }) ≡ p
  unfolding allocable take_chunk follows
  take_chunk_next heap [] p pos h = absurd (cc)
  take_chunk_next heap (front ∷ blocks) p pos h = ground arith

  -- A chunk that is next in the free list is what is handed out.
  pub alloc_next :
      (a : BlockAllocator T) (base p : ℕ)
      → 0 < p
      → allocable bits p a ≡ true
      → (alloc_uninitialized bits 1 base a).0 ≡ p
  unfolding alloc_uninitialized
  alloc_next a base p pos h =
      let chunk = take_chunk_next a.heap a.blocks p pos h in
      let full : (take_chunk bits 1 a == 0) ≡ false = ground arith in
      rw (alloc_uninitialized, full) chunk

  -- Chunks in use and chunks that are handed out do not meet.
  pub rows_apart :
      (live : List ℕ) (to from n : ℕ)
      → ((j : ℕ) → j < n → contains (to + j) live ≡ false)
      → ((j : ℕ) → j < n → contains (from + j) live ≡ true)
      → (from + n ≤ to) ⊎ (to + n ≤ from)
  rows_apart live to from n unused used = elim (Bool-cases (leb (from + n) to)) [
    | inl e ↦ inl (ground arith)
    | inr e ↦ elim (Bool-cases (leb (to + n) from)) [
      | inl f ↦ inr (ground arith)
      | inr f ↦ elim (Bool-cases (leb from to)) [
        | inl g ↦
            let same : from + (to - from) ≡ to + 0 = ground arith in
            let u = unused 0 (ground arith) in
            let v = used (to - from) (ground arith) in
            absurd (let w = ap (λ p. contains p live) same in cc)
        | inr g ↦
            let same : to + (from - to) ≡ from + 0 = ground arith in
            let u = unused (from - to) (ground arith) in
            let v = used 0 (ground arith) in absurd (let w = ap (λ p. contains p live) same in cc)
      ]
    ]
  ]
