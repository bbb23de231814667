-- ===== src/Allocator/Vector.antt =====
-- plugkit/src/allocator.hpp: `BlockVector`, a vector in chunks that follow each other. The first
-- chunk holds the size, and the vector is the address of that chunk, `mBegin`, with 0 for the null
-- pointer. `count` is what a chunk reads as when it is read as a size.
use deplug.Common.{ℕ, zero, suc, ◌+◌, ◌%◌, ◌^◌, Bool, ◌==◌, if◌then◌else◌}
use deplug.Allocator.{
  Cell, BlockAllocator, size_of, value, write, alloc_uninitialized, alloc, allocable,
}

unfoldable pub data_of : ℕ → ℕ
data_of begin = if begin == 0 then 0 else begin + 1

module _ {T : Type 0} where
  -- `memcpy` of so many chunks.
  unfoldable pub copy : ℕ → ℕ → ℕ → (ℕ → Cell T) → ℕ → Cell T
  unfolding write
  copy to from zero heap = heap
  copy to from (suc n) heap = copy (to + 1) (from + 1) n (write to (heap from) heap)

  -- A chunk is stored in.
  unfoldable pub store : ℕ → Cell T → BlockAllocator T → BlockAllocator T
  unfolding write
  store p c a = record a { heap = write p c a.heap }

  -- The size and so many elements are copied to a row that was allocated, and `x` is put behind.
  unfoldable pub relocate : T → ℕ → ℕ → ℕ × BlockAllocator T → ℕ × BlockAllocator T
  unfolding copy store
  relocate x size begin r =
      let copied = record (r.1) { heap = copy r.0 begin (size + 1) r.1.heap } in
      (r.0, store (r.0 + size + 1) (value x) copied)

  -- `operator[]`
  unfoldable pub element : ℕ → ℕ → BlockAllocator T → Cell T
  unfolding data_of
  element begin index a = a.heap (data_of begin + index)

module _ {T : Type 0} (count : Cell T → ℕ) where
  -- `mBegin->size += 1`
  unfoldable pub increment : ℕ → BlockAllocator T → BlockAllocator T
  unfolding store
  increment begin a = store begin (size_of ((count (a.heap begin) + 1) % 2 ^ 32)) a

  unfoldable pub size : ℕ → BlockAllocator T → ℕ
  size begin a = if begin == 0 then 0 else count (a.heap begin)

  unfoldable pub empty : ℕ → BlockAllocator T → Bool
  unfolding size
  empty begin a = size begin a == 0

module _ {T : Type 0} (bits count : Cell T → ℕ) where
  unfoldable pub place_first : T → ℕ → BlockAllocator T → ℕ × BlockAllocator T
  unfolding alloc_uninitialized store
  place_first x base a =
      let r = alloc_uninitialized bits 2 base a in
      (r.0, store r.0 (size_of 0) (store (r.0 + 1) (value x) r.1))

  -- The elements move to a longer row of chunks; the old row is not freed.
  unfoldable pub move : T → ℕ → ℕ → BlockAllocator T → ℕ × BlockAllocator T
  unfolding alloc_uninitialized relocate
  move x base begin a =
      let size = count (a.heap begin) in
      relocate x size begin (alloc_uninitialized bits (size + 2) base a)

  -- Where the new element goes: `mBegin` and the allocator, before the size is changed.
  unfoldable pub place : T → ℕ → ℕ → BlockAllocator T → ℕ × BlockAllocator T
  unfolding place_first move alloc allocable
  place x base begin a =
      if begin == 0
      then place_first x base a
      else if allocable bits (begin + count (a.heap begin) + 1) a
      then (begin, (alloc bits x base a).1)
      else move x base begin a

  unfoldable pub emplace_back : T → ℕ → ℕ → BlockAllocator T → ℕ × BlockAllocator T
  unfolding place increment
  emplace_back x base begin a = let r = place x base begin a in (r.0, increment count r.0 r.1)
