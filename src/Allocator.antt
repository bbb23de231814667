-- ===== src/Allocator.antt =====
-- plugkit/src/allocator.hpp: the allocator that frames, layers, attributes, payloads and views come
-- from. Memory is counted in chunks of `sizeof(T)`: an address is a number, 0 the null pointer, and
-- the heap gives the cell at each. The address of the memory that `RootAllocator::allocate` gives is
-- an argument. `bits` is what a cell that is no link reads as when it is read as a pointer.
pub mod Chains
pub mod Blocks
pub mod Calls
pub mod Handing
pub mod Safety
pub mod Vector
pub mod Rows
pub mod Elements
mod Tests
use deplug.Common.{
  ℕ, zero, suc, ◌+◌, ◌-◌, Bool, true, false, ◌&&◌, ◌||◌, not, Option, none, some, List, [], ◌∷◌,
  ltb, ◌==◌, if◌then◌else◌,
}

-- `union Block` and `union Item`: a chunk holds a link of the free list, the size of a vector, or a
-- `T`.
pub data Cell (T : Type 0) : Type 0 where
  link : ℕ → Cell T
  size_of : ℕ → Cell T
  value : T → Cell T

pub record BlockAllocator (T : Type 0) : Type 0 where
  pub heap : ℕ → Cell T
  -- `mList`: the first chunks of the blocks, the newest block first.
  pub blocks : List ℕ

abbrev pub block_size : ℕ
block_size = 1024

-- The block whose chunks, but for its first, include the one at `ptr`.
unfoldable pub owner : ℕ → List ℕ → Option ℕ
owner ptr [] = none
owner ptr (front ∷ blocks) =
    let rest = owner ptr blocks in
    if ltb front ptr && ltb ptr (front + block_size) then some front else rest

module _ {T : Type 0} where
  unfoldable pub write : ℕ → Cell T → (ℕ → Cell T) → ℕ → Cell T
  write p c heap q = if p == q then c else heap q

  -- `front[i].next = front + i + 1` for `left` indices from `i` on.
  unfoldable pub link_rest : ℕ → ℕ → ℕ → (ℕ → Cell T) → ℕ → Cell T
  unfolding write
  link_rest front i zero heap = heap
  link_rest front i (suc left) heap =
      link_rest front (i + 1) left (write (front + i) (link (front + i + 1)) heap)

  -- The constructor; the heap is as it is.
  unfoldable pub init : (ℕ → Cell T) → BlockAllocator T
  init heap = record { heap = heap; blocks = [] }

module _ {T : Type 0} (bits : Cell T → ℕ) where
  -- `p->next`
  unfoldable pub next : Cell T → ℕ
  next (link p) = p
  next (size_of n) = bits (size_of n)
  next (value x) = bits (value x)

  -- The loop that looks whether the first chunks of the free list follow each other; `front` is at
  -- `index` and `left` is `size - index`.
  unfoldable pub follows : (ℕ → Cell T) → ℕ → ℕ → ℕ → Bool
  unfolding next
  follows heap front index zero = true
  follows heap front index (suc left) =
      let rest = follows heap (next (heap front)) (index + 1) left in
      if ltb 0 index && not (next (heap front) == front + 1) then false else rest

  -- `front->next = front->next->next`, so many times.
  unfoldable pub unlink : ℕ → ℕ → (ℕ → Cell T) → ℕ → Cell T
  unfolding next write
  unlink front zero heap = heap
  unlink front (suc n) heap =
      unlink front n (write front (link (next (heap (next (heap front))))) heap)

  -- The chunks of the first block, if its free list begins with `size` chunks in a row.
  unfoldable pub take_chunk : ℕ → BlockAllocator T → ℕ
  unfolding follows next
  take_chunk size a = elim (a.blocks) [
    | [] ↦ 0
    | front ∷ blocks ↦
        let chunk = next (a.heap front) in
        if not (chunk == 0) && follows a.heap front 0 size then chunk else 0
  ]

  -- What is done with the memory at `base`.
  unfoldable pub new_block : ℕ → ℕ → BlockAllocator T → BlockAllocator T
  unfolding write link_rest
  new_block size base a = record {
    heap = write (base + (block_size - 1)) (link 0) (
        link_rest base (1 + size) (block_size - 1 - (1 + size))
          (write base (link (base + 1 + size)) a.heap));
    blocks = base ∷ a.blocks;
  }

  unfoldable pub unlink_first : ℕ → BlockAllocator T → BlockAllocator T
  unfolding unlink
  unlink_first size a = elim (a.blocks) [
    | [] ↦ a
    | front ∷ blocks ↦ record a { heap = unlink front size a.heap }
  ]

  -- `allocUninitialized`: the address handed out, 0 for `nullptr`, and the allocator.
  unfoldable pub alloc_uninitialized : ℕ → ℕ → BlockAllocator T → ℕ × BlockAllocator T
  unfolding take_chunk new_block unlink_first
  alloc_uninitialized size base a =
      if size == 0 || ltb (block_size - 1) size
      then (0, a)
      else if take_chunk size a == 0
      then (base + 1, new_block size base a)
      else (take_chunk size a, unlink_first size a)

  -- `alloc(args...)`: a chunk with a new `T` in it.
  unfoldable pub alloc : T → ℕ → BlockAllocator T → ℕ × BlockAllocator T
  unfolding alloc_uninitialized write
  alloc x base a =
      let r = alloc_uninitialized 1 base a in
      (r.0, record (r.1) { heap = write r.0 (value x) r.1.heap })

  unfoldable pub allocable : ℕ → BlockAllocator T → Bool
  unfolding next
  allocable ptr a = elim (a.blocks) [ [] ↦ false | front ∷ blocks ↦ next (a.heap front) == ptr ]

  unfoldable pub dealloc : ℕ → BlockAllocator T → BlockAllocator T
  unfolding owner next write
  dealloc ptr a = elim (owner ptr a.blocks) [
    | none ↦ a
    | some front ↦ record a {
      heap = write front (link ptr) (write ptr (link (next (a.heap front))) a.heap);
    }
  ]
