-- ===== src/Allocator/Tests.antt =====
-- A block at 5000, with chunks of numbers and a vector.
use deplug.Common.{ℕ, ◌<◌, ◌≡◌, refl, List, [], ◌∷◌, arith}
use deplug.FrameStore.{contains}
use deplug.Allocator.{
  Cell, BlockAllocator, init, link, size_of, value, alloc_uninitialized, alloc, dealloc,
}
use deplug.Allocator.Chains.{range}
use deplug.Allocator.Handing.{Handed}
use deplug.Allocator.Safety.{
  Op, allocates, stores, frees, run, init-IsSound, run-IsSound, run-Handed,
}
use deplug.Allocator.Vector.{emplace_back, element, size}
use deplug.Allocator.Elements.{IsVector, emplace_back-elements}

-- What a cell reads as when it is no link, and memory as it comes.
abbrev garbage : Cell ℕ → ℕ
garbage c = 77

abbrev memory : ℕ → Cell ℕ
memory p = value 13

abbrev two : ℕ × BlockAllocator ℕ
two = alloc garbage 8 0 (alloc garbage 7 5000 (init memory)).1

-- A chunk that is freed is the next to be handed out.
reused : (alloc garbage 9 0 (dealloc garbage 5001 two.1)).0 ≡ 5001
unfolding alloc init dealloc
reused = refl

-- A block of 1023 chunks leaves an address past its end in its list.
past : (alloc garbage 8 0 (alloc_uninitialized garbage 1023 5000 (init memory)).1).0 ≡ 6024
unfolding alloc alloc_uninitialized init
past = refl

abbrev calls : List (Op ℕ)
calls = allocates 2 5000 ∷ stores 5002 (value 3) ∷ frees 5001 ∷ []

run-Handed_example :
    Handed 3
      (run garbage calls (init memory, [])).1
      (alloc_uninitialized garbage 3 9000 (run garbage calls (init memory, [])).0)
unfolding run init alloc_uninitialized dealloc contains range
run-Handed_example =
    run-Handed garbage calls memory 3 9000
      ((omega arith, omega arith, (omega arith, λ c m. absurd (cc))), (refl, (refl, tt)))
      (omega arith, omega arith, (omega arith, λ c m. ground arith))

-- A chunk that is read as a size.
abbrev counts : Cell ℕ → ℕ
counts (size_of n) = n
counts (link p) = p
counts (value x) = 77

-- A vector with one element at 5001, where there is room for the next one behind it.
abbrev one : List (Op ℕ)
one = allocates 2 5000 ∷ stores 5002 (value 7) ∷ stores 5001 (size_of 1) ∷ []

abbrev grown : ℕ × BlockAllocator ℕ
grown = emplace_back garbage counts 8 9000 5001 (run garbage one (init memory, [])).0

in_place : grown.0 ≡ 5001
unfolding emplace_back run init
in_place = refl

-- If the next chunk is taken, the elements move.
moves :
    (emplace_back garbage counts 8 9000 5001
      (alloc garbage 3 9000 (run garbage one (init memory, [])).0).1).0
    ≡ 5004
unfolding emplace_back alloc run init
moves = refl

one-IsVector :
    IsVector counts 1 5001
      (run garbage one (init memory, [])).0
      (run garbage one (init memory, [])).1
unfolding run init contains range alloc_uninitialized
one-IsVector = record {
  there = omega arith;
  counted = refl;
  used = λ j low. ground arith;
  sound =
      run-IsSound garbage one (init memory, [])
        ((omega arith, omega arith, (omega arith, λ c m. absurd (cc))), (refl, (refl, tt)))
        (init-IsSound garbage memory);
}

emplace_back-elements_example :
    ((i : ℕ)
      → i < 1
      → element grown.0 i grown.1 ≡ element 5001 i (run garbage one (init memory, [])).0)
    × (element grown.0 1 grown.1 ≡ value 8)
    × (size counts grown.0 grown.1 ≡ 2)
unfolding run init contains range alloc_uninitialized
emplace_back-elements_example =
    emplace_back-elements garbage counts 8 9000 1 5001 (run garbage one (init memory, [])).0
      (run garbage one (init memory, [])).1 (λ m. refl) one-IsVector (omega arith)
      (omega arith, λ c m. ground arith)
