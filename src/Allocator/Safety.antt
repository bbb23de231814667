-- ===== src/Allocator/Safety.antt =====
-- Memory that is handed out is not in use, whatever the calls before.
use deplug.Common.{
  ℕ, zero, suc, ◌≤◌, ◌<◌, ◌≡◌, refl, sym, ap, ◌∙◌, ◌⊎◌, inl, inr, true, false, ◌||◌, List, [], ◌∷◌,
  ◌++◌, arith, ltb, ◌==◌, Bool-cases,
}
use mathlib.Core.Path.{subst}
use deplug.FrameStore.{contains, remove}
use deplug.Allocator.{
  Cell, BlockAllocator, init, write, follows, take_chunk, unlink_first, alloc_uninitialized,
  dealloc,
}
use deplug.Allocator.Chains.{Chain, next-link, range, follows-range}
use deplug.Allocator.Blocks.{IsFresh, IsSound, stores-IsSound}
use deplug.Allocator.Calls.{dealloc-IsSound}
use deplug.Allocator.Handing.{Handed, Handed-listed, Handed-new}

List-cases : (xs : List ℕ) → (xs ≡ []) ⊎ ((x : ℕ) × (ys : List ℕ) × (xs ≡ x ∷ ys))
List-cases [] = inl refl
List-cases (x ∷ ys) = inr (x, ys, refl)

module _ {T : Type 0} (bits : Cell T → ℕ) where
  alloc_listed :
      (heap : ℕ → Cell T) (blocks live : List ℕ) (n : ℕ)
      → IsSound (record { heap = heap; blocks = blocks }) live
      → 0 < n
      → (take_chunk bits n (record { heap = heap; blocks = blocks }) == 0) ≡ false
      → Handed n live (
        take_chunk bits n (record { heap = heap; blocks = blocks }),
        unlink_first bits n (record { heap = heap; blocks = blocks }),
      )
  unfolding take_chunk unlink_first follows contains Chain range
  alloc_listed heap [] live n s pos found = absurd (cc)
  alloc_listed heap (front ∷ blocks) live zero s pos found = absurd (omega arith)
  alloc_listed heap (front ∷ blocks) live (suc m) s pos found =
      let here : contains front (front ∷ blocks) ≡ true = ground arith in
      let k = s.good front here in
      elim (List-cases k.free) [
        | inl e ↦
            let none_free = next-link bits heap front 0 (subst (Chain heap front) e k.chain) in
            absurd (ground (arith, none_free, found))
        | inr (x, fs, e) ↦
            let (to, more, chain) : Chain heap front (x ∷ fs) =
              subst (Chain heap front) e k.chain in
            let f = next-link bits heap front x to in
            let row : follows bits heap x 1 m ≡ true = ground (arith, f, found) in
            let chunk : take_chunk bits (suc m) (record { heap = heap; blocks = front ∷ blocks })
                ≡ x =
              ground (arith, f, found) in
            let (rest, g) = follows-range bits heap x 1 m fs (omega arith) chain row in
            subst
              (λ r.
                Handed (suc m) live
                  (r, unlink_first bits (suc m) (record { heap = heap; blocks = front ∷ blocks })))
              (sym chunk)
              (Handed-listed bits blocks front heap live x (suc m) rest s here (e ∙ ap (◌∷◌ x) g)
                pos more)
      ]

  pub alloc-Handed :
      (a : BlockAllocator T) (live : List ℕ) (n base : ℕ)
      → IsSound a live
      → 0 < n
      → n ≤ 1022
      → IsFresh base a.blocks
      → Handed n live (alloc_uninitialized bits n base a)
  unfolding alloc_uninitialized
  alloc-Handed a live n base s pos small fresh =
      let guard : (n == 0 || ltb 1023 n) ≡ false = ground arith in
      elim (Bool-cases (take_chunk bits n a == 0)) [
        | inl e ↦
            rw (alloc_uninitialized, guard, e) (Handed-new bits a live n base s small pos fresh)
        | inr e ↦ rw (alloc_uninitialized, guard, e) (alloc_listed a.heap a.blocks live n s pos e)
      ]

-- What the program does: it allocates chunks, given where a new block would be; it stores in a chunk;
-- it frees one.
pub data Op (T : Type 0) : Type 0 where
  allocates : ℕ → ℕ → Op T
  stores : ℕ → Cell T → Op T
  frees : ℕ → Op T

module _ {T : Type 0} (bits : Cell T → ℕ) where
  -- The allocator, and the chunks in use.
  unfoldable pub step : Op T → BlockAllocator T × List ℕ → BlockAllocator T × List ℕ
  step (allocates n base) s =
      let r = alloc_uninitialized bits n base s.0 in (r.1, range r.0 n ++ s.1)
  step (stores p c) s = (record (s.0) { heap = write p c s.0.heap }, s.1)
  step (frees p) s = (dealloc bits p s.0, remove p s.1)

  unfoldable pub run : List (Op T) → BlockAllocator T × List ℕ → BlockAllocator T × List ℕ
  unfolding step
  run [] s = s
  run (o ∷ os) s = run os (step o s)

  -- Sizes that a block has room for, memory that is fresh, and only chunks in use stored in or freed.
  abbrev pub IsAllowed : Op T → BlockAllocator T × List ℕ → Type 0
  IsAllowed (allocates n base) s = (0 < n) × (n ≤ 1022) × IsFresh base s.0.blocks
  IsAllowed (stores p c) s = contains p s.1 ≡ true
  IsAllowed (frees p) s = contains p s.1 ≡ true

  abbrev pub AreAllowed : List (Op T) → BlockAllocator T × List ℕ → Type 0
  AreAllowed [] s = Unit
  AreAllowed (o ∷ os) s = IsAllowed o s × AreAllowed os (step o s)

  pub init-IsSound : (heap : ℕ → Cell T) → IsSound (init heap) []
  unfolding contains init
  init-IsSound heap = record {
    good = λ b m. absurd (cc);
    apart = λ b c m n other. absurd (cc);
    owned = λ p m. absurd (cc);
  }

  pub run-IsSound :
      (os : List (Op T)) (s : BlockAllocator T × List ℕ)
      → AreAllowed os s
      → IsSound s.0 s.1
      → IsSound (run os s).0 (run os s).1
  unfolding run
  run-IsSound [] s ok sound = sound
  run-IsSound (allocates n base ∷ os) s ((pos, small, fresh), ok) sound =
      run-IsSound os (step (allocates n base) s) ok
        (alloc-Handed bits s.0 s.1 n base sound pos small fresh).sound
  run-IsSound (stores p c ∷ os) s (used, ok) sound =
      run-IsSound os (step (stores p c) s) ok (stores-IsSound s.0 s.1 p c sound used)
  run-IsSound (frees p ∷ os) s (used, ok) sound =
      run-IsSound os (step (frees p) s) ok (dealloc-IsSound bits s.0 s.1 p sound used)

  -- After any calls from an empty allocator, in which the program stores only in chunks in use, frees
  -- only chunks in use, and asks for at most 1022 chunks at once, chunks that are handed out are not
  -- null, are inside a block behind its first chunk, and none of them is in use.
  pub run-Handed :
      (os : List (Op T)) (heap : ℕ → Cell T) (n base : ℕ)
      → AreAllowed os (init heap, [])
      → IsAllowed (allocates n base) (run os (init heap, []))
      → Handed n
          (run os (init heap, [])).1
          (alloc_uninitialized bits n base (run os (init heap, [])).0)
  unfolding init
  run-Handed os heap n base ok (pos, small, fresh) =
      alloc-Handed bits (run os (init heap, [])).0 (run os (init heap, [])).1 n base
        (run-IsSound os (init heap, []) ok (init-IsSound heap)) pos small fresh
