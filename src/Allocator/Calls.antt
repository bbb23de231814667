-- ===== src/Allocator/Calls.antt =====
-- What the calls of the allocator do to its blocks.
use deplug.Common.{
  ℕ, ◌+◌, ◌<◌, ◌≡◌, refl, ap, ◌∙◌, inl, inr, true, false, ◌&&◌, not, some, List, [], ◌∷◌, arith,
  ltb, ◌==◌, Bool-cases, Option-cases,
}
use native.Mathlib.Decide.{ℕ_discrete}
use mathlib.Core.Path.{subst}
use deplug.FrameStore.{contains, remove}
use deplug.Allocator.{Cell, BlockAllocator, link, write, next, owner, dealloc}
use deplug.Allocator.Chains.{Chain, write_here, write_other, NoDup, next-link, Chain-write}
use deplug.Allocator.Blocks.{Block, IsSound, absent, head-free, Block_elsewhere}

contains-remove_other :
    (q p : ℕ) (xs : List ℕ) → contains q (remove p xs) ≡ (not (p == q) && contains q xs)
unfolding contains remove
contains-remove_other q p [] = ground arith
contains-remove_other q p (x ∷ xs) = ground (arith, contains-remove_other q p xs)

owner-some :
    (p : ℕ) (blocks : List ℕ) (b : ℕ)
    → owner p blocks ≡ some b
    → (contains b blocks ≡ true) × (b < p) × (p < b + 1024)
unfolding owner contains
owner-some p [] b e = absurd (cc)
owner-some p (c ∷ blocks) b e = elim (Bool-cases (ltb c p && ltb p (c + 1024))) [
  | inl h ↦ let same : c ≡ b = ground arith in (ground arith, ground arith, ground arith)
  | inr h ↦
      let (m, low, high) = owner-some p blocks b (ground (arith, e, h)) in
      (ground (arith, m), low, high)
]

module _ {T : Type 0} (bits : Cell T → ℕ) where
  -- A chunk is put at the head of a free list.
  Chain-push :
      (heap : ℕ → Cell T) (b p : ℕ) (fs : List ℕ)
      → 0 < p
      → contains b fs ≡ false
      → contains p (b ∷ fs) ≡ false
      → Chain heap b fs
      → Chain (write b (link p) (write p (link (next bits (heap b))) heap)) b (p ∷ fs)
  unfolding Chain contains
  Chain-push heap b p [] pos out apart h = (
    write_here b (link p) (write p (link (next bits (heap b))) heap),
    pos,
    write_other b p (link p) (write p (link (next bits (heap b))) heap) (ground arith)
        ∙ write_here p (link (next bits (heap b))) heap
        ∙ ap link (next-link bits heap b 0 h),
  )
  Chain-push heap b p (x ∷ fs) pos out apart (e, more, h) =
      let once = write p (link (next bits (heap b))) heap in
      (
        write_here b (link p) once,
        pos,
        (
          write_other b p (link p) once (ground arith)
              ∙ write_here p (link (next bits (heap b))) heap
              ∙ ap link (next-link bits heap b x e),
          more,
          Chain-write bits once b x (link p) fs out
              (Chain-write bits heap p x (link (next bits (heap b))) fs (ground arith) h),
        ),
      )

  pub dealloc-IsSound :
      (a : BlockAllocator T) (live : List ℕ) (p : ℕ)
      → IsSound a live
      → contains p live ≡ true
      → IsSound (dealloc bits p a) (remove p live)
  unfolding dealloc contains NoDup
  dealloc-IsSound a live p s used = elim (Option-cases (owner p a.blocks)) [
    | inl e ↦
        rw (dealloc, e)
          (record {
            good = λ c mc.
                Block_elsewhere a.heap a.heap live (remove p live) c (λ q lo hi. refl)
                  (λ q lo hi h. rw (contains-remove_other q p live, h) (ground arith))
                  (s.good c mc);
            apart = s.apart;
            owned = λ q h. s.owned q (ground (arith, contains-remove_other q p live, h));
          })
    | inr (b, e) ↦
        let (m, low, high) = owner-some p a.blocks b e in
        let heap = write b (link p) (write p (link (next bits (a.heap b))) a.heap) in
        rw (dealloc, e)
          (record {
            good = λ c mc. elim (ℕ_discrete b c) [
              | yes same ↦ subst (Block heap (remove p live)) same (
                  let k = s.good b m in
                  let out : contains p k.free ≡ false =
                    absent (contains p k.free) (λ h. let i = k.idle p h in absurd (cc)) in
                  record {
                    free = p ∷ k.free;
                    chain =
                        Chain-push a.heap b p k.free (omega arith) (head-free a.heap live b k)
                          (ground (arith, out)) k.chain;
                    once = (out, k.once);
                    inside = λ q h. elim (Bool-cases (p == q)) [
                      | inl is ↦ (ground arith, ground arith)
                      | inr other ↦ k.inside q (ground (arith, h, other))
                    ];
                    idle = λ q h. elim (Bool-cases (p == q)) [
                      | inl is ↦ rw (contains-remove_other q p live, is)
                      | inr other ↦
                          let i = k.idle q (ground (arith, h, other)) in
                          rw (contains-remove_other q p live, other, i)
                    ];
                    head = rw (contains-remove_other b p live, k.head) (ground arith);
                  })
              | no other ↦
                  let far = s.apart b c m mc other in
                  Block_elsewhere a.heap heap live (remove p live) c
                    (λ q lo hi.
                      write_other b q (link p) (write p (link (next bits (a.heap b))) a.heap)
                        (omega arith)
                      ∙ write_other p q (link (next bits (a.heap b))) a.heap (omega arith))
                    (λ q lo hi h. rw (contains-remove_other q p live, h) (ground arith))
                    (s.good c mc)
            ];
            apart = s.apart;
            owned = λ q h. s.owned q (ground (arith, contains-remove_other q p live, h));
          })
  ]
