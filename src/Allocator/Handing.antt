-- ===== src/Allocator/Handing.antt =====
-- What `allocUninitialized` hands out.
use deplug.Common.{
  ℕ, zero, suc, ◌+◌, ◌-◌, ◌≤◌, ◌<◌, ◌≡◌, refl, sym, ap, ◌∙◌, ◌≢◌, inl, inr, true, false, ◌&&◌, ◌||◌,
  List, [], ◌∷◌, ◌++◌, arith, ltb, leb, ◌==◌, if◌then◌else◌, Bool-cases, length,
}
use native.Mathlib.Decide.{ℕ_discrete}
use mathlib.Core.Path.{subst}
use deplug.FrameStore.{contains}
use deplug.Dissector.Rounds.{contains-append}
use deplug.Allocator.{Cell, BlockAllocator, link, write, unlink, new_block}
use deplug.Allocator.Chains.{
  Chain, NoDup, range, contains-range, NoDup-range, NoDup-right, unlink-Chain, unlink_other,
  link_rest-at, Chain-range,
}
use deplug.Allocator.Blocks.{Block, IsApart, IsFresh, IsSound, absent, head-free, Block_elsewhere}

-- Chunks that were not in use and are part of a block, and then are in use.
pub record Handed {T : Type 0} (n : ℕ) (live : List ℕ) (r : ℕ × BlockAllocator T) : Type 0 where
  pub given : 0 < r.0
  pub unused : (j : ℕ) → j < n → contains (r.0 + j) live ≡ false
  pub block : ℕ
  pub known : contains block r.1.blocks ≡ true
  pub low : block < r.0
  pub high : r.0 + n ≤ block + 1024
  pub sound : IsSound r.1 (range r.0 n ++ live)

length-range : (begin n : ℕ) → length (range begin n) ≡ n
unfolding range
length-range begin zero = refl
length-range begin (suc n) = ap suc (length-range (begin + 1) n)

NoDup-apart :
    (xs ys : List ℕ) (q : ℕ) → NoDup (xs ++ ys) → contains q ys ≡ true → contains q xs ≡ false
unfolding NoDup contains
NoDup-apart [] ys q h m = refl
NoDup-apart (x ∷ xs) ys q (new, h) m =
    let rest = NoDup-apart xs ys q h m in
    elim (Bool-cases (x == q)) [
      | inl e ↦
          let same : x ≡ q = ground arith in
          let old : contains q (xs ++ ys) ≡ false =
            ap (λ x. contains x (xs ++ ys)) (sym same) ∙ new in
          absurd (ground (arith, contains-append q xs ys))
      | inr e ↦ ground (arith, e, rest)
    ]

used_range :
    (q begin n : ℕ) (live : List ℕ)
    → contains q (range begin n ++ live) ≡ (leb begin q && ltb q (begin + n) || contains q live)
used_range q begin n live =
    ground (arith, contains-append q (range begin n) live, contains-range q begin n)

module _ {T : Type 0} (bits : Cell T → ℕ) where
  -- The first chunks of the free list of `front`.
  module _ (blocks : List ℕ) (front : ℕ) (heap : ℕ → Cell T) (live : List ℕ) (x n : ℕ)
      (rest : List ℕ) where
    abbrev before : BlockAllocator T
    before = record { heap = heap; blocks = front ∷ blocks }

    abbrev after : BlockAllocator T
    after = record { heap = unlink bits front n heap; blocks = front ∷ blocks }

    pub Handed-listed :
        (s : IsSound before live)
        → (m : contains front (front ∷ blocks) ≡ true) → (s.good front m).free ≡ range x n ++ rest
        → 0 < n
        → 0 < x
        → Handed n live (x, after)
    unfolding contains
    Handed-listed s m e some_n pos =
        let k = s.good front m in
        let listed : (q : ℕ) → x ≤ q → q < x + n → contains q k.free ≡ true =
          λ q lo hi. rw e (ground (arith, used_range q x n rest)) in
        let all : (q : ℕ) → contains q rest ≡ true → contains q k.free ≡ true =
          λ q h. rw e (ground (arith, used_range q x n rest, h)) in
        let once : NoDup (range x n ++ rest) = subst NoDup e k.once in
        let first = k.inside x (listed x (omega arith) (omega arith)) in
        let end = k.inside (x + (n - 1)) (listed (x + (n - 1)) (omega arith) (omega arith)) in
        record {
          given = pos;
          unused = λ j lt. k.idle (x + j) (listed (x + j) (omega arith) (omega arith));
          block = front;
          known = m;
          low = first.0;
          high = omega arith;
          sound = record {
            good = λ c mc. elim (ℕ_discrete front c) [
              | yes same ↦
                  subst (Block (unlink bits front n heap) (range x n ++ live)) same (record {
                    free = rest;
                    chain =
                        subst (λ i. Chain (unlink bits front i heap) front rest) (length-range x n)
                          (unlink-Chain bits front (range x n) rest heap
                            (subst (λ fs. contains front fs ≡ false) e
                              (head-free heap live front k))
                            (subst (Chain heap front) e k.chain));
                    once = NoDup-right (range x n) rest once;
                    inside = λ q h. k.inside q (all q h);
                    idle = λ q h.
                        let new = NoDup-apart (range x n) rest q once h in
                        let idle = k.idle q (all q h) in
                        ground (arith, contains-append q (range x n) live, new, idle);
                    head = ground (arith, used_range front x n live, k.head, first.0);
                  })
              | no other ↦
                  let far = s.apart front c m mc other in
                  Block_elsewhere heap (unlink bits front n heap) live (range x n ++ live) c
                    (λ q lo hi. unlink_other bits front n q heap (omega arith))
                    (λ q lo hi h. ground (arith, used_range q x n live, h, first.0, end.1))
                    (s.good c mc)
            ];
            apart = s.apart;
            owned = λ q h. elim (Bool-cases (leb x q && ltb q (x + n))) [
              | inl new ↦ (front, m, ground arith, ground arith)
              | inr old ↦ s.owned q (ground (arith, used_range q x n live, h, old))
            ];
          };
        }

  module _ (a : BlockAllocator T) (live : List ℕ) (n base : ℕ) where
    new_block-at :
        (q : ℕ)
        → n ≤ 1022
        → (new_block bits n base a).heap q ≡ (
            if q == base + 1023
            then link 0
            else if leb (base + 1 + n) q && ltb q (base + 1023)
            then link (q + 1)
            else if q == base
            then link (base + 1 + n)
            else a.heap q)
    unfolding new_block write
    new_block-at q small =
        let rest =
          link_rest-at bits base (1 + n) (1023 - (1 + n)) q
            (write base (link (base + 1 + n)) a.heap) in
        ground (arith, rest)

    new_block-contains :
        (q : ℕ) → contains q (new_block bits n base a).blocks ≡ (base == q || contains q a.blocks)
    unfolding new_block contains
    new_block-contains q = refl

    new_block-Chain :
        n ≤ 1022 → Chain (new_block bits n base a).heap base (range (base + 1 + n) (suc (1022 - n)))
    unfolding Chain range
    new_block-Chain small = (
      ground (arith, new_block-at base small),
      omega arith,
      Chain-range bits (new_block bits n base a).heap (base + 1 + n) (1022 - n)
          (λ j lt. ground (arith, new_block-at (base + 1 + n + j) small))
          (ground (arith, new_block-at (base + 1 + n + (1022 - n)) small)),
    )

    pub Handed-new :
        IsSound a live
        → n ≤ 1022
        → 0 < n
        → IsFresh base a.blocks
        → Handed n live (base + 1, new_block bits n base a)
    unfolding contains
    Handed-new s small some_n (pos, fresh) =
        let b = new_block bits n base a in
        let outside : (q : ℕ) → base ≤ q → q < base + 1024 → contains q live ≡ false = λ q lo hi.
          absent (contains q live) (λ h.
            let (c, m, low, high) = s.owned q h in let far = fresh c m in absurd (omega arith)) in
        let old : (c : ℕ) → base ≢ c → contains c b.blocks ≡ true → contains c a.blocks ≡ true =
          λ c apart h. ground (arith, new_block-contains c, h) in
        let known : contains base b.blocks ≡ true = ground (arith, new_block-contains base) in
        record {
          given = omega arith;
          unused = λ j lt. outside (base + 1 + j) (omega arith) (omega arith);
          block = base;
          known = known;
          low = omega arith;
          high = omega arith;
          sound = record {
            good = λ c mc. elim (ℕ_discrete base c) [
              | yes same ↦ subst (Block b.heap (range (base + 1) n ++ live)) same (record {
                free = range (base + 1 + n) (suc (1022 - n));
                chain = new_block-Chain small;
                once = NoDup-range (base + 1 + n) (suc (1022 - n));
                inside = λ q h.
                    let i = contains-range q (base + 1 + n) (suc (1022 - n)) in
                    (ground (arith, i, h), ground (arith, i, h));
                idle = λ q h.
                    let i = contains-range q (base + 1 + n) (suc (1022 - n)) in
                    let none_live = outside q (ground (arith, i, h)) (ground (arith, i, h)) in
                    ground (arith, used_range q (base + 1) n live, none_live, i, h);
                head =
                    let none_live = outside base (omega arith) (omega arith) in
                    ground (arith, used_range base (base + 1) n live, none_live);
              })
              | no other ↦
                  let far = fresh c (old c other mc) in
                  Block_elsewhere a.heap b.heap live (range (base + 1) n ++ live) c
                    (λ q lo hi. ground (arith, new_block-at q small, far))
                    (λ q lo hi h. ground (arith, used_range q (base + 1) n live, h, far))
                    (s.good c (old c other mc))
            ];
            apart = λ c d mc md other. elim (ℕ_discrete base c) [
              | yes same ↦
                  let far = fresh d (old d (λ e. other (sym same ∙ e)) md) in
                  subst (λ c. IsApart c d) same far
              | no first ↦ elim (ℕ_discrete base d) [
                | yes same ↦ let far = fresh c (old c first mc) in ground arith
                | no second ↦ s.apart c d (old c first mc) (old d second md) other
              ]
            ];
            owned = λ q h. elim (Bool-cases (leb (base + 1) q && ltb q (base + 1 + n))) [
              | inl new ↦ (base, known, ground arith, ground arith)
              | inr gone ↦
                  let (c, m, low, high) =
                    s.owned q (ground (arith, used_range q (base + 1) n live, h, gone)) in
                  (c, ground (arith, new_block-contains c, m), low, high)
            ];
          };
        }
