-- ===== src/Allocator/Blocks.antt =====
-- The blocks of the allocator, each with its free list, and the chunks that are in use.
use deplug.Common.{
  ℕ, ◌+◌, ◌≤◌, ◌<◌, ◌≡◌, refl, sym, ap, ◌∙◌, ◌≢◌, ◌⊎◌, inl, inr, Bool, true, false, List, [], ◌∷◌,
  arith, ◌==◌, Bool-cases,
}
use deplug.FrameStore.{contains}
use deplug.Allocator.{Cell, BlockAllocator, write}
use deplug.Allocator.Chains.{Chain, NoDup, Chain-write}

-- What holds of the block at `b`: its free list is inside it and has nothing that is in use.
pub record Block {T : Type 0} (heap : ℕ → Cell T) (live : List ℕ) (b : ℕ) : Type 0 where
  pub free : List ℕ
  pub chain : Chain heap b free
  pub once : NoDup free
  pub inside : (q : ℕ) → contains q free ≡ true → (b < q) × (q < b + 1024)
  pub idle : (q : ℕ) → contains q free ≡ true → contains q live ≡ false
  pub head : contains b live ≡ false

abbrev pub IsApart : ℕ → ℕ → Type 0
IsApart b c = (b + 1024 ≤ c) ⊎ (c + 1024 ≤ b)

-- Memory that `RootAllocator::allocate` may give: not null, and not part of an earlier block.
abbrev pub IsFresh : ℕ → List ℕ → Type 0
IsFresh base blocks = (0 < base) × ((c : ℕ) → contains c blocks ≡ true → IsApart base c)

pub record IsSound {T : Type 0} (a : BlockAllocator T) (live : List ℕ) : Type 0 where
  pub good : (b : ℕ) → contains b a.blocks ≡ true → Block a.heap live b
  pub apart :
      (b c : ℕ) → contains b a.blocks ≡ true → contains c a.blocks ≡ true → b ≢ c → IsApart b c
  pub owned :
      (p : ℕ)
      → contains p live ≡ true
      → (b : ℕ) × (contains b a.blocks ≡ true) × (b < p) × (p < b + 1024)

pub absent : (t : Bool) → (t ≡ true → ⊥) → t ≡ false
absent true h = absurd (h refl)
absent false h = refl

module _ {T : Type 0} where
  pub head-free :
      (heap : ℕ → Cell T) (live : List ℕ) (b : ℕ) (k : Block heap live b)
      → contains b k.free ≡ false
  head-free heap live b k =
      absent (contains b k.free) (λ h. let i = k.inside b h in absurd (omega arith))

  Chain-agree :
      (heap other : ℕ → Cell T) (p : ℕ) (fs : List ℕ)
      → ((q : ℕ) → contains q (p ∷ fs) ≡ true → other q ≡ heap q)
      → Chain heap p fs
      → Chain other p fs
  unfolding Chain contains
  Chain-agree heap other p [] same h = same p (ground arith) ∙ h
  Chain-agree heap other p (x ∷ fs) same (e, pos, h) = (
    same p (ground arith) ∙ e,
    pos,
    Chain-agree heap other x fs (λ q m. same q (ground (arith, m))) h,
  )

  -- A block that an operation does not touch.
  pub Block_elsewhere :
      (heap other : ℕ → Cell T) (live now : List ℕ) (b : ℕ)
      → ((q : ℕ) → b ≤ q → q < b + 1024 → other q ≡ heap q)
      → ((q : ℕ) → b ≤ q → q < b + 1024 → contains q live ≡ false → contains q now ≡ false)
      → Block heap live b
      → Block other now b
  unfolding contains
  Block_elsewhere heap other live now b same still k = record {
    free = k.free;
    chain =
        Chain-agree heap other b k.free
          (λ q m. elim (Bool-cases (b == q)) [
            | inl e ↦ same q (ground arith) (ground arith)
            | inr e ↦
                let i = k.inside q (ground (arith, m, e)) in same q (omega arith) (omega arith)
          ])
          k.chain;
    once = k.once;
    inside = k.inside;
    idle = λ q m. let i = k.inside q m in still q (omega arith) (omega arith) (k.idle q m);
    head = still b (omega arith) (omega arith) k.head;
  }

  -- What the program does with its own chunks leaves the blocks sound.
  pub stores-IsSound :
      (a : BlockAllocator T) (live : List ℕ) (p : ℕ) (c : Cell T)
      → IsSound a live
      → contains p live ≡ true
      → IsSound (record a { heap = write p c a.heap }) live
  unfolding contains
  stores-IsSound a live p c s used = record {
    good = λ b m.
        let k = s.good b m in
        record {
          free = k.free;
          chain =
              Chain-write (λ c. 0) a.heap p b c k.free
                (absent (contains p (b ∷ k.free)) (λ h. elim (Bool-cases (b == p)) [
                  | inl e ↦
                      let same : b ≡ p = ground arith in
                      absurd (let out = ap (λ b. contains b live) (sym same) ∙ k.head in cc)
                  | inr e ↦ let out = k.idle p (ground (arith, h, e)) in absurd (cc)
                ]))
                k.chain;
          once = k.once;
          inside = k.inside;
          idle = k.idle;
          head = k.head;
        };
    apart = s.apart;
    owned = s.owned;
  }
