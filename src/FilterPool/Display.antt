-- ===== src/FilterPool/Display.antt =====
-- The filter threads and their pool over the views of the frame store: what is displayed.
use deplug.Common.{
  ℕ, zero, suc, ◌+◌, ◌≤◌, max, ◌≡◌, refl, ap, ◌∙◌, inl, inr, Bool, ◌&&◌, Option, some, List, [],
  ◌∷◌, arith, leb, Option-cases, length, get_elem?, set, some_eq,
}
use native.Mathlib.Decide.{dec_lt}
use deplug.FrameStore.{FrameStore}
use deplug.FilterPool.{init, thread_callback}
use deplug.FilterPool.Matches.{Block, covers, AllBlocks, matches}
use deplug.FilterPool.Reorder.{pool_after, pool_after-IsFiltered}
use deplug.FilterPool.Threads.{concurrency, zeros, Threads, start, turn}
use deplug.FilterPool.Turns.{IsNumbered, loop_cases}

-- The offset of the thread that has come furthest.
unfoldable pub furthest : List ℕ → ℕ
furthest [] = 0
furthest (o ∷ os) = max o (furthest os)

furthest-bound : (os : List ℕ) (i o : ℕ) → get_elem? os i ≡ some o → o ≤ furthest os
unfolding furthest
furthest-bound [] i o h = absurd (cc)
furthest-bound (p ∷ os) zero o h = let e = some_eq h in omega arith
furthest-bound (p ∷ os) (suc i) o h = omega (arith, furthest-bound os i o h)

furthest-set :
    (os : List ℕ) (i o v : ℕ)
    → get_elem? os i ≡ some o
    → o ≤ v
    → furthest (set os i v) ≡ max (furthest os) v
unfolding furthest
furthest-set [] i o v h le = absurd (cc)
furthest-set (p ∷ os) zero o v h le = let e = some_eq h in omega arith
furthest-set (p ∷ os) (suc i) o v h le = omega (arith, furthest-set os i o v h le)

furthest-zeros : (n : ℕ) → furthest (zeros n) ≡ 0
unfolding furthest zeros
furthest-zeros zero = refl
furthest-zeros (suc n) = omega (arith, furthest-zeros n)

module _ (passes : ℕ → Bool) where
  -- What the pool has been given: for each frame up to the furthest thread's offset, its verdict.
  pub record IsDelivered (t : Threads) : Type 0 where
    pub blocks : List Block
    pub given : t.pool ≡ pool_after blocks
    pub all : AllBlocks passes blocks
    pub covered : (k : ℕ) → covers k blocks ≡ (leb 1 k && leb k (furthest t.offsets))

  furthest-start : (option hardware : ℕ) → IsDelivered (start option hardware init)
  unfolding start pool_after covers
  furthest-start option hardware = record {
    blocks = [];
    given = refl;
    all = tt;
    covered = λ k. ground (arith, furthest-zeros (concurrency option hardware));
  }

  displayed :
      (t : Threads)
      → IsDelivered t
      → (t.pool.max_seq ≡ furthest t.offsets)
        × (t.pool.frames ≡ matches passes (furthest t.offsets))
  displayed t d =
      let p = pool_after d.blocks in
      let far = furthest t.offsets in
      let f = pool_after-IsFiltered passes d.blocks d.all in
      let seq : t.pool.max_seq ≡ p.max_seq = ap (λ p. p.max_seq) d.given in
      let above = d.covered (p.max_seq + 1) in
      let low : far ≤ p.max_seq = ground (arith, f.gap, above) in
      let same : p.max_seq ≡ far = (elim (dec_lt far p.max_seq) [
        | no le ↦ omega arith
        | yes lt ↦
            let full = f.filled p.max_seq (omega arith) (omega arith) in
            let there = d.covered p.max_seq in absurd (ground arith)
      ]) in
      (seq ∙ same, ap (λ p. p.frames) d.given ∙ f.listed ∙ ap (matches passes) same)

module _ {F V : Type 0} (index : V → ℕ) (func : Option (V → Option Bool)) (passes : ℕ → Bool) where
  turn-IsDelivered :
      (i id : ℕ) (s : FrameStore F V) (t : Threads)
      → IsNumbered index func passes s
      → IsDelivered passes t
      → IsDelivered passes (turn index func i id s t)
  unfolding turn pool_after covers
  turn-IsDelivered i id s t h d = elim (Option-cases (get_elem? t.offsets i)) [
    | inl e ↦ rw (turn, e) d
    | inr (o, e) ↦ elim (loop_cases index func passes id o s h) [
      | inl f ↦ rw (turn, e, f) d
      | inr (inl f) ↦ rw (turn, e, f) d
      | inr (inr (results, f, g, block)) ↦
          rw (turn, e, f, g)
            (record {
              blocks = (o + 1, results) ∷ d.blocks;
              given = ap (thread_callback (o + 1) results) d.given;
              all = (block, d.all);
              covered = λ k.
                  let behind = furthest-bound t.offsets i o e in
                  let far = furthest-set t.offsets i o (o + length results) e (omega arith) in
                  rw (far, d.covered k) (ground arith);
            })
    ]
  ]

  -- Turns of the threads: the thread, its id, and the store as it is then.
  abbrev pub AllNumbered : List (ℕ × ℕ × FrameStore F V) → Type 0
  AllNumbered [] = Unit {0}
  AllNumbered ((i, id, s) ∷ turns) = IsNumbered index func passes s × AllNumbered turns

  unfoldable pub run : List (ℕ × ℕ × FrameStore F V) → Threads → Threads
  unfolding turn
  run [] t = t
  run ((i, id, s) ∷ turns) t = run turns (turn index func i id s t)

  run-IsDelivered :
      (turns : List (ℕ × ℕ × FrameStore F V)) (t : Threads)
      → AllNumbered turns
      → IsDelivered passes t
      → IsDelivered passes (run turns t)
  unfolding run
  run-IsDelivered [] t h d = d
  run-IsDelivered ((i, id, s) ∷ turns) t (now, h) d =
      run-IsDelivered turns (turn index func i id s t) h (turn-IsDelivered i id s t now d)

  -- The filter threads of a pool, with any number of them, each going through its loop at any times on
  -- the store as it is then, whose views are those of the frames 1, 2, …: the pool has come as far
  -- as the thread that has read most, and its frames are those up to there that pass, in ascending
  -- order and each once. A frame passes if the script's function gives `true` for it; if the script
  -- gives no function or the function throws, it does not.
  pub run-displayed :
      (option hardware : ℕ) (turns : List (ℕ × ℕ × FrameStore F V))
      → AllNumbered turns
      → ((run turns (start option hardware init)).pool.max_seq
          ≡ furthest (run turns (start option hardware init)).offsets)
        × ((run turns (start option hardware init)).pool.frames
            ≡ matches passes (furthest (run turns (start option hardware init)).offsets))
  run-displayed option hardware turns h =
      displayed passes (run turns (start option hardware init)) (
        run-IsDelivered turns (start option hardware init) h
          (furthest-start passes option hardware))
