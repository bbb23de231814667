-- ===== src/StreamDissector/Loop.antt =====
-- What the thread tells the pool when it has gone through the layers that it took.
use deplug.Common.{
  ℕ, suc, ◌≤◌, max, ◌≡◌, refl, sym, ap, ◌∙◌, ◌⊎◌, inl, inr, true, false, some, List, [], ◌∷◌, arith,
  ◌==◌, Bool-cases, Option-cases, take,
}
use native.Mathlib.Decide.{dec_lt}
use deplug.Queue.{dequeue}
use deplug.Queue.Fifo.{dequeue_open, dequeue-closed}
use deplug.FrameStore.{contains}
use deplug.StreamDissector.Workers.{place_is}
use deplug.StreamDissector.Levels.{AreBelow, IsRanked, levels_return}
use deplug.StreamDissector.{Layers, Thread, levels, max_frame_index, loop, ends, idle, calls_back}

-- The index that the callback gets: no frame of the layers has a higher one, and it is that of one
-- of them if it is not 0.
abbrev pub IsHighest : {S : Type 0} → Layers S → List ℕ → S → ℕ → Type 0
IsHighest l layers s index =
    ((layer i : ℕ) → contains layer layers ≡ true → l.frame_index layer s ≡ some i → i ≤ index)
    × ((index ≡ 0)
        ⊎ ((layer : ℕ) × (contains layer layers ≡ true) × (l.frame_index layer s ≡ some index)))

module _ {S W : Type 0} (l : Layers S) (no_worker : W) (threshold : ℕ) where
  module _ (s : S) where
    index_bound :
        (layers : List ℕ) (index : ℕ) → index ≤ max_frame_index l no_worker threshold layers s index
    unfolding max_frame_index
    index_bound [] index = omega arith
    index_bound (layer ∷ layers) index = elim (Option-cases (l.frame_index layer s)) [
      | inl e ↦ rw (e, max_frame_index) (index_bound layers index)
      | inr (i, e) ↦ rw (e, max_frame_index) (omega (arith, index_bound layers (max index i)))
    ]

    index_covers :
        (layers : List ℕ) (index layer i : ℕ)
        → contains layer layers ≡ true
        → l.frame_index layer s ≡ some i
        → i ≤ max_frame_index l no_worker threshold layers s index
    unfolding max_frame_index contains
    index_covers [] index layer i h at = absurd (cc)
    index_covers (k ∷ layers) index layer i h at = elim (Bool-cases (k == layer)) [
      | inl e ↦
          let here : l.frame_index k s ≡ some i =
            ap (λ k. l.frame_index k s) (place_is k layer e) ∙ at in
          rw (here, max_frame_index) (omega (arith, index_bound layers (max index i)))
      | inr e ↦
          let there : contains layer layers ≡ true = ground (arith, h, e) in
          elim (Option-cases (l.frame_index k s)) [
            | inl f ↦ rw (f, max_frame_index) (index_covers layers index layer i there at)
            | inr (j, f) ↦
                rw (f, max_frame_index) (index_covers layers (max index j) layer i there at)
          ]
    ]

    index_attained :
        (layers : List ℕ) (index : ℕ)
        → (max_frame_index l no_worker threshold layers s index ≡ index)
          ⊎ ((layer : ℕ) × (contains layer layers ≡ true)
              × (l.frame_index layer s
                  ≡ some (max_frame_index l no_worker threshold layers s index)))
    unfolding max_frame_index contains
    index_attained [] index = inl refl
    index_attained (k ∷ layers) index =
        let here : contains k (k ∷ layers) ≡ true = ground arith in
        elim (Option-cases (l.frame_index k s)) [
          | inl f ↦ elim (index_attained layers index) [
            | inl same ↦ inl (rw (f, max_frame_index) same)
            | inr (layer, h, at) ↦ inr (layer, ground arith, rw (f, max_frame_index) at)
          ]
          | inr (j, f) ↦ elim (index_attained layers (max index j)) [
            | inr (layer, h, at) ↦ inr (layer, ground arith, rw (f, max_frame_index) at)
            | inl same ↦ elim (dec_lt index j) [
              | yes lt ↦
                  let new : max index j ≡ j = omega arith in
                  inr (k, here, rw (f, max_frame_index) (ap some (sym (same ∙ new))))
              | no ge ↦
                  let old : max index j ≡ index = omega arith in
                  inl (rw (f, max_frame_index) (same ∙ old))
            ]
          ]
        ]

  List-cases : (xs : List ℕ) → (xs ≡ []) ⊎ ((y : ℕ) × (ys : List ℕ) × (xs ≡ y ∷ ys))
  List-cases [] = inl refl
  List-cases (y ∷ ys) = inr (y, ys, refl)

  take_nil : (n : ℕ) (xs : List ℕ) → take (suc n) xs ≡ [] → xs ≡ []
  take_nil n [] e = refl
  take_nil n (x ∷ xs) e = absurd (cc)

  -- If the layers' nesting is limited by the number of levels, `loop` returns: with `false` when the
  -- queue is closed, without a callback when nothing is in it, and else after one callback, with the
  -- highest index of the frames of the layers taken.
  pub loop-returns :
      (rank : ℕ → ℕ)
      → IsRanked l rank
      → (depth : ℕ) (t : Thread S W) → AreBelow rank depth (take 2048 t.queue.buf)
      → ((t.queue.closed ≡ true) × (loop l no_worker threshold depth t ≡ some ends))
        ⊎ (((t.queue.closed ≡ false)
              × (t.queue.buf ≡ [])
              × (u : Thread S W) × (loop l no_worker threshold depth t ≡ some (idle u)))
            ⊎ ((t.queue.closed ≡ false)
                × (index : ℕ) × (after : Thread S W) × (loop l no_worker threshold depth t
                    ≡ some (calls_back index after))
                × IsHighest l (take 2048 t.queue.buf) t.ctx.world index))
  unfolding loop
  loop-returns rank ranked depth t below = elim (Bool-cases (t.queue.closed)) [
    | inl c ↦ inl (c, rw (loop, dequeue-closed 2048 t.queue c))
    | inr o ↦
        let out = (dequeue_open 2048 t.queue o).0 in
        let u = record t { queue = (dequeue 2048 t.queue).1 } in
        inr (elim (List-cases (take 2048 t.queue.buf)) [
          | inl e ↦ inl (o, take_nil 2047 t.queue.buf e, u, rw (loop, out, e))
          | inr (layer, layers, e) ↦
              let taken = take 2048 t.queue.buf in
              let s = t.ctx.world in
              let (after, f) =
                levels_return l no_worker threshold rank ranked depth taken u below in
              let g : levels l no_worker threshold depth (layer ∷ layers) u ≡ some after =
                ap (λ xs. levels l no_worker threshold depth xs u) (sym e) ∙ f in
              inr (
                o,
                max_frame_index l no_worker threshold taken s 0,
                after,
                rw (loop, out, e, g),
                (λ k i h at. index_covers s taken 0 k i h at, index_attained s taken 0),
              )
        ])
  ]
