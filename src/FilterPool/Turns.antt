-- ===== src/FilterPool/Turns.antt =====
-- What a filter thread finds in the store, and what it hands to the pool.
use deplug.Common.{
  length-map, ℕ, zero, suc, ◌+◌, ◌-◌, ◌^◌, ◌<◌, min, ◌≡◌, refl, sym, ap, ◌∙◌, ◌⊎◌, inl, inr, Bool,
  ◌&&◌, not, Option, some, List, [], ◌∷◌, arith, ◌==◌, Bool-cases, wrap32, length, get_elem?, take,
  drop, length-take, length-drop, get_elem?_of_lt, drop_of_get_elem?, drop_of_ge,
}
use native.Mathlib.Decide.{dec_lt}
use mathlib.Core.Path.{subst}
use deplug.Layer.Heap.{get_elem?-lt}
use deplug.FrameStore.{FrameStore, stopped, got, dequeue_views, contains, no_thread}
use deplug.FrameStore.Readers.{copy_all}
use deplug.FilterPool.Matches.{IsVerdict, IsBlock}
use deplug.FilterPool.Threads.{verdict, test, ends, idle, calls_back, loop}

views-cases : {V : Type 0} (vs : List V) → (vs ≡ []) ⊎ ((v : V) × (rest : List V) × (vs ≡ v ∷ rest))
views-cases [] = inl refl
views-cases (v ∷ rest) = inr (v, rest, refl)

module _ {F V : Type 0} (index : V → ℕ) (func : Option (V → Option Bool)) (passes : ℕ → Bool) where
  -- The store's views are those of the frames 1, 2, …, and `passes` says what the filter finds.
  pub record IsNumbered (s : FrameStore F V) : Type 0 where
    pub small : length s.views < 2 ^ 32
    pub numbered :
        (i : ℕ) (v : V)
        → get_elem? s.views i ≡ some v
        → (index v ≡ i + 1) × (verdict func v ≡ passes (i + 1))

  test-IsVerdict :
      (s : FrameStore F V) (o n : ℕ)
      → IsNumbered s
      → IsVerdict passes (o + 1) (test func (take n (drop o s.views)))
  unfolding test
  test-IsVerdict s o zero h = tt
  test-IsVerdict s o (suc n) h = elim (dec_lt o (length s.views)) [
    | no past ↦ rw (drop_of_ge o s.views (omega arith)) tt
    | yes p ↦
        let (v, at) = get_elem?_of_lt s.views o p in
        let rest = test-IsVerdict s (suc o) n h in
        let shift : suc o + 1 ≡ o + 1 + 1 = omega arith in
        rw (drop_of_get_elem? s.views o v at) ((h.numbered o v at).1, rw shift at rest)
  ]

  read_cases :
      (id o : ℕ) (s : FrameStore F V)
      → length s.views < 2 ^ 32
      → ((dequeue_views o 2048 id s).0 ≡ stopped)
        ⊎ ((dequeue_views o 2048 id s).0 ≡ got (take 2048 (drop o s.views)))
  unfolding dequeue_views
  read_cases id o s h = elim (Bool-cases (not (id == no_thread) && contains id s.closed_threads)) [
    | inl e ↦ inl (rw e)
    | inr e ↦ elim (Bool-cases (s.closed)) [
      | inl f ↦ inl (rw (e, f))
      | inr f ↦
          inr (rw (e, f) (ap got (copy_all s.views o (wrap32 (length s.views)) 2048 (omega arith))))
    ]
  ]

  first_view :
      (s : FrameStore F V) (o n : ℕ) (v : V) (rest : List V)
      → take n (drop o s.views) ≡ v ∷ rest
      → get_elem? s.views o ≡ some v
  first_view s o zero v rest e = absurd (cc)
  first_view s o (suc n) v rest e = elim (dec_lt o (length s.views)) [
    | no past ↦
        let none_left = drop_of_ge o s.views (omega arith) in
        absurd (let f = sym e ∙ ap (take (suc n)) none_left in cc)
    | yes p ↦
        let (x, at) = get_elem?_of_lt s.views o p in
        let f = ap (take (suc n)) (sym (drop_of_get_elem? s.views o x at)) ∙ e in
        let same : x ≡ v = cc in at ∙ ap some same
  ]

  -- What a turn of the loop does.
  pub loop_cases :
      (id o : ℕ) (s : FrameStore F V)
      → IsNumbered s
      → ((loop index func id o s).0 ≡ ends)
        ⊎ (((loop index func id o s).0 ≡ idle)
            ⊎ ((results : List Bool) × ((loop index func id o s).0 ≡ calls_back (o + 1) results)
                × ((loop index func id o s).1 ≡ o + length results)
                × IsBlock passes (o + 1) results))
  unfolding loop test
  loop_cases id o s h = elim (read_cases id o s h.small) [
    | inl e ↦ inl (rw (loop, e))
    | inr e ↦ elim (views-cases (take 2048 (drop o s.views))) [
      | inl f ↦ inr (inl (rw (loop, e, f)))
      | inr (v, rest, f) ↦
          let results = test func (v ∷ rest) in
          let first = (h.numbered o v (first_view s o 2048 v rest f)).0 in
          let size = length-map (verdict func) (v ∷ rest) in
          let block : IsVerdict passes (o + 1) results =
            subst (λ vs. IsVerdict passes (o + 1) (test func vs)) f (test-IsVerdict s o 2048 h) in
          let room : length (v ∷ rest) ≡ min 2048 (length s.views - o) =
            ap length (sym f)
            ∙ length-take 2048 (drop o s.views)
            ∙ ap (min 2048) (length-drop o s.views) in
          let inside = h.small in
          let at = get_elem?-lt s.views o v (first_view s o 2048 v rest f) in
          inr (
            inr (
              results,
              rw (loop, e, f, first),
              rw (loop, e, f, size),
              (omega arith, omega arith, block),
            ))
    ]
  ]
