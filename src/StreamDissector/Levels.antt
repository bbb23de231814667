-- ===== src/StreamDissector/Levels.antt =====
-- The levels of the layers in `loop` come to an end.
use deplug.Common.{
  ℕ, zero, suc, ◌+◌, ◌≤◌, ◌<◌, ◌≡◌, refl, sym, ◌∙◌, inl, inr, true, false, some, List, [], ◌∷◌,
  ◌++◌, arith, ltb, ◌==◌, Bool-cases, length, some_eq,
}
use deplug.StreamDissector.Steps.{over_induction, over}
use deplug.StreamDissector.Rounds.{rounds-Complete}
use deplug.StreamDissector.{
  Dissector, Layers, Thread, Round, next_children, run_dissector, rounds, first_round, analyze,
  analyze_all, levels, create_workers, close_workers, set_stream,
}

-- All the layers of a list are below a number.
unfoldable pub AreBelow : (ℕ → ℕ) → ℕ → List ℕ → Type 0
AreBelow rank n [] = Unit
AreBelow rank n (x ∷ xs) = (rank x < n) × AreBelow rank n xs

-- A layer's children are below it.
abbrev pub IsRanked : {S : Type 0} → Layers S → (ℕ → ℕ) → Type 0
IsRanked {S = S} l rank = (layer : ℕ) (s : S) → AreBelow rank (rank layer) (l.layers layer s)

pub AreBelow-append :
    (rank : ℕ → ℕ) (n : ℕ) (xs ys : List ℕ)
    → AreBelow rank n xs
    → AreBelow rank n ys
    → AreBelow rank n (xs ++ ys)
unfolding AreBelow
AreBelow-append rank n [] ys h k = k
AreBelow-append rank n (x ∷ xs) ys (h, hs) k = (h, AreBelow-append rank n xs ys hs k)

AreBelow-next_children :
    (rank : ℕ → ℕ) (n : ℕ) (id_of : ℕ → ℕ) (id : ℕ) (xs : List ℕ)
    → AreBelow rank n xs
    → AreBelow rank n (next_children id_of id xs)
unfolding AreBelow next_children
AreBelow-next_children rank n id_of id [] h = tt
AreBelow-next_children rank n id_of id (x ∷ xs) (h, hs) =
    let rest = AreBelow-next_children rank n id_of id xs hs in
    elim (Bool-cases (id_of x == id)) [ inl e ↦ rw e rest | inr e ↦ rw e (h, rest) ]

module _ {S W : Type 0} (l : Layers S) (no_worker : W) (threshold : ℕ) where
  module _ (rank : ℕ → ℕ) where
    module _ (ranked : IsRanked l rank) (n : ℕ) where
      AreBelow-mono : (m : ℕ) (xs : List ℕ) → m ≤ n → AreBelow rank m xs → AreBelow rank n xs
      unfolding AreBelow
      AreBelow-mono m [] le h = tt
      AreBelow-mono m (x ∷ xs) le (h, hs) = (omega arith, AreBelow-mono m xs le hs)

      run-AreBelow :
          (diss : Dissector S W) (place : ℕ) (w : W) (layer id : ℕ) (r : Round S W)
          → rank layer ≤ n
          → AreBelow rank n r.next
          → AreBelow rank n (run_dissector l no_worker threshold diss place w layer id r).next
      unfolding run_dissector
      run-AreBelow diss place w layer id r le h =
          elim (Bool-cases (ltb (diss.examine w layer r.ctx).0 threshold)) [
            | inl e ↦ rw e h
            | inr e ↦
                let after = diss.analyze w layer (diss.examine w layer r.ctx).1 in
                let children = l.layers layer after.world in
                rw e (
                  AreBelow-append rank n r.next
                    (next_children (λ c. l.id c after.world) id children) h
                    (AreBelow-next_children rank n (λ c. l.id c after.world) id children
                      (AreBelow-mono (rank layer) children le (ranked layer after.world))))
          ]

      module _ (dissectors : List (Dissector S W)) (layer id : ℕ) (m : List (ℕ × W)) where
        rounds-AreBelow :
            (k : ℕ) (r last : Round S W)
            → rank layer ≤ n
            → AreBelow rank n r.next
            → rounds l no_worker threshold dissectors layer id m k r ≡ some last
            → AreBelow rank n last.next
        unfolding rounds
        rounds-AreBelow zero r last le h e = absurd (cc)
        rounds-AreBelow (suc k) r last le h e =
            let tags = l.tags layer r.ctx.world in
            let after =
              over l no_worker threshold dissectors tags layer id m
                (record r { dissectable = false }) in
            let below : AreBelow rank n after.next =
              over_induction l no_worker threshold dissectors tags layer id
                (λ r. AreBelow rank n r.next)
                (λ diss place w r new h.
                  run-AreBelow diss place w layer id
                    (record r { used = place ∷ r.used; dissectable = true }) le h)
                m (record r { dissectable = false }) h in
            elim (Bool-cases (after.dissectable)) [
              | inl on ↦ rounds-AreBelow k after last le below (sym (rw (rounds, on)) ∙ e)
              | inr off ↦
                  let same : after ≡ last = some_eq (sym (rw (rounds, off)) ∙ e) in
                  rw (← same) below
            ]

      analyze-AreBelow :
          (layer : ℕ) (next : List ℕ) (t : Thread S W)
          → rank layer ≤ n
          → AreBelow rank n next
          → (after : List ℕ) × (u : Thread S W) × (analyze l no_worker threshold layer next t
              ≡ some (after, u))
            × AreBelow rank n after
      unfolding analyze first_round
      analyze-AreBelow layer next t le h =
          let id = l.id layer t.ctx.world in
          let worker = l.worker layer t.ctx.world in
          let made =
            create_workers l no_worker threshold t.dissectors 0 (t.workers id worker) t.ctx in
          let c = rounds-Complete l no_worker threshold t.dissectors layer id made.0 next made.1 in
          let closing =
            close_workers l no_worker threshold t.dissectors c.ended.closed made.0 c.ended.ctx in
          (
            c.ended.next,
            record t { workers = set_stream id worker closing.0 t.workers; ctx = closing.1 },
            rw (analyze, c.returns),
            rounds-AreBelow t.dissectors layer id made.0 (length made.0 + 1)
                (first_round l no_worker threshold next made.1) c.ended le h c.returns,
          )

      analyze_all-AreBelow :
          (layers next : List ℕ) (t : Thread S W)
          → AreBelow rank (suc n) layers
          → AreBelow rank n next
          → (after : List ℕ) × (u : Thread S W) × (analyze_all l no_worker threshold layers next t
              ≡ some (after, u))
            × AreBelow rank n after
      unfolding analyze_all AreBelow
      analyze_all-AreBelow [] next t hs h = (next, t, refl, h)
      analyze_all-AreBelow (layer ∷ layers) next t (le, hs) h =
          let (mid, u, e, h') = analyze-AreBelow layer next t (omega arith) h in
          let (after, v, f, k) = analyze_all-AreBelow layers mid u hs h' in
          (after, v, rw (analyze_all, e) f, k)

    pub levels_return :
        (ranked : IsRanked l rank) (depth : ℕ) (layers : List ℕ) (t : Thread S W)
        → AreBelow rank depth layers
        → (after : Thread S W) × (levels l no_worker threshold depth layers t ≡ some after)
    unfolding levels AreBelow
    levels_return ranked zero [] t h = (t, refl)
    levels_return ranked zero (layer ∷ layers) t h = absurd (omega arith)
    levels_return ranked (suc depth) [] t h = (t, refl)
    levels_return ranked (suc depth) (layer ∷ layers) t h =
        let (next, u, e, below) = analyze_all-AreBelow ranked depth (layer ∷ layers) [] t h tt in
        let (after, f) = levels_return ranked depth next u below in (after, rw (levels, e) f)
