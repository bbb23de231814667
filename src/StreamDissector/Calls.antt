-- ===== src/StreamDissector/Calls.antt =====
-- What the calls of the dissectors do, one after the other: a description of the rounds of `analyze`
-- by the sequence of these calls alone.
use deplug.Common.{
  ℕ, ◌≡◌, refl, sym, ap, ◌∙◌, inl, inr, Bool, true, false, none, some, List, [], ◌∷◌, ◌++◌, ltb,
  if◌then◌else◌, Bool-cases, get_elem?, append-nil, append_assoc,
}
use mathlib.Core.Path.{subst}
use deplug.StreamDissector.Steps.{over_step, run-used}
use deplug.StreamDissector.{
  Ctx, Dissector, Layers, hints_match, next_children, Round, run_dissector, dissect, first_round,
}

module _ {S W : Type 0} (l : Layers S) (threshold layer id : ℕ) where
  -- What one call leaves: the dissector analyses the layer if its examination is confident enough.
  unfoldable pub context_after : Dissector S W → W → Ctx S → Ctx S
  context_after diss w ctx =
      let examined = diss.examine w layer ctx in
      if ltb examined.0 threshold
      then examined.1
      else record { close_stream = false; world = (diss.analyze w layer examined.1).world }

  unfoldable pub closes_stream : Dissector S W → W → Ctx S → Bool
  closes_stream diss w ctx =
      let examined = diss.examine w layer ctx in
      if ltb examined.0 threshold then false else (diss.analyze w layer examined.1).close_stream

  unfoldable pub children_after : Dissector S W → W → Ctx S → List ℕ
  children_after diss w ctx =
      let examined = diss.examine w layer ctx in
      let after = diss.analyze w layer examined.1 in
      if ltb examined.0 threshold
      then []
      else next_children (λ c. l.id c after.world) id (l.layers layer after.world)

  -- The calls so far, the latest first: each with the dissector's place and its worker.
  unfoldable pub places : List (ℕ × W) → List ℕ
  places [] = []
  places ((place, w) ∷ calls) = place ∷ places calls

  module _ (dissectors : List (Dissector S W)) (start : Ctx S) where
    unfoldable pub context : List (ℕ × W) → Ctx S
    unfolding context_after
    context [] = start
    context ((place, w) ∷ calls) =
        let before = context calls in
        elim (get_elem? dissectors place) [
          | none ↦ before
          | some diss ↦ context_after diss w before
        ]

    -- The calls that asked for the end of the stream, the first first.
    unfoldable pub closers : List (ℕ × W) → List (ℕ × W)
    unfolding closes_stream context
    closers [] = []
    closers ((place, w) ∷ calls) =
        let earlier = closers calls in
        elim (get_elem? dissectors place) [
          | none ↦ earlier
          | some diss ↦
              if closes_stream diss w (context calls) then earlier ++ (place, w) ∷ [] else earlier
        ]

    -- The layers that the calls leave for the next level.
    unfoldable pub children : List (ℕ × W) → List ℕ
    unfolding children_after context
    children [] = []
    children ((place, w) ∷ calls) =
        let earlier = children calls in
        elim (get_elem? dissectors place) [
          | none ↦ earlier
          | some diss ↦ earlier ++ children_after diss w (context calls)
        ]

-- Each call is of a dissector whose hints the layer's tags have, as they are after some of the calls
-- before.
abbrev pub AreChosen :
    {S W : Type 0} → Layers S → ℕ → ℕ → ℕ → List (Dissector S W) → Ctx S → List (ℕ × W) → Type 0
AreChosen l threshold layer id dissectors start [] = Unit {0}
AreChosen {S} {W} l threshold layer id dissectors start ((place, w) ∷ calls) =
    ((diss : Dissector S W) × (get_elem? dissectors place ≡ some diss)
      × (late early : List (ℕ × W)) × (late ++ early ≡ calls)
      × (hints_match (l.tags layer (context l threshold layer id dissectors start early).world)
            diss.layer_hints false
          ≡ true))
    × AreChosen l threshold layer id dissectors start calls

-- The calls are of workers that the stream has, each of its own dissector.
abbrev pub AreWorkers : {W : Type 0} → List (ℕ × W) → List (ℕ × W) → Type 0
AreWorkers {W} m [] = Unit {0}
AreWorkers {W} m (call ∷ calls) =
    ((before after : List (ℕ × W)) × (before ++ call ∷ after ≡ m)) × AreWorkers m calls

module _ {S W : Type 0} (l : Layers S) (no_worker : W) (threshold : ℕ)
    (dissectors : List (Dissector S W)) (layer id : ℕ) where
  run-context :
      (diss : Dissector S W) (place : ℕ) (w : W) (r : Round S W)
      → (run_dissector l no_worker threshold diss place w layer id r).ctx
        ≡ context_after l threshold layer id diss w r.ctx
  unfolding run_dissector context_after
  run-context diss place w r = elim (Bool-cases (ltb (diss.examine w layer r.ctx).0 threshold)) [
    | inl e ↦ rw e
    | inr e ↦ rw e
  ]

  run-closed :
      (diss : Dissector S W) (place : ℕ) (w : W) (r : Round S W)
      → (run_dissector l no_worker threshold diss place w layer id r).closed ≡ (
          if closes_stream l threshold layer id diss w r.ctx
          then r.closed ++ (place, w) ∷ []
          else r.closed)
  unfolding run_dissector closes_stream
  run-closed diss place w r = elim (Bool-cases (ltb (diss.examine w layer r.ctx).0 threshold)) [
    | inl e ↦ rw e
    | inr e ↦ rw e
  ]

  run-next :
      (diss : Dissector S W) (place : ℕ) (w : W) (r : Round S W)
      → (run_dissector l no_worker threshold diss place w layer id r).next
        ≡ r.next ++ children_after l threshold layer id diss w r.ctx
  unfolding run_dissector children_after
  run-next diss place w r = elim (Bool-cases (ltb (diss.examine w layer r.ctx).0 threshold)) [
    | inl e ↦ rw e (sym (append-nil r.next))
    | inr e ↦ rw e
  ]

  -- The layer's tags after some calls.
  abbrev tags_after : Ctx S → List (ℕ × W) → List ℕ
  tags_after start calls = l.tags layer (context l threshold layer id dissectors start calls).world

  -- What the rounds have come to is what the calls come to.
  pub record IsTold (m : List (ℕ × W)) (start : Ctx S) (next : List ℕ) (r : Round S W)
      : Type 0 where
    pub calls : List (ℕ × W)
    pub workers : AreWorkers m calls
    pub chosen : AreChosen l threshold layer id dissectors start calls
    pub used : r.used ≡ places l threshold layer id calls
    pub reached : r.ctx ≡ context l threshold layer id dissectors start calls
    pub closed : r.closed ≡ closers l threshold layer id dissectors start calls
    pub found : r.next ≡ next ++ children l threshold layer id dissectors start calls

  IsTold-run :
      (m before after : List (ℕ × W)) (start : Ctx S) (next : List ℕ) (diss : Dissector S W)
      (place : ℕ) (w : W) (r : Round S W) (t : IsTold m start next r) (late early : List (ℕ × W))
      → before ++ (place, w) ∷ after ≡ m
      → get_elem? dissectors place ≡ some diss
      → late ++ early ≡ t.calls
      → hints_match (tags_after start early) diss.layer_hints false ≡ true
      → (u : IsTold m start next (
          run_dissector l no_worker threshold diss place w layer id
            (record r { used = place ∷ r.used; dissectable = true })))
        × (((place, w) ∷ late) ++ early ≡ u.calls)
  unfolding places context closers children
  IsTold-run m before after start next diss place w r t late early there at since hit =
      let marked = record r { used = place ∷ r.used; dissectable = true } in
      let here = context l threshold layer id dissectors start t.calls in
      let earlier = children l threshold layer id dissectors start t.calls in
      (
        record {
          calls = (place, w) ∷ t.calls;
          workers = ((before, after, there), t.workers);
          chosen = ((diss, at, late, early, since, hit), t.chosen);
          used =
              run-used l no_worker threshold diss place w layer id marked ∙ ap (◌∷◌ place) t.used;
          reached =
              run-context diss place w marked
              ∙ ap (context_after l threshold layer id diss w) t.reached
              ∙ sym (rw (context, at) refl);
          closed =
              run-closed diss place w marked
              ∙ ap
                  (λ c.
                    if closes_stream l threshold layer id diss w c
                    then r.closed ++ (place, w) ∷ []
                    else r.closed)
                  t.reached
              ∙ ap
                  (λ c.
                    if closes_stream l threshold layer id diss w here
                    then c ++ (place, w) ∷ []
                    else c)
                  t.closed
              ∙ sym (rw (closers, at) refl);
          found =
              run-next diss place w marked
              ∙ ap (λ c. r.next ++ children_after l threshold layer id diss w c) t.reached
              ∙ ap (λ n. n ++ children_after l threshold layer id diss w here) t.found
              ∙ append_assoc next earlier (children_after l threshold layer id diss w here)
              ∙ sym (rw (children, at) refl);
        },
        ap (◌∷◌ (place, w)) since,
      )

  IsTold-from :
      (m before : List (ℕ × W)) (start : Ctx S) (next : List ℕ) (ws : List (ℕ × W)) (r : Round S W)
      (t : IsTold m start next r) (late early : List (ℕ × W))
      → before ++ ws ≡ m
      → late ++ early ≡ t.calls
      → IsTold m start next
          (dissect l no_worker threshold dissectors (tags_after start early) layer id ws r)
  unfolding dissect
  IsTold-from m before start next [] r t late early there since = t
  IsTold-from m before start next ((place, w) ∷ ws) r t late early there since =
      let tags = tags_after start early in
      let on = append_assoc before ((place, w) ∷ []) ws ∙ there in
      elim (over_step l no_worker threshold dissectors tags layer id place w ws r) [
        | inl (e, skipped) ↦
            subst (IsTold m start next) (sym e)
              (IsTold-from m (before ++ (place, w) ∷ []) start next ws r t late early on since)
        | inr (diss, at, new, e, hit) ↦
            let marked = record r { used = place ∷ r.used; dissectable = true } in
            let (u, since') =
              IsTold-run m before ws start next diss place w r t late early there at since hit in
            subst (IsTold m start next) (sym e) (
              IsTold-from m (before ++ (place, w) ∷ []) start next ws
                (run_dissector l no_worker threshold diss place w layer id marked) u
                ((place, w) ∷ late) early on since')
      ]

  -- One round over the workers.
  pub IsTold-over :
      (m : List (ℕ × W)) (start : Ctx S) (next : List ℕ) (r : Round S W)
      → IsTold m start next r
      → IsTold m start next (
          dissect l no_worker threshold dissectors
            (l.tags layer r.ctx.world)
            layer
            id
            m
            (record r { dissectable = false }))
  IsTold-over m start next r t =
      let begun : IsTold m start next (record r { dissectable = false }) = record {
        calls = t.calls;
        workers = t.workers;
        chosen = t.chosen;
        used = t.used;
        reached = t.reached;
        closed = t.closed;
        found = t.found;
      } in
      subst
        (λ c. IsTold m start next (
          dissect l no_worker threshold dissectors (l.tags layer c.world) layer id m
            (record r { dissectable = false })))
        (sym t.reached)
        (IsTold-from m [] start next m (record r { dissectable = false }) begun [] t.calls refl
          refl)

  pub IsTold-first :
      (m : List (ℕ × W)) (start : Ctx S) (next : List ℕ)
      → IsTold m start next (first_round l no_worker threshold next start)
  unfolding first_round places context closers children
  IsTold-first m start next = record {
    calls = [];
    workers = tt;
    chosen = tt;
    used = refl;
    reached = refl;
    closed = refl;
    found = sym (append-nil next);
  }
