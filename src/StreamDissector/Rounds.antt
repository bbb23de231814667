-- ===== src/StreamDissector/Rounds.antt =====
-- The rounds of `analyze` over the workers of a stream: they end, no dissector runs twice, and none
-- that matches is left out.
use deplug.Common.{
  ℕ, zero, suc, ◌+◌, ◌<◌, ◌≡◌, refl, sym, ap, ◌∙◌, inl, inr, true, false, Option, some, List, [],
  ◌∷◌, arith, ltb, ◌==◌, Bool-cases, Option-cases, length, get_elem?,
}
use mathlib.Core.Path.{subst}
use deplug.FrameStore.{contains}
use deplug.Dissector.Rounds.{count, IsOnce}
use deplug.StreamDissector.Workers.{find-append, place_is}
use deplug.StreamDissector.Steps.{
  left, left-bound, left_fewer, over_step, grows, chooses, IsOnce-over, quiet,
}
use deplug.StreamDissector.Calls.{IsTold, IsTold-over, IsTold-first}
use deplug.StreamDissector.{
  Ctx, Dissector, Layers, find, hints_match, Round, run_dissector, dissect, rounds, first_round,
}

module _ {S W : Type 0} (l : Layers S) (no_worker : W) (threshold : ℕ) where
  module _ (dissectors : List (Dissector S W)) (layer id : ℕ) (m : List (ℕ × W)) where
    -- How the rounds end.
    pub record Complete (next : List ℕ) (start : Ctx S) (result : Option (Round S W)) : Type 0 where
      pub ended : Round S W
      pub returns : result ≡ some ended
      pub told : IsTold l no_worker threshold dissectors layer id m start next ended
      pub once : IsOnce ended.used
      pub valid :
          (d : ℕ) (w : W)
          → find d ended.closed ≡ some w
          → (diss : Dissector S W) × (get_elem? dissectors d ≡ some diss)
      pub complete :
          (d : ℕ) (w : W) (diss : Dissector S W)
          → find d m ≡ some w
          → get_elem? dissectors d ≡ some diss
          → hints_match (l.tags layer ended.ctx.world) diss.layer_hints false ≡ true
          → contains d ended.used ≡ true

    abbrev pub IsValid : Round S W → Type 0
    IsValid r =
        (d : ℕ) (w : W)
        → find d r.closed ≡ some w
        → (diss : Dissector S W) × (get_elem? dissectors d ≡ some diss)

    IsValid-run :
        (diss : Dissector S W) (place : ℕ) (w : W) (r : Round S W)
        → get_elem? dissectors place ≡ some diss
        → IsValid r
        → IsValid (run_dissector l no_worker threshold diss place w layer id r)
    unfolding run_dissector find
    IsValid-run diss place w r at valid d v =
        elim (Bool-cases (ltb (diss.examine w layer r.ctx).0 threshold)) [
          | inl e ↦ rw e (valid d v)
          | inr e ↦
              elim (Bool-cases (diss.analyze w layer (diss.examine w layer r.ctx).1).close_stream) [
                | inr f ↦ rw (e, f) (valid d v)
                | inl f ↦
                    rw (e, f)
                      (λ h. elim (Option-cases (find d r.closed)) [
                        | inr (u, g) ↦ valid d u g
                        | inl g ↦
                            let last : find d ((place, w) ∷ []) ≡ some v =
                              sym (rw (find-append d r.closed ((place, w) ∷ []), g)) ∙ h in
                            elim (Bool-cases (place == d)) [
                              | inl is ↦
                                  (diss, ap (get_elem? dissectors) (sym (place_is place d is)) ∙ at)
                              | inr other ↦ absurd (ground arith)
                            ]
                      ])
              ]
        ]

    IsValid-over :
        (tags : List ℕ) (ws : List (ℕ × W)) (r : Round S W)
        → IsValid r
        → IsValid (dissect l no_worker threshold dissectors tags layer id ws r)
    unfolding dissect
    IsValid-over tags [] r valid = valid
    IsValid-over tags ((place, w) ∷ ws) r valid =
        elim (over_step l no_worker threshold dissectors tags layer id place w ws r) [
          | inl (e, skipped) ↦ subst IsValid (sym e) (IsValid-over tags ws r valid)
          | inr (diss, at, new, e, hit) ↦
              let marked = record r { used = place ∷ r.used; dissectable = true } in
              subst IsValid (sym e) (
                IsValid-over tags ws
                  (run_dissector l no_worker threshold diss place w layer id marked)
                  (IsValid-run diss place w marked at valid))
        ]

    rounds_enough :
        (next : List ℕ) (begin : Ctx S) (n : ℕ) (r : Round S W)
        → left m r.used < n
        → IsOnce r.used
        → IsValid r
        → IsTold l no_worker threshold dissectors layer id m begin next r
        → Complete next begin (rounds l no_worker threshold dissectors layer id m n r)
    unfolding rounds
    rounds_enough next begin zero r h once valid told = absurd (omega arith)
    rounds_enough next begin (suc n) r h once valid told =
        let tags = l.tags layer r.ctx.world in
        let start = record r { dissectable = false } in
        let after = dissect l no_worker threshold dissectors tags layer id m start in
        let once' = IsOnce-over l no_worker threshold dissectors tags layer id m start once in
        let told' = IsTold-over l no_worker threshold dissectors layer id m begin next r told in
        let valid' = IsValid-over tags m start valid in
        elim (Bool-cases (after.dissectable)) [
          | inl on ↦
              let (d, w, at, old, new) =
                chooses l no_worker threshold dissectors tags layer id m start refl on in
              let fewer =
                left_fewer m r.used after.used d w
                  (grows l no_worker threshold dissectors tags layer id m start) at old new in
              let rest = rounds_enough next begin n after (omega arith) once' valid' told' in
              record {
                ended = rest.ended;
                returns = rw (rounds, on) (rest.returns);
                told = rest.told;
                once = rest.once;
                valid = rest.valid;
                complete = rest.complete;
              }
          | inr off ↦
              let (same, all) = quiet l no_worker threshold dissectors tags layer id m start off in
              record {
                ended = after;
                returns = rw (rounds, off);
                told = told';
                once = once';
                valid = valid';
                complete = λ d w diss at here hit.
                    ap (λ r. contains d r.used) same
                    ∙ all d w diss at here (
                        sym (
                          ap (λ r. hints_match (l.tags layer r.ctx.world) diss.layer_hints false)
                            same)
                        ∙ hit);
              }
        ]

    pub rounds-Complete :
        (next : List ℕ) (ctx : Ctx S)
        → Complete next ctx (
            rounds l no_worker threshold dissectors layer id m
              (length m + 1)
              (first_round l no_worker threshold next ctx))
    unfolding count find first_round
    rounds-Complete next ctx =
        rounds_enough next ctx (length m + 1) (first_round l no_worker threshold next ctx)
          (omega (arith, left-bound m [])) (λ d. omega arith) (λ d w e. absurd (cc))
          (IsTold-first l no_worker threshold dissectors layer id m ctx next)
