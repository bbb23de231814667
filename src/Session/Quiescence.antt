-- ===== src/Session/Quiescence.antt =====
-- When nothing more is on its way, all events have arrived.
use deplug.Common.{
  ◌≡◌, refl, ap, sym, ◌∙◌, inl, inr, false, List, [], ◌∷◌, ◌++◌, if◌then◌else◌, arith, append-nil,
  Bool-cases,
}
use mathlib.Core.Path.{subst}
use deplug.Session.{
  Session, update_event, update_inspector, has, take_flags, report_counts, report_events,
  report_inspections,
}
use deplug.Session.Turns.{
  Op, Phase, idle, counting, reporting, inspecting, continues, continue, wake, step, run, start,
  handled,
}
use deplug.Session.Delivery.{Due, run-Inv, start-Inv}

module _ {E : Type 0} where
  inspections-events : (s : Session E) → (report_inspections s).events ≡ s.events
  unfolding report_inspections
  inspections-events s = elim (Bool-cases (has update_inspector s.flags)) [
    | inl f ↦ rw (report_inspections, f)
    | inr u ↦ rw (report_inspections, u)
  ]

  -- The handler on flags that it has taken.
  events_reported :
      (s : Session E) (put : List E)
      → s.events ++ s.event_queue ≡ put
      → (has update_event s.flags ≡ false → s.event_queue ≡ [])
      → (report_inspections (report_events s)).events ≡ put
  unfolding report_events
  events_reported s put kept none_left = elim (Bool-cases (has update_event s.flags)) [
    | inl f ↦ inspections-events (report_events s) ∙ rw (report_events, f) kept
    | inr u ↦
        let empty = none_left u in
        let all : s.events ≡ put =
          sym (append-nil s.events) ∙ ap (λ q. s.events ++ q) (sym empty) ∙ kept in
        inspections-events (report_events s) ∙ rw (report_events, u) all
  ]

  abbrev finish : Phase → Session E → Phase × Session E
  finish p s = let a = continue p s in let b = continue a.0 a.1 in continue b.0 b.1

  finish-idle : (p : Phase) (s : Session E) → (finish p s).0 ≡ idle
  unfolding continue
  finish-idle idle s = refl
  finish-idle counting s = refl
  finish-idle reporting s = refl
  finish-idle inspecting s = refl

  woken :
      (s : Session E) (put : List E)
      → s.events ++ s.event_queue ≡ put
      → Due s idle 0
      → (finish (wake idle s).0 (wake idle s).1).1.events ≡ put
  unfolding wake continue take_flags report_counts
  woken s put kept due = elim (Bool-cases s.sent) [
    | inl sent ↦
        let now : wake idle s ≡ (counting, take_flags s) =
          ap (λ b. if b then (counting, take_flags s) else (idle, s)) sent in
        rw now (
          events_reported (report_counts (take_flags s)) put kept (λ unset. elim due [
            | inl none_left ↦ none_left
            | inr (inl some_owed) ↦ absurd (omega arith)
            | inr (inr (inl (flag, e))) ↦ absurd (cc)
            | inr (inr (inr (inl e, flag))) ↦ absurd (cc)
            | inr (inr (inr (inr e, flag))) ↦ absurd (cc)
          ]))
    | inr quiet ↦
        let still : wake idle s ≡ (idle, s) =
          ap (λ b. if b then (counting, take_flags s) else (idle, s)) quiet in
        let empty : s.event_queue ≡ [] = elim due [
          | inl none_left ↦ none_left
          | inr (inl some_owed) ↦ absurd (omega arith)
          | inr (inr (inl (flag, e))) ↦ absurd (cc)
          | inr (inr (inr (inl e, flag))) ↦ absurd (cc)
          | inr (inr (inr (inr e, flag))) ↦ absurd (cc)
        ] in
        rw still (sym (append-nil s.events) ∙ ap (λ q. s.events ++ q) (sym empty) ∙ kept)
  ]

  woken_at :
      (p : Phase) (s : Session E) (put : List E)
      → p ≡ idle
      → s.events ++ s.event_queue ≡ put
      → Due s p 0
      → (finish (wake p s).0 (wake p s).1).1.events ≡ put
  woken_at idle s put e kept due = woken s put kept due
  woken_at counting s put e kept due = absurd (cc)
  woken_at reporting s put e kept due = absurd (cc)
  woken_at inspecting s put e kept due = absurd (cc)

  -- Once every thread that has put an event has called `notifyStatus` for it, the handler that is
  -- running and the one that was sent for pass on all that was put, in order: no wakeup is lost,
  -- whatever interleaving led there.
  pub run-delivered :
      (os : List (Op E))
      → (run os start).owed ≡ 0
      → (handled (run os start)).session.events ≡ (run os start).put
  unfolding run step
  run-delivered os none_owed =
      let w = run os start in
      let v = run-Inv (continues ∷ continues ∷ continues ∷ []) w (run-Inv os start start-Inv) in
      let (p, s) = finish w.phase w.session in
      woken_at p s w.put (finish-idle w.phase w.session) v.kept (subst (Due s p) none_owed v.due)
