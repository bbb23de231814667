-- ===== src/Session/Delivery.antt =====
-- No event is lost: the flags and the queues under any interleaving of the threads with the handler.
use deplug.Common.{
  ℕ, zero, suc, ◌*◌, ◌/◌, ◌<◌, ◌≡◌, refl, ap, sym, ◌∙◌, ◌⊎◌, inl, inr, true, List, [], ◌∷◌, ◌++◌,
  if◌then◌else◌, arith, append-nil, append_assoc, Bool-cases,
}
use Prim.Native.Nat.{bit_and, bit_or}
use deplug.Common.Bits.{bit_and_step}
use deplug.Common.Fields.{bit, bit_lt, bit-bit_or, bit_and_bit}
use deplug.Session.{
  Session, UpdateType, update_event, update_inspector, update_code, has, init, notify_status,
  emplace_event, emplace_inspector, take_flags, report_counts, report_events, report_inspections,
}
use deplug.Session.Turns.{
  Phase, idle, counting, reporting, inspecting, World, Op, puts, announces, notifies, inspects,
  wakes, continues, start, continue, wake, announce, step, run,
}

event_bit : (flags : ℕ) → bit_and flags 8 ≡ 8 * bit 3 flags
event_bit flags = omega (
  arith,
  bit_and_step flags 8,
  bit_and_step (flags / 2) 4,
  bit_and_step (flags / 2 / 2) 2,
  bit_and_bit (flags / 2 / 2 / 2),
)

has-notify :
    (type : UpdateType) (flags : ℕ)
    → has update_event flags ≡ true
    → has update_event (bit_or flags (update_code type)) ≡ true
has-notify type flags h = ground (
  arith,
  event_bit flags,
  event_bit (bit_or flags (update_code type)),
  bit-bit_or 3 flags (update_code type),
  bit_lt 3 (update_code type),
  bit_lt 3 flags,
)

has_now : (flags : ℕ) → has update_event (bit_or flags 8) ≡ true
has_now flags = ground (arith, event_bit (bit_or flags 8), bit-bit_or 3 flags 8, bit_lt 3 flags)

module _ {E : Type 0} where
  -- Why a queue that is not empty will be fetched.
  abbrev pub Due : Session E → Phase → ℕ → Type 0
  Due s phase owed =
      (s.event_queue ≡ [])
      ⊎ (0 < owed)
      ⊎ ((has update_event s.updates ≡ true) × (s.sent ≡ true))
      ⊎ (((phase ≡ counting) ⊎ (phase ≡ reporting)) × (has update_event s.flags ≡ true))

  pub record Inv (w : World E) : Type 0 where
    pub kept : w.session.events ++ w.session.event_queue ≡ w.put
    pub due : Due w.session w.phase w.owed

  announce-Due :
      (owed : ℕ) (s : Session E) (p : Phase)
      → Due s p owed
      → Due (announce owed s).1 p (announce owed s).0
        × ((announce owed s).1.events ≡ s.events)
        × ((announce owed s).1.event_queue ≡ s.event_queue)
  unfolding announce notify_status
  announce-Due zero s p d = (d, refl, refl)
  announce-Due (suc owed) s p d = (inr (inr (inl (has_now s.updates, refl))), refl, refl)

  wake-Due :
      (owed : ℕ) (s : Session E) (p : Phase)
      → Due s p owed
      → Due (wake p s).1 (wake p s).0 owed
        × ((wake p s).1.events ≡ s.events)
        × ((wake p s).1.event_queue ≡ s.event_queue)
  unfolding wake take_flags
  wake-Due owed s idle d = elim (Bool-cases s.sent) [
    | inl sent ↦
        rw (wake, sent)
          (
            elim d [
              | inl none_left ↦ inl none_left
              | inr (inl some_owed) ↦ inr (inl some_owed)
              | inr (inr (inl (flag, e))) ↦ inr (inr (inr (inl refl, flag)))
              | inr (inr (inr (inl e, flag))) ↦ absurd (cc)
              | inr (inr (inr (inr e, flag))) ↦ absurd (cc)
            ],
            refl,
            refl,
          )
    | inr quiet ↦
        let still : wake idle s ≡ (idle, s) =
          ap (λ b. if b then (counting, take_flags s) else (idle, s)) quiet in
        rw still (d, refl, refl)
  ]
  wake-Due owed s counting d = (d, refl, refl)
  wake-Due owed s reporting d = (d, refl, refl)
  wake-Due owed s inspecting d = (d, refl, refl)

  continue-Due :
      (owed : ℕ) (s : Session E) (p : Phase)
      → Due s p owed
      → Due (continue p s).1 (continue p s).0 owed
        × ((continue p s).1.events ++ (continue p s).1.event_queue ≡ s.events ++ s.event_queue)
  unfolding continue report_counts report_events report_inspections
  continue-Due owed s idle d = (d, refl)
  continue-Due owed s counting d = (
    elim d [
      | inl none_left ↦ inl none_left
      | inr (inl some_owed) ↦ inr (inl some_owed)
      | inr (inr (inl f)) ↦ inr (inr (inl f))
      | inr (inr (inr (e, flag))) ↦ inr (inr (inr (inr refl, flag)))
    ],
    refl,
  )
  continue-Due owed s reporting d = elim (Bool-cases (has update_event s.flags)) [
    | inl flag ↦ rw (report_events, flag) (inl refl, append-nil (s.events ++ s.event_queue))
    | inr unset ↦
        rw (report_events, unset)
          (
            elim d [
              | inl none_left ↦ inl none_left
              | inr (inl some_owed) ↦ inr (inl some_owed)
              | inr (inr (inl f)) ↦ inr (inr (inl f))
              | inr (inr (inr (e, flag))) ↦ absurd (cc)
            ],
            refl,
          )
  ]
  continue-Due owed s inspecting d =
      let rest : Due s idle owed = elim d [
        | inl none_left ↦ inl none_left
        | inr (inl some_owed) ↦ inr (inl some_owed)
        | inr (inr (inl f)) ↦ inr (inr (inl f))
        | inr (inr (inr (inl e, flag))) ↦ absurd (cc)
        | inr (inr (inr (inr e, flag))) ↦ absurd (cc)
      ] in
      elim (Bool-cases (has update_inspector s.flags)) [
        | inl f ↦ rw (report_inspections, f) (rest, refl)
        | inr u ↦ rw (report_inspections, u) (rest, refl)
      ]

  puts-Inv : (e : E) (w : World E) → Inv w → Inv (step (puts e) w)
  unfolding step emplace_event
  puts-Inv e w v = record {
    kept =
        sym (append_assoc w.session.events w.session.event_queue (e ∷ []))
        ∙ ap (λ q. q ++ e ∷ []) v.kept;
    due = inr (inl (omega arith));
  }

  notifies-Inv : (type : UpdateType) (w : World E) → Inv w → Inv (step (notifies type) w)
  unfolding step notify_status
  notifies-Inv type w v = record {
    kept = v.kept;
    due = elim (v.due) [
      | inl none_left ↦ inl none_left
      | inr (inl some_owed) ↦ inr (inl some_owed)
      | inr (inr (inl (flag, sent))) ↦
          inr (inr (inl (has-notify type w.session.updates flag, refl)))
      | inr (inr (inr served)) ↦ inr (inr (inr served))
    ];
  }

  step-Inv : (o : Op E) (w : World E) → Inv w → Inv (step o w)
  unfolding step emplace_inspector
  step-Inv (puts e) w v = puts-Inv e w v
  step-Inv announces w v =
      let (due, events, queue) = announce-Due w.owed w.session w.phase v.due in
      record { kept = rw (events, queue) (v.kept); due = due }
  step-Inv (notifies type) w v = notifies-Inv type w v
  step-Inv (inspects e) w v = record { kept = v.kept; due = v.due }
  step-Inv wakes w v =
      let (due, events, queue) = wake-Due w.owed w.session w.phase v.due in
      record { kept = rw (events, queue) (v.kept); due = due }
  step-Inv continues w v =
      let (due, same) = continue-Due w.owed w.session w.phase v.due in
      record { kept = same ∙ v.kept; due = due }

  pub run-Inv : (os : List (Op E)) (w : World E) → Inv w → Inv (run os w)
  unfolding run
  run-Inv [] w v = v
  run-Inv (o ∷ os) w v = run-Inv os (step o w) (step-Inv o w v)

  pub start-Inv : Inv start
  unfolding start init
  start-Inv = record { kept = refl; due = inl refl }

  -- However the threads and the handler take turns, what the event callback has been called with,
  -- followed by what waits in the queue, is what was put, in order.
  pub run-in_order :
      (os : List (Op E))
      → (run os start).session.events ++ (run os start).session.event_queue ≡ (run os start).put
  run-in_order os = (run-Inv os start start-Inv).kept
