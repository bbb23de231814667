-- ===== src/Session/Turns.antt =====
-- The turns that the threads take with the handler of the main loop.
use deplug.Common.{ℕ, zero, suc, ◌+◌, List, [], ◌∷◌, ◌++◌, if◌then◌else◌}
use deplug.Session.{
  Session, UpdateType, update_event, init, notify_status, emplace_event, emplace_inspector,
  take_flags, report_counts, report_events, report_inspections,
}

-- Where the handler is: before the first of the calls that are named.
pub data Phase : Type 0 where
  idle : Phase
  counting : Phase
  reporting : Phase
  inspecting : Phase

-- The session, the handler, how many events were put whose thread has yet to notify, and all the
-- events that were put.
pub record World (E : Type 0) : Type 0 where
  pub session : Session E
  pub phase : Phase
  pub owed : ℕ
  pub put : List E

pub data Op (E : Type 0) : Type 0 where
  puts : E → Op E
  announces : Op E
  notifies : UpdateType → Op E
  inspects : E → Op E
  wakes : Op E
  continues : Op E

module _ {E : Type 0} where
  unfoldable pub start : World E
  unfolding init
  start = record { session = init; phase = idle; owed = 0; put = [] }

  -- The next statement of the handler.
  unfoldable pub continue : Phase → Session E → Phase × Session E
  continue idle s = (idle, s)
  continue counting s = (reporting, report_counts s)
  continue reporting s = (inspecting, report_events s)
  continue inspecting s = (idle, report_inspections s)

  unfoldable pub wake : Phase → Session E → Phase × Session E
  wake idle s = if s.sent then (counting, take_flags s) else (idle, s)
  wake counting s = (counting, s)
  wake reporting s = (reporting, s)
  wake inspecting s = (inspecting, s)

  unfoldable pub announce : ℕ → Session E → ℕ × Session E
  announce zero s = (zero, s)
  announce (suc owed) s = (owed, notify_status update_event s)

  -- A step of any thread; one that is not possible changes nothing.
  unfoldable pub step : Op E → World E → World E
  unfolding continue wake announce
  step (puts e) w = record w {
    session = emplace_event e w.session;
    owed = w.owed + 1;
    put = w.put ++ e ∷ [];
  }
  step announces w =
      let next = announce w.owed w.session in record w { owed = next.0; session = next.1 }
  step (notifies type) w = record w { session = notify_status type w.session }
  step (inspects e) w = record w { session = emplace_inspector e w.session }
  step wakes w = let next = wake w.phase w.session in record w { phase = next.0; session = next.1 }
  step continues w =
      let next = continue w.phase w.session in record w { phase = next.0; session = next.1 }

  unfoldable pub run : List (Op E) → World E → World E
  unfolding step
  run [] w = w
  run (o ∷ os) w = run os (step o w)

  -- The rest of a handler that is running, and one more if it was sent for.
  abbrev pub handled : World E → World E
  handled w =
      run (continues ∷ continues ∷ continues ∷ wakes ∷ continues ∷ continues ∷ continues ∷ []) w
