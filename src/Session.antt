-- ===== src/Session.antt =====
-- plugkit/src/session.cpp with swap_queue.hpp: the numbers of the frames, the flags by which the
-- threads tell the main loop what to report, the queues of events that it fetches, and the display
-- filters. `E` stands for an event or an inspector message, `Pool` for a `FilterThreadPool`.
-- `uv_async_send` leaves a mark that the loop takes away before it calls the handler; the handler is
-- split where other threads may come in between.
pub mod Turns
pub mod Delivery
pub mod Quiescence
pub mod Filters
mod Tests
use deplug.Common.{
  ℕ, ◌+◌, ◌%◌, ◌^◌, Bool, true, false, not, Option, none, some, List, [], ◌∷◌, ◌++◌, ◌==◌,
  if◌then◌else◌,
}
use Prim.Native.Nat.{bit_and, bit_or}

-- `enum UpdateType`
pub data UpdateType : Type 0 where
  update_status_type : UpdateType
  update_filter : UpdateType
  update_frame : UpdateType
  update_event : UpdateType
  update_inspector : UpdateType

abbrev pub update_code : UpdateType → ℕ
update_code update_status_type = 1
update_code update_filter = 2
update_code update_frame = 4
update_code update_event = 8
update_code update_inspector = 16

pub record Session (E : Type 0) : Type 0 where
  pub index : ℕ
  pub updates : ℕ
  -- `uv_async_send` was called and the handler has not started since.
  pub sent : Bool
  -- The flags that the running handler has taken and not yet looked at.
  pub flags : ℕ
  pub event_queue : List E
  pub inspector_queue : List E
  -- What the callbacks were called with.
  pub events : List E
  pub inspections : List E
  pub status_calls : ℕ
  pub filter_calls : ℕ
  pub frame_calls : ℕ

unfoldable pub init : {E : Type 0} → Session E
init = record {
  index = 1;
  updates = 0;
  sent = false;
  flags = 0;
  event_queue = [];
  inspector_queue = [];
  events = [];
  inspections = [];
  status_calls = 0;
  filter_calls = 0;
  frame_calls = 0;
}

abbrev pub has : UpdateType → ℕ → Bool
has type flags = not (bit_and flags (update_code type) == 0)

module _ {E : Type 0} where
  -- `index.fetch_add(1u)`
  unfoldable pub get_seq : Session E → ℕ × Session E
  get_seq s = (s.index, record s { index = (s.index + 1) % 2 ^ 32 })

  unfoldable pub notify_status : UpdateType → Session E → Session E
  notify_status type s = record s { updates = bit_or s.updates (update_code type); sent = true }

  -- `SwapQueue::emplace` and `SwapQueue::fetch`
  unfoldable pub emplace : E → List E → List E
  emplace e queue = queue ++ e ∷ []

  unfoldable pub fetch : List E → List E × List E
  fetch queue = (queue, [])

  unfoldable pub emplace_event : E → Session E → Session E
  unfolding emplace
  emplace_event e s = record s { event_queue = emplace e s.event_queue }

  unfoldable pub emplace_inspector : E → Session E → Session E
  unfolding emplace
  emplace_inspector e s = record s { inspector_queue = emplace e s.inspector_queue }

  -- `updateStatus`: its first statement, and the `if` statements in their order.
  unfoldable pub take_flags : Session E → Session E
  take_flags s = record s { updates = 0; sent = false; flags = s.updates }

  unfoldable pub report_counts : Session E → Session E
  report_counts s = record s {
    status_calls = (if has update_status_type s.flags then s.status_calls + 1 else s.status_calls);
    filter_calls = (if has update_filter s.flags then s.filter_calls + 1 else s.filter_calls);
    frame_calls = (if has update_frame s.flags then s.frame_calls + 1 else s.frame_calls);
  }

  unfoldable pub report_events : Session E → Session E
  unfolding fetch
  report_events s =
      if has update_event s.flags
      then record s {
        event_queue = (fetch s.event_queue).1;
        events = s.events ++ (fetch s.event_queue).0;
      }
      else s

  unfoldable pub report_inspections : Session E → Session E
  unfolding fetch
  report_inspections s =
      if has update_inspector s.flags
      then record s {
        inspector_queue = (fetch s.inspector_queue).1;
        inspections = s.inspections ++ (fetch s.inspector_queue).0;
      }
      else s

  -- The handler when nothing comes in between.
  unfoldable pub update_status : Session E → Session E
  unfolding take_flags report_counts report_events report_inspections
  update_status s = report_inspections (report_events (report_counts (take_flags s)))

-- `std::unordered_map<std::string, std::unique_ptr<FilterThreadPool>> filters`, with the equality
-- of names.
module _ {Name Pool : Type 0} (same : Name → Name → Bool) where
  unfoldable pub find : Name → List (Name × Pool) → Option Pool
  find name [] = none
  find name ((n, p) ∷ filters) =
      let rest = find name filters in if same n name then some p else rest

  unfoldable pub erase : Name → List (Name × Pool) → List (Name × Pool)
  erase name [] = []
  erase name ((n, p) ∷ filters) =
      let rest = erase name filters in if same n name then rest else (n, p) ∷ rest

  module _ (is_empty : Name → Bool) (new_pool : Name → Pool) where
    -- `setDisplayFilter` without its notification; the pool is made of the body and started.
    unfoldable pub set_display_filter : Name → Name → List (Name × Pool) → List (Name × Pool)
    unfolding erase
    set_display_filter name body filters =
        if is_empty body then erase name filters else (name, new_pool body) ∷ erase name filters

  -- `getFilteredFrames`, where `get` is that of the pool.
  unfoldable pub get_filtered_frames :
      (Pool → ℕ → ℕ → List ℕ) → Name → ℕ → ℕ → List (Name × Pool) → List ℕ
  unfolding find
  get_filtered_frames get name offset length filters = elim (find name filters) [
    | none ↦ []
    | some pool ↦ get pool offset length
  ]
