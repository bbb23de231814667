-- ===== src/Pipeline.antt =====
-- plugkit/src/session.cpp: the way of a frame from a source, which is the capture or an importer,
-- over its number, the queue of the dissector threads and their hands into the frame store. `P` is
-- what a frame is but for its index. Each source and each dissector thread is one of a list.
pub mod Counts
pub mod Stages
pub mod Numbers
pub mod Complete
mod Tests
use deplug.Common.{ℕ, zero, suc, false, none, some, List, [], ◌∷◌, ◌++◌, get_elem?, set}
use deplug.Queue.{Queue, stopped, got, enqueue_range, dequeue}
use deplug.FrameStore
use deplug.FrameStore.{FrameStore}
use deplug.Session
use deplug.Session.{Session, get_seq}

pub record Frame (P : Type 0) : Type 0 where
  pub packet : P
  pub index : ℕ

pub record Pipeline (E P V : Type 0) : Type 0 where
  pub session : Session E
  -- The frames of each source that have their index and are not pushed yet.
  pub sources : List (List (Frame P))
  pub queue : Queue (Frame P)
  -- The frames that each dissector thread has taken and not handed on yet.
  pub hands : List (List (Frame P))
  pub store : FrameStore (Frame P) V

abbrev pub index_of : {P : Type 0} → Frame P → ℕ
index_of f = f.index

module _ {E P V : Type 0} where
  -- `frame->setIndex(d->getSeq())` of a source.
  unfoldable pub set_index : ℕ → P → Pipeline E P V → Pipeline E P V
  unfolding get_seq
  set_index i packet p = elim (get_elem? p.sources i) [
    | none ↦ p
    | some frames ↦
        let r = get_seq p.session in
        record p {
          session = r.1;
          sources = set p.sources i (frames ++ record { packet = packet; index = r.0 } ∷ []);
        }
  ]

  -- `d->dissectorPool->push(begin, length)` of a source.
  unfoldable pub push : ℕ → Pipeline E P V → Pipeline E P V
  unfolding enqueue_range
  push i p = elim (get_elem? p.sources i) [
    | none ↦ p
    | some frames ↦ record p { sources = set p.sources i []; queue = enqueue_range frames p.queue }
  ]

  -- A dissector thread takes frames, and hands them to the callback of the pool.
  unfoldable pub take_frames : ℕ → Pipeline E P V → Pipeline E P V
  unfolding dequeue
  take_frames j p = elim (get_elem? p.hands j) [
    | none ↦ p
    | some hand ↦
        let r = dequeue 128 p.queue in
        elim (r.0) [
          | stopped ↦ p
          | got frames ↦ record p { hands = set p.hands j (hand ++ frames); queue = r.1 }
        ]
  ]

  unfoldable pub hand_on : ℕ → Pipeline E P V → Pipeline E P V
  unfolding FrameStore.insert
  hand_on j p = elim (get_elem? p.hands j) [
    | none ↦ p
    | some hand ↦ record p {
      hands = set p.hands j [];
      store = FrameStore.insert index_of hand p.store;
    }
  ]

  -- The callbacks of the capture and of an importer, if nothing comes in between.
  unfoldable pub set_indices : ℕ → List P → Pipeline E P V → Pipeline E P V
  unfolding set_index
  set_indices i [] p = p
  set_indices i (packet ∷ packets) p = set_indices i packets (set_index i packet p)

  unfoldable pub capture_callback : ℕ → P → Pipeline E P V → Pipeline E P V
  unfolding set_index push
  capture_callback i packet p = push i (set_index i packet p)

  -- The importer's event is added, and announced.
  unfoldable pub import_callback : ℕ → List P → E → Pipeline E P V → Pipeline E P V
  unfolding set_indices push Session.emplace_event Session.notify_status
  import_callback i packets event p =
      let pushed = push i (set_indices i packets p) in
      record pushed {
        session =
            Session.notify_status Session.update_event (Session.emplace_event event pushed.session);
      }

-- The steps of the threads.
pub data Step (P : Type 0) : Type 0 where
  numbers : ℕ → P → Step P
  pushes : ℕ → Step P
  takes : ℕ → Step P
  hands_on : ℕ → Step P

module _ {E P V : Type 0} where
  unfoldable pub step : Step P → Pipeline E P V → Pipeline E P V
  unfolding set_index push take_frames hand_on
  step (numbers i packet) p = set_index i packet p
  step (pushes i) p = push i p
  step (takes j) p = take_frames j p
  step (hands_on j) p = hand_on j p

  unfoldable pub run : List (Step P) → Pipeline E P V → Pipeline E P V
  unfolding step
  run [] p = p
  run (s ∷ steps) p = run steps (step s p)

-- Empty lists for so many sources or threads.
unfoldable pub empties : {A : Type 0} → ℕ → List (List A)
empties zero = []
empties (suc n) = [] ∷ empties n

-- A new session, with so many sources and dissector threads.
unfoldable pub start : {E P V : Type 0} → ℕ → ℕ → ℕ → Pipeline E P V
unfolding empties Session.init FrameStore.init
start garbage sources threads = record {
  session = Session.init;
  sources = empties sources;
  queue = record { buf = []; closed = false; count = garbage };
  hands = empties threads;
  store = FrameStore.init;
}
