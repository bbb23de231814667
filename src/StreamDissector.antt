-- ===== src/StreamDissector.antt =====
-- plugkit/src/stream_dissector_thread.cpp: a thread that runs the stream dissectors over the layers
-- that the pool sends it. A dissector is known by its place in `d->dissectors`, which is the order of
-- the pointers in the map of workers, and a layer by a number; `S` is what the dissectors work on,
-- the layers included, and `W` their `Worker`. What a dissector does is a parameter.
pub mod Workers
pub mod Rounds
pub mod Steps
pub mod Calls
pub mod Streams
pub mod Levels
pub mod Loop
mod Tests
use deplug.Common.{
  ℕ, zero, suc, ◌+◌, max, Bool, true, false, Option, none, some, List, [], ◌∷◌, ◌++◌, ltb, ◌==◌,
  ◌&&◌, if◌then◌else◌, length, get_elem?,
}
use deplug.Queue
use deplug.Queue.{Queue, Dequeued, got, stopped}
use deplug.FrameStore.{contains}

-- What of `Context` the thread and its dissectors share.
pub record Ctx (S : Type 0) : Type 0 where
  pub close_stream : Bool
  pub world : S

-- `Dissector`, with the function pointers that may be null as options.
pub record Dissector (S W : Type 0) : Type 0 where
  pub layer_hints : List ℕ
  pub initialize : Option (Ctx S → Ctx S)
  pub terminate : Option (Ctx S → Ctx S)
  pub create_worker : Option (Ctx S → W × Ctx S)
  pub destroy_worker : Option (W → Ctx S → Ctx S)
  pub examine : W → ℕ → Ctx S → ℕ × Ctx S
  pub analyze : W → ℕ → Ctx S → Ctx S

-- What is read of a layer.
pub record Layers (S : Type 0) : Type 0 where
  pub id : ℕ → S → ℕ
  pub worker : ℕ → S → ℕ
  pub tags : ℕ → S → List ℕ
  pub layers : ℕ → S → List ℕ
  -- The index of `layer->frame()`, if there is a frame.
  pub frame_index : ℕ → S → Option ℕ

-- `workers` has the workers of a stream under the id of the layer and its worker number; those not
-- yet there are made empty.
pub record Thread (S W : Type 0) : Type 0 where
  pub queue : Queue ℕ
  pub dissectors : List (Dissector S W)
  pub workers : ℕ → ℕ → List (ℕ × W)
  pub ctx : Ctx S

-- `std::map<const Dissector *, Worker>`, in the order of its keys.
module _ {W : Type 0} where
  unfoldable pub find : ℕ → List (ℕ × W) → Option W
  find d [] = none
  find d ((k, w) ∷ m) = let rest = find d m in if k == d then some w else rest

  unfoldable pub insert : ℕ → W → List (ℕ × W) → List (ℕ × W)
  insert d w [] = (d, w) ∷ []
  insert d w ((k, v) ∷ m) =
      let rest = insert d w m in
      if ltb d k then (d, w) ∷ (k, v) ∷ m else if k == d then (d, w) ∷ m else (k, v) ∷ rest

  unfoldable pub erase : ℕ → List (ℕ × W) → List (ℕ × W)
  erase d [] = []
  erase d ((k, w) ∷ m) = let rest = erase d m in if k == d then rest else (k, w) ∷ rest

  unfoldable pub set_stream : ℕ → ℕ → List (ℕ × W) → (ℕ → ℕ → List (ℕ × W)) → ℕ → ℕ → List (ℕ × W)
  set_stream id worker m workers i j = if i == id && j == worker then m else workers i j

-- The loop over `layerHints`; `hit` is `match`.
unfoldable pub hints_match : List ℕ → List ℕ → Bool → Bool
unfolding contains
hints_match tags [] hit = hit
hints_match tags (zero ∷ hints) hit = hints_match tags hints hit
hints_match tags (suc token ∷ hints) hit =
    let rest = hints_match tags hints true in if contains (suc token) tags then rest else false

-- The children whose id is not in `dissectedIds`, which has the id of the layer only.
unfoldable pub next_children : (ℕ → ℕ) → ℕ → List ℕ → List ℕ
next_children id_of id [] = []
next_children id_of id (child ∷ layers) =
    let rest = next_children id_of id layers in if id_of child == id then rest else child ∷ rest

-- The variables of `analyze` that the rounds change.
pub record Round (S W : Type 0) : Type 0 where
  pub used : List ℕ
  pub closed : List (ℕ × W)
  pub next : List ℕ
  pub dissectable : Bool
  pub ctx : Ctx S

module _ {S W : Type 0} (l : Layers S) (no_worker : W) (threshold : ℕ) where
  -- The first loop of `analyze`, from the dissector at `place`.
  unfoldable pub create_workers :
      List (Dissector S W) → ℕ → List (ℕ × W) → Ctx S → List (ℕ × W) × Ctx S
  unfolding find insert
  create_workers [] place m ctx = (m, ctx)
  create_workers (diss ∷ dissectors) place m ctx = elim (find place m) [
    | some w ↦ create_workers dissectors (place + 1) m ctx
    | none ↦ elim (diss.create_worker) [
      | none ↦ create_workers dissectors (place + 1) (insert place no_worker m) ctx
      | some create ↦
          let made = create ctx in
          create_workers dissectors (place + 1) (insert place made.0 m) made.1
    ]
  ]

  -- `analyze` of the dissector, what follows it, and the children that the layer has then.
  unfoldable pub run_dissector : Dissector S W → ℕ → W → ℕ → ℕ → Round S W → Round S W
  unfolding next_children
  run_dissector diss place worker layer id r =
      let examined = diss.examine worker layer r.ctx in
      if ltb examined.0 threshold
      then record r { ctx = examined.1 }
      else let after = diss.analyze worker layer examined.1 in
        record r {
          closed = (if after.close_stream then r.closed ++ (place, worker) ∷ [] else r.closed);
          next = r.next ++ next_children (λ c. l.id c after.world) id (l.layers layer after.world);
          ctx = record { close_stream = false; world = after.world };
        }

  -- The loop over the workers in one round. A place past the dissectors is a dangling pointer.
  unfoldable pub dissect :
      List (Dissector S W) → List ℕ → ℕ → ℕ → List (ℕ × W) → Round S W → Round S W
  unfolding hints_match run_dissector contains
  dissect dissectors tags layer id [] r = r
  dissect dissectors tags layer id ((place, worker) ∷ m) r = elim (get_elem? dissectors place) [
    | none ↦ dissect dissectors tags layer id m r
    | some diss ↦ elim (hints_match tags diss.layer_hints false) [
      | false ↦ dissect dissectors tags layer id m r
      | true ↦ elim (contains place r.used) [
        | true ↦ dissect dissectors tags layer id m r
        | false ↦ dissect dissectors tags layer id m (
            run_dissector diss place worker layer id
              (record r { used = place ∷ r.used; dissectable = true }))
      ]
    ]
  ]

  -- `while (true)`, in so many rounds; `none` if they run out.
  unfoldable pub rounds :
      List (Dissector S W) → ℕ → ℕ → List (ℕ × W) → ℕ → Round S W → Option (Round S W)
  unfolding dissect
  rounds dissectors layer id m zero r = none
  rounds dissectors layer id m (suc left) r =
      let after =
        dissect dissectors (l.tags layer r.ctx.world) layer id m
          (record r { dissectable = false }) in
      elim (after.dissectable) [
        | true ↦ rounds dissectors layer id m left after
        | false ↦ some after
      ]

  -- The loop over `closedWorkers`.
  unfoldable pub close_workers :
      List (Dissector S W) → List (ℕ × W) → List (ℕ × W) → Ctx S → List (ℕ × W) × Ctx S
  unfolding erase
  close_workers dissectors [] m ctx = (m, ctx)
  close_workers dissectors ((place, worker) ∷ closed) m ctx = elim (get_elem? dissectors place) [
    | none ↦ close_workers dissectors closed m ctx
    | some diss ↦ elim (diss.destroy_worker) [
      | none ↦ close_workers dissectors closed (erase place m) ctx
      | some destroy ↦ close_workers dissectors closed (erase place m) (destroy worker ctx)
    ]
  ]

  -- What `analyze` starts its rounds with, once it has the workers.
  unfoldable pub first_round : List ℕ → Ctx S → Round S W
  first_round next ctx = record {
    used = [];
    closed = [];
    next = next;
    dissectable = false;
    ctx = ctx;
  }

  -- `analyze`: the layers to look at next and the thread.
  unfoldable pub analyze : ℕ → List ℕ → Thread S W → Option (List ℕ × Thread S W)
  unfolding create_workers rounds close_workers set_stream first_round
  analyze layer next t =
      let id = l.id layer t.ctx.world in
      let worker = l.worker layer t.ctx.world in
      let made = create_workers t.dissectors 0 (t.workers id worker) t.ctx in
      elim (rounds t.dissectors layer id made.0 (length made.0 + 1) (first_round next made.1)) [
        | none ↦ none
        | some r ↦
            let after = close_workers t.dissectors r.closed made.0 r.ctx in
            some
              (r.next, record t { workers = set_stream id worker after.0 t.workers; ctx = after.1 })
      ]

  unfoldable pub analyze_all : List ℕ → List ℕ → Thread S W → Option (List ℕ × Thread S W)
  unfolding analyze
  analyze_all [] next t = some (next, t)
  analyze_all (layer ∷ layers) next t = elim (analyze layer next t) [
    | none ↦ none
    | some a ↦ analyze_all layers a.0 a.1
  ]

  -- `while (!layers.empty())`, in so many levels.
  unfoldable pub levels : ℕ → List ℕ → Thread S W → Option (Thread S W)
  unfolding analyze_all
  levels zero [] t = some t
  levels zero (layer ∷ layers) t = none
  levels (suc left) [] t = some t
  levels (suc left) (layer ∷ layers) t = elim (analyze_all (layer ∷ layers) [] t) [
    | none ↦ none
    | some a ↦ levels left a.0 a.1
  ]

  unfoldable pub max_frame_index : List ℕ → S → ℕ → ℕ
  max_frame_index [] s index = index
  max_frame_index (layer ∷ layers) s index = elim (l.frame_index layer s) [
    | none ↦ max_frame_index layers s index
    | some i ↦ max_frame_index layers s (max index i)
  ]

  -- How `loop` returns: `false`, `true` without a call of the callback, or with one.
  pub data Looped : Type 0 where
    ends : Looped
    idle : Thread S W → Looped
    calls_back : ℕ → Thread S W → Looped

  -- `loop` after the wait, with `depth` as the number of the levels; `none` if they run out.
  unfoldable pub loop : ℕ → Thread S W → Option Looped
  unfolding levels max_frame_index Queue.dequeue
  loop depth t =
      let taken = Queue.dequeue 2048 t.queue in
      elim (taken.0) [
        | stopped ↦ some ends
        | got [] ↦ some (idle (record t { queue = taken.1 }))
        | got (layer ∷ layers) ↦
            elim (levels depth (layer ∷ layers) (record t { queue = taken.1 })) [
              | none ↦ none
              | some after ↦
                  some (calls_back (max_frame_index (layer ∷ layers) t.ctx.world 0) after)
            ]
      ]

module _ {S W : Type 0} where
  unfoldable pub push_stream_dissector : Dissector S W → Thread S W → Thread S W
  push_stream_dissector diss t = record t { dissectors = t.dissectors ++ diss ∷ [] }

  unfoldable pub initialize_all : List (Dissector S W) → Ctx S → Ctx S
  initialize_all [] ctx = ctx
  initialize_all (diss ∷ dissectors) ctx = elim (diss.initialize) [
    | none ↦ initialize_all dissectors ctx
    | some run ↦ initialize_all dissectors (run ctx)
  ]

  unfoldable pub terminate_all : List (Dissector S W) → Ctx S → Ctx S
  terminate_all [] ctx = ctx
  terminate_all (diss ∷ dissectors) ctx = elim (diss.terminate) [
    | none ↦ terminate_all dissectors ctx
    | some run ↦ terminate_all dissectors (run ctx)
  ]

  unfoldable pub enter : Thread S W → Thread S W
  unfolding initialize_all
  enter t = record t { ctx = initialize_all t.dissectors t.ctx }

  unfoldable pub exit : Thread S W → Thread S W
  unfolding terminate_all
  exit t = record t { dissectors = []; workers = λ i j. []; ctx = terminate_all t.dissectors t.ctx }

  unfoldable pub push : List ℕ → Thread S W → Thread S W
  unfolding Queue.enqueue_range
  push layers t = record t { queue = Queue.enqueue_range layers t.queue }

  unfoldable pub stop : Thread S W → Thread S W
  unfolding Queue.close
  stop t = record t { queue = Queue.close t.queue }
