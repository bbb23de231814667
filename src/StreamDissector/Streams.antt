-- ===== src/StreamDissector/Streams.antt =====
-- `analyze` as a whole: it returns, and what becomes of the workers of the streams.
use deplug.Common.{ℕ, ◌≡◌, ◌++◌, true, false, ◌&&◌, none, some, List, ◌==◌, get_elem?}
use deplug.FrameStore.{contains}
use deplug.Dissector.Rounds.{IsOnce}
use deplug.StreamDissector.Calls.{places, context, closers, children, AreWorkers, AreChosen}
use deplug.StreamDissector.{
  Ctx, Dissector, Layers, Thread, find, hints_match, create_workers, close_workers, analyze,
}

module _ {S W : Type 0} (l : Layers S) (no_worker : W) (threshold : ℕ) where
  module _ (layer : ℕ) (next : List ℕ) (t : Thread S W) where
    -- The stream of the layer.
    abbrev pub stream_id : ℕ
    stream_id = l.id layer t.ctx.world

    abbrev pub stream_worker : ℕ
    stream_worker = l.worker layer t.ctx.world

    -- The workers of the stream, one for every dissector, and the context after they were created.
    abbrev pub made : List (ℕ × W) × Ctx S
    made =
        create_workers l no_worker threshold t.dissectors 0 (t.workers stream_id stream_worker)
          t.ctx

    abbrev pub context_of : List (ℕ × W) → Ctx S
    context_of = context l threshold layer stream_id t.dissectors made.1

    abbrev pub closers_of : List (ℕ × W) → List (ℕ × W)
    closers_of = closers l threshold layer stream_id t.dissectors made.1

    abbrev pub places_of : List (ℕ × W) → List ℕ
    places_of = places l threshold layer stream_id

    pub record Analyzed : Type 0 where
      pub calls : List (ℕ × W)
      pub after : Thread S W
      pub workers : AreWorkers made.0 calls
      pub chosen : AreChosen l threshold layer stream_id t.dissectors made.1 calls
      pub returns :
          analyze l no_worker threshold layer next t
          ≡ some (next ++ children l threshold layer stream_id t.dissectors made.1 calls, after)
      pub once : IsOnce (places_of calls)
      pub complete :
          (d : ℕ) (diss : Dissector S W)
          → get_elem? t.dissectors d ≡ some diss
          → hints_match (l.tags layer (context_of calls).world) diss.layer_hints false ≡ true
          → contains d (places_of calls) ≡ true
      pub kept :
          (d : ℕ) (w : W)
          → find d (t.workers stream_id stream_worker) ≡ some w
          → find d (closers_of calls) ≡ none
          → find d (after.workers stream_id stream_worker) ≡ some w
      pub dropped :
          (d : ℕ) (w : W)
          → find d (closers_of calls) ≡ some w
          → find d (after.workers stream_id stream_worker) ≡ none
      pub others :
          (i j : ℕ)
          → (i == stream_id && j == stream_worker) ≡ false
          → after.workers i j ≡ t.workers i j
      pub ended :
          after.ctx
          ≡ (close_workers l no_worker threshold t.dissectors
              (closers_of calls)
              made.0
              (context_of calls)).1
