-- ===== src/StreamDissector/Tests.antt =====
-- A stream of two packets, each a layer of one frame with a child layer, and two dissectors.
use deplug.Common.{
  ℕ, ◌≡◌, refl, ◌⊎◌, ◌+◌, ◌==◌, true, false, Option, none, some, List, [], ◌∷◌, ◌++◌, arith,
  if◌then◌else◌, take,
}
use deplug.Queue.{init, enqueue_range}
use deplug.StreamDissector.{
  Dissector, Layers, Thread, analyze, loop, ends, idle, calls_back, push, push_stream_dissector,
}
use deplug.StreamDissector.Levels.{AreBelow, IsRanked}
use deplug.StreamDissector.Loop.{loop-returns, IsHighest}

-- The world is a list of the layers analysed.
abbrev layers : Layers (List ℕ)
layers = record {
  id = λ layer s. if layer == 3 then 8 else 7;
  worker = λ layer s. 2;
  tags = λ layer s. if layer == 3 then 9 ∷ [] else 1 ∷ 4 ∷ [];
  layers = λ layer s. if layer == 1 then 3 ∷ [] else [];
  frame_index = λ layer s. some (layer + 10);
}

-- It counts in its worker's number, which is the one it was made with.
abbrev counting : Dissector (List ℕ) ℕ
counting = record {
  layer_hints = 1 ∷ 0 ∷ 4 ∷ [];
  initialize = none;
  terminate = none;
  create_worker = some (λ ctx. (5, ctx));
  destroy_worker = none;
  examine = λ w layer ctx. (3, ctx);
  analyze = λ w layer ctx. record ctx { world = ctx.world ++ layer ∷ [] };
}

-- It closes the stream.
abbrev closing : Dissector (List ℕ) ℕ
closing = record {
  layer_hints = 4 ∷ [];
  initialize = none;
  terminate = none;
  create_worker = some (λ ctx. (6, ctx));
  destroy_worker = some (λ w ctx. record ctx { world = ctx.world ++ w ∷ [] });
  examine = λ w layer ctx. (3, ctx);
  analyze = λ w layer ctx. record ctx { close_stream = true };
}

abbrev empty_thread : Thread (List ℕ) ℕ
empty_thread = record {
  queue = init 0;
  dissectors = [];
  workers = λ i j. [];
  ctx = record { close_stream = false; world = [] };
}

abbrev thread : Thread (List ℕ) ℕ
thread =
    push (1 ∷ 2 ∷ []) (push_stream_dissector closing (push_stream_dissector counting empty_thread))

abbrev summary : Option (List ℕ × Thread (List ℕ) ℕ) → List ℕ × List ℕ
summary none = ([], [])
summary (some a) = (a.0, a.1.ctx.world)

-- The child is listed after each dissector, the second dissector's worker is destroyed.
analyzed : summary (analyze layers 0 1 1 [] thread) ≡ (3 ∷ 3 ∷ [], 1 ∷ 6 ∷ [])
unfolding analyze push push_stream_dissector
analyzed = refl

abbrev rank : ℕ → ℕ
rank layer = if layer == 1 then 1 else 0

layers-IsRanked : IsRanked layers rank
unfolding AreBelow
layers-IsRanked layer s = ground arith

loop-returns_example :
    ((thread.queue.closed ≡ true) × (loop layers 0 1 2 thread ≡ some ends))
    ⊎ (((thread.queue.closed ≡ false)
          × (thread.queue.buf ≡ [])
          × (u : Thread (List ℕ) ℕ) × (loop layers 0 1 2 thread ≡ some (idle u)))
        ⊎ ((thread.queue.closed ≡ false)
            × (index : ℕ) × (after : Thread (List ℕ) ℕ) × (loop layers 0 1 2 thread
                ≡ some (calls_back index after))
            × IsHighest layers (take 2048 thread.queue.buf) thread.ctx.world index))
unfolding AreBelow push push_stream_dissector enqueue_range init
loop-returns_example =
    loop-returns layers 0 1 rank layers-IsRanked 2 thread (omega arith, (omega arith, tt))
