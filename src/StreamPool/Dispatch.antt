-- ===== src/StreamPool/Dispatch.antt =====
-- The thread of plugkit/src/stream_dissector_thread_pool.cpp that hands the leaf layers of the frames
-- to the stream dissector threads. `L` stands for `Layer *`, with `worker` and, for
-- `layer->frame()->index()`, `frame_index`; the heap of the layers of a frame is that of Layer.
use deplug.Common.{ℕ, zero, suc, ◌%◌, Option, none, some, List, [], ◌∷◌, ◌++◌, get_elem?, set}
use deplug.Layer.{Layer}
use deplug.StreamPool.{Stat, update_index}

-- `layers.insert(layers.begin(), childList.begin(), childList.end())` for the children in turn.
unfoldable pub insert_children : (ℕ → Option (List ℕ)) → List ℕ → List ℕ → Option (List ℕ)
insert_children find layers [] = some layers
insert_children find layers (child ∷ children) = elim (find child) [
  | none ↦ none
  | some child_list ↦ insert_children find (child_list ++ layers) children
]

-- The lambda `findStreamedLayers`, in rounds for the depth of the recursion.
unfoldable pub find_streamed_layers :
    {D P F : Type 0} → List (Layer D P F) → ℕ → ℕ → Option (List ℕ)
unfolding insert_children
find_streamed_layers heap zero layer = none
find_streamed_layers heap (suc rounds) layer = elim (get_elem? heap layer) [
  | none ↦ none
  | some l ↦ elim (l.layers) [
    | [] ↦ some (layer ∷ [])
    | child ∷ children ↦ insert_children (find_streamed_layers heap rounds) [] (child ∷ children)
  ]
]

module _ {L : Type 0} (worker : L → ℕ) where
  -- `layerMap[thread].push_back(layer)`
  unfoldable pub push_layer : ℕ → L → List (List L) → List (List L)
  push_layer thread layer layer_map = elim (get_elem? layer_map thread) [
    | none ↦ layer_map
    | some layers ↦ set layer_map thread (layers ++ layer ∷ [])
  ]

  -- The loop over the layers of the frames that were read.
  unfoldable pub sort_layers : ℕ → List L → List (List L) → List (List L)
  unfolding push_layer
  sort_layers threads [] layer_map = layer_map
  sort_layers threads (layer ∷ layers) layer_map =
      sort_layers threads layers (push_layer (worker layer % threads) layer layer_map)

module _ {L : Type 0} (worker : L → ℕ) (frame_index : L → Option ℕ) where
  -- The calls of `updateIndex` in the same loop.
  unfoldable pub note_layers : ℕ → List L → List Stat → Option (List Stat)
  unfolding update_index
  note_layers threads [] stats = some stats
  note_layers threads (layer ∷ layers) stats = elim (frame_index layer) [
    | none ↦ note_layers threads layers stats
    | some index ↦ elim (update_index (worker layer % threads) index 0 stats) [
      | none ↦ none
      | some (ready, noted) ↦ note_layers threads layers noted
    ]
  ]
