-- ===== src/Dissector/Loop.antt =====
-- plugkit/src/dissector_thread.cpp: the loop of a dissector thread over the frames that it takes and,
-- from the root layer of each, over the layers level by level. Layers and frames are numbers, `c` is
-- what the thread calls for each layer, `id_of` is `layer->id()`, `root_of` is `frame->rootLayer()`.
use deplug.Common.{ℕ, zero, suc, ◌+◌, Option, none, some, List, [], ◌∷◌, length}
use deplug.TagFilter.{TagFilter}
use deplug.Queue.{Queue, stopped, got, dequeue}
use deplug.Dissector.{Calls, rounds}

-- How `loop` returns: `false`, or `true` with the frames for the callback, which is called if there
-- are any.
pub data Looped (S : Type 0) : Type 0 where
  ends : Looped S
  goes_on : List ℕ → Queue ℕ → S → Looped S

-- What the loop over the layers of a level leaves: the next level and the dissected ids.
pub record Level (S : Type 0) : Type 0 where
  pub next : List ℕ
  pub dissected_ids : List ℕ
  pub state : S

module _ {S : Type 0} (c : ℕ → Calls S) (id_of : ℕ → S → ℕ) (root_of : ℕ → S → Option ℕ) where
  module _ (threshold : ℕ) (filters : List TagFilter) where
    unfoldable pub dissect_layers : List ℕ → Level S → Option (Level S)
    unfolding rounds
    dissect_layers [] v = some v
    dissect_layers (layer ∷ layers) v =
        let ids = id_of layer v.state ∷ v.dissected_ids in
        elim (rounds (c layer) threshold ids filters (length filters + 1) [] v.next v.state) [
          | none ↦ none
          | some e ↦
              dissect_layers layers (record { next = e.next; dissected_ids = ids; state = e.state })
        ]

    -- `while (!leafLayers.empty())`, in so many levels; `none` if they run out.
    unfoldable pub levels : ℕ → List ℕ → List ℕ → S → Option S
    unfolding dissect_layers
    levels depth [] ids s = some s
    levels zero (layer ∷ layers) ids s = none
    levels (suc depth) (layer ∷ layers) ids s =
        elim (dissect_layers (layer ∷ layers)
          (record { next = []; dissected_ids = ids; state = s })) [
            | none ↦ none
            | some v ↦ levels depth v.next v.dissected_ids v.state
          ]

    unfoldable pub dissect_frames : ℕ → List ℕ → S → Option S
    unfolding levels
    dissect_frames depth [] s = some s
    dissect_frames depth (frame ∷ frames) s = elim (root_of frame s) [
      | none ↦ dissect_frames depth frames s
      | some root ↦ elim (levels depth (root ∷ []) [] s) [
        | none ↦ none
        | some after ↦ dissect_frames depth frames after
      ]
    ]

    -- `loop` after the wait.
    unfoldable pub loop : ℕ → Queue ℕ → S → Option (Looped S)
    unfolding dissect_frames
    loop depth q s =
        let taken = dequeue 128 q in
        elim (taken.0) [
          | stopped ↦ some ends
          | got frames ↦ elim (dissect_frames depth frames s) [
            | none ↦ none
            | some after ↦ some (goes_on frames taken.1 after)
          ]
        ]
