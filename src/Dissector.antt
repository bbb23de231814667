-- ===== src/Dissector.antt =====
-- plugkit/src/dissector_thread.cpp: what a dissector thread does with one layer of a frame. `S` is
-- what the dissectors work on, their own state and the layers; a dissector is known by the place of
-- its `DissectorContext`, and `examine`, `analyze` and `createWorker` are what it brings.
pub mod Rounds
pub mod Loop
pub mod Frames
mod Tests
use deplug.Common.{
  ℕ, zero, suc, ◌+◌, true, false, ◌&&◌, not, Option, none, some, List, [], ◌∷◌, ◌++◌, ltb,
  if◌then◌else◌,
}
use deplug.TagFilter.{TagFilter, make, match}
use deplug.FrameStore.{contains}

-- `enter`: the filters of the dissectors that have a layer hint other than `Token_null()`.
unfoldable pub hints : List ℕ → List ℕ
hints [] = []
hints (zero ∷ tags) = hints tags
hints (suc tag ∷ tags) = suc tag ∷ hints tags

unfoldable pub enter : List (List ℕ) → List TagFilter
unfolding hints make
enter [] = []
enter (layer_hints ∷ dissectors) =
    let rest = enter dissectors in
    elim (hints layer_hints) [ [] ↦ rest | tag ∷ tags ↦ make (tag ∷ tags) ∷ rest ]

-- What the thread calls. `create_worker` is the statement that makes the worker if there is none yet.
pub record Calls (S : Type 0) : Type 0 where
  pub create_worker : ℕ → S → S
  pub examine : ℕ → S → ℕ × S
  pub analyze : ℕ → S → S
  pub tags : S → List ℕ
  -- `layer->layers()` with the id of each.
  pub children : S → List (ℕ × ℕ)

-- The dissectors that have not been used on the layer and whose filter matches; `place` is that of
-- the first filter.
unfoldable pub select : List TagFilter → ℕ → List ℕ → List ℕ → List ℕ
unfolding contains match
select [] place used tags = []
select (filter ∷ filters) place used tags =
    let rest = select filters (place + 1) used tags in
    if not (contains place used) && match filter tags then place ∷ rest else rest

-- The children whose ids have not been dissected.
unfoldable pub fresh_children : List ℕ → List (ℕ × ℕ) → List ℕ
unfolding contains
fresh_children dissected_ids [] = []
fresh_children dissected_ids ((layer, id) ∷ layers) =
    let rest = fresh_children dissected_ids layers in
    if contains id dissected_ids then rest else layer ∷ rest

module _ {S : Type 0} (c : Calls S) (threshold : ℕ) (dissected_ids : List ℕ) where
  -- The loop over the selected dissectors: the layers to look at next, and the state.
  unfoldable pub dissect : List ℕ → List ℕ → S → List ℕ × S
  unfolding fresh_children
  dissect [] next s = (next, s)
  dissect (d ∷ ds) next s =
      let examined = c.examine d (c.create_worker d s) in
      elim (ltb examined.0 threshold) [
        | true ↦ dissect ds next examined.1
        | false ↦
            let analyzed = c.analyze d examined.1 in
            dissect ds (next ++ fresh_children dissected_ids (c.children analyzed)) analyzed
      ]

  -- What `while (true)` ends with.
  pub record Ended : Type 0 where
    pub used : List ℕ
    pub next : List ℕ
    pub state : S

  -- The loop, in so many rounds; `none` if they run out.
  unfoldable pub rounds : List TagFilter → ℕ → List ℕ → List ℕ → S → Option Ended
  unfolding select dissect
  rounds filters zero used next s = none
  rounds filters (suc left) used next s = elim (select filters 0 used (c.tags s)) [
    | [] ↦ some (record { used = used; next = next; state = s })
    | d ∷ ds ↦
        let after = dissect (d ∷ ds) next s in rounds filters left (used ++ d ∷ ds) after.0 after.1
  ]
