-- ===== src/FileExporter.antt =====
-- plugkit/src/file_exporter_task.cpp: the callback by which an exporter takes the frames, block by
-- block. `V` stands for `const FrameView *`, `raw` for `createRawFrame`. Other threads use the store
-- meanwhile: `stores k` is the store when `get` is called for the `k`-th time, from 0 on, and `old k`
-- what is then in the array of the results, which is not initialised. `len` is the number of dissected
-- frames when the task started. `progress` has the offsets of the progress callbacks.
pub mod Selection
pub mod Blocks
mod Tests
use deplug.Common.{
  ℕ, zero, suc, ◌+◌, ◌-◌, Bool, true, false, Option, none, some, List, [], ◌∷◌, ◌++◌, leb, ◌==◌,
  if◌then◌else◌, get_elem?,
}
use deplug.FrameStore.{FrameStore, get}

abbrev pub block_size : ℕ
block_size = 1024

-- What `Filter::test` leaves for a view where `old` was: the function that the filter's script gives
-- may throw, and there may be none.
unfoldable pub result : {V : Type 0} → Option (V → Option Bool) → Bool → V → Bool
result none old view = old
result (some func) old view = elim (func view) [ none ↦ old | some value ↦ value ]

-- `!data->filter || results[i]`
unfoldable pub passes : {V : Type 0} → Option (Option (V → Option Bool)) → Bool → V → Bool
unfolding result
passes none old view = true
passes (some func) old view = result func old view

-- The same past the views, where `test` does not write.
unfoldable pub passes_past : {V : Type 0} → Option (Option (V → Option Bool)) → Bool → Bool
passes_past none old = true
passes_past (some func) old = old

module _ {V R : Type 0} (filter : Option (Option (V → Option Bool))) (raw : V → R) where
  -- The loop over the results, from `i` on, where `left` is `size - i`; `none` is a read past the
  -- end of `views`.
  unfoldable pub keep : (ℕ → Bool) → List V → ℕ → ℕ → Option (List R)
  unfolding passes passes_past
  keep old views zero i = some []
  keep old views (suc left) i =
      let rest = keep old views left (i + 1) in
      elim (get_elem? views i) [
        | none ↦ if passes_past filter (old i) then none else rest
        | some v ↦ elim rest [
          | none ↦ none
          | some raws ↦ some (if passes filter (old i) v then raw v ∷ raws else raws)
        ]
      ]

-- What a call of `apiCallback` leaves: the frames, none for `nullptr`, the new offset, and how often
-- `get` was called so far.
pub record Block (R : Type 0) : Type 0 where
  pub frames : Option (List R)
  pub offset : ℕ
  pub gets : ℕ
  pub progress : List ℕ

module _ {F V R : Type 0} (filter : Option (Option (V → Option Bool))) (raw : V → R)
    (stores : ℕ → FrameStore F V) (old : ℕ → ℕ → Bool) (len : ℕ) where
  -- `while (data->frames.empty())`, in rounds; `none` if they run out, or if a view is read past the
  -- end.
  unfoldable pub api_loop : ℕ → ℕ → ℕ → ℕ → List ℕ → Option (Block R)
  unfolding keep get
  api_loop zero size offset gets progress = none
  api_loop (suc rounds) size offset gets progress =
      let size' = if leb len (offset + size) then len - offset else size in
      let progress' = progress ++ offset ∷ [] in
      elim (size' == 0) [
        | true ↦ some (record { frames = none; offset = offset; gets = gets; progress = progress' })
        | false ↦ elim (keep filter raw (old gets) (get offset size' (stores gets)) size' 0) [
          | none ↦ none
          | some [] ↦ api_loop rounds size' (offset + size') (gets + 1) progress'
          | some (f ∷ fs) ↦ some (record {
            frames = some (f ∷ fs);
            offset = offset + size';
            gets = gets + 1;
            progress = progress';
          })
        ]
      ]

  unfoldable pub api_callback : ℕ → ℕ → List ℕ → Option (Block R)
  unfolding api_loop
  api_callback offset gets progress = api_loop (len + 1) block_size offset gets progress

  -- The calls of an exporter that goes on until it gets `nullptr`: the blocks that it gets.
  unfoldable pub export_all : ℕ → ℕ → ℕ → List ℕ → Option (List (List R))
  unfolding api_callback
  export_all zero offset gets progress = none
  export_all (suc calls) offset gets progress = elim (api_callback offset gets progress) [
    | none ↦ none
    | some b ↦ elim (b.frames) [
      | none ↦ some []
      | some fs ↦ elim (export_all calls b.offset b.gets b.progress) [
        | none ↦ none
        | some blocks ↦ some (fs ∷ blocks)
      ]
    ]
  ]
