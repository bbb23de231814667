-- ===== src/FileExporter/Blocks.antt =====
-- The blocks that an exporter gets.
use deplug.Common.{
  ℕ, zero, suc, ◌+◌, ◌-◌, ◌^◌, ◌<◌, ◌≤◌, ◌≡◌, refl, ap, sym, ◌∙◌, ◌⊎◌, inl, inr, Bool, true, Option,
  none, some, List, [], ◌∷◌, ◌++◌, leb, ltb, ◌==◌, if◌then◌else◌, arith, length, take, drop,
  Bool-cases, lt→ltb, length-take, length-drop,
}
use deplug.FrameStore.{FrameStore, get}
use deplug.FrameStore.Readers.{get_lem}
use deplug.FileExporter.Selection.{
  drop-split, drop-take_end, selected, selected-append, keep-selected,
}
use deplug.FileExporter.{passes, keep, Block, block_size, api_loop, api_callback, export_all}

abbrev pub concat : {R : Type 0} → List (List R) → List R
concat [] = []
concat (b ∷ bs) = b ++ concat bs

List-cases : {R : Type 0} (xs : List R) → (xs ≡ []) ⊎ ((x : R) × (rest : List R) × (xs ≡ x ∷ rest))
List-cases [] = inl refl
List-cases (x ∷ xs) = inr (x, xs, refl)

module _ {F V R : Type 0} (filter : Option (Option (V → Option Bool))) (raw : V → R)
    (stores : ℕ → FrameStore F V) (old : ℕ → ℕ → Bool) (len : ℕ) (wanted : V → Bool) (seen : List V)
    (sure : (b : Bool) (v : V) → passes filter b v ≡ wanted v)
    (there : (k : ℕ) → len ≤ length (stores k).views)
    (same : (k : ℕ) → take len (stores k).views ≡ seen) (small : len < 2 ^ 32) where
  -- The frames that are still to be exported.
  abbrev pub left : ℕ → List R
  left offset = selected wanted raw (drop offset seen)

  block_is :
      (k offset n : ℕ)
      → offset + n ≤ len
      → get offset n (stores k) ≡ take n (drop offset (stores k).views)
  block_is k offset n h =
      let fits : ltb (offset + n) (2 ^ 32) ≡ true = lt→ltb (offset + n) (2 ^ 32) (omega arith) in
      get_lem offset n (stores k) (omega arith) (omega arith) ∙ rw fits

  abbrev got_at : ℕ → ℕ → ℕ → List R
  got_at k offset n = selected wanted raw (get offset n (stores k))

  keep_block :
      (k offset n : ℕ)
      → offset + n ≤ len
      → keep filter raw (old k) (get offset n (stores k)) n 0 ≡ some (got_at k offset n)
  keep_block k offset n h =
      let views = (stores k).views in
      let size : 0 + n ≡ length (get offset n (stores k)) = omega (
        arith,
        there k,
        ap length (block_is k offset n h),
        length-take n (drop offset views),
        length-drop offset views,
      ) in
      keep-selected wanted raw filter (old k) (get offset n (stores k)) n 0 sure size

  left-split :
      (k offset n : ℕ) → offset + n ≤ len → left offset ≡ got_at k offset n ++ left (offset + n)
  left-split k offset n h =
      let views = (stores k).views in
      ap (λ s. selected wanted raw (drop offset s)) (sym (same k))
      ∙ ap (selected wanted raw) (drop-split offset n len views h)
      ∙ selected-append wanted raw (take n (drop offset views)) (drop (offset + n) (take len views))
      ∙ ap (λ b. selected wanted raw b ++ selected wanted raw (drop (offset + n) (take len views)))
          (sym (block_is k offset n h))
      ∙ ap (λ s. got_at k offset n ++ selected wanted raw (drop (offset + n) s)) (same k)

  abbrev part : ℕ → ℕ → ℕ
  part size offset = if leb len (offset + size) then len - offset else size

  part-bound :
      (size offset : ℕ)
      → offset ≤ len
      → (offset + part size offset ≤ len) × (part size offset ≤ size)
  part-bound size offset h = (ground arith, ground arith)

  part_zero : (size offset : ℕ) → offset ≤ len → 0 < size → part size offset ≡ 0 → offset ≡ len
  part_zero size offset h pos e = ground arith

  left-end : (offset : ℕ) → offset ≡ len → left offset ≡ []
  unfolding selected
  left-end offset e =
      ap (λ s. selected wanted raw (drop offset s)) (sym (same 0))
      ∙ ap (λ o. selected wanted raw (drop o (take len (stores 0).views))) e
      ∙ ap (selected wanted raw) (drop-take_end len (stores 0).views)

  -- What a call gives at an offset: the end, or a block.
  record Outcome (offset : ℕ) (b : Block R) : Type 0 where
    pub result :
        ((b.frames ≡ none) × (left offset ≡ []))
        ⊎ ((f : R) × (fs : List R) × (b.frames ≡ some (f ∷ fs))
            × (offset < b.offset)
            × (b.offset ≤ len)
            × (left offset ≡ (f ∷ fs) ++ left b.offset))

  move-Outcome :
      (offset offset' : ℕ) (b : Block R)
      → left offset ≡ left offset'
      → offset ≤ offset'
      → Outcome offset' b
      → Outcome offset b
  move-Outcome offset offset' b same h o = record {
    result = elim (o.result) [
      | inl (e, none_left) ↦ inl (e, same ∙ none_left)
      | inr (f, fs, e, on, inside, split) ↦ inr (f, fs, e, omega arith, inside, same ∙ split)
    ];
  }

  api_loop-Outcome :
      (rounds size offset gets : ℕ) (progress : List ℕ)
      → offset ≤ len
      → len < rounds + offset
      → 0 < size
      → (b : Block R) × (api_loop filter raw stores old len rounds size offset gets progress
          ≡ some b)
        × Outcome offset b
  unfolding api_loop
  api_loop-Outcome zero size offset gets progress h enough pos = absurd (omega arith)
  api_loop-Outcome (suc rounds) size offset gets progress h enough pos =
      let n = part size offset in
      let (inside, fits) = part-bound size offset h in
      let split = left-split gets offset n inside in
      let kept_some = keep_block gets offset n inside in
      elim (Bool-cases (n == 0)) [
        | inl e ↦
            let none_left = part_zero size offset h pos (ground arith) in
            (
              record {
                frames = none;
                offset = offset;
                gets = gets;
                progress = progress ++ offset ∷ [];
              },
              rw (api_loop, e),
              record { result = inl (refl, left-end offset none_left) },
            )
        | inr e ↦ elim (List-cases (got_at gets offset n)) [
          | inl none_kept ↦
              let (b, returns, o) =
                api_loop-Outcome rounds n (offset + n) (gets + 1) (progress ++ offset ∷ []) inside
                  (ground arith) (ground arith) in
              (
                b,
                rw (api_loop, e, kept_some, none_kept) returns,
                move-Outcome offset (offset + n) b
                    (split ∙ ap (λ k. k ++ left (offset + n)) none_kept) (omega arith) o,
              )
          | inr (f, fs, kept) ↦ (
            record {
              frames = some (f ∷ fs);
              offset = offset + n;
              gets = gets + 1;
              progress = progress ++ offset ∷ [];
            },
            rw (api_loop, e, kept_some, kept),
            record {
              result = inr (
                f,
                fs,
                refl,
                ground arith,
                inside,
                split ∙ ap (λ k. k ++ left (offset + n)) kept,
              );
            },
          )
        ]
      ]

  api_callback-Outcome :
      (offset gets : ℕ) (progress : List ℕ)
      → offset ≤ len
      → (b : Block R) × (api_callback filter raw stores old len offset gets progress ≡ some b)
        × Outcome offset b
  unfolding api_callback
  api_callback-Outcome offset gets progress h =
      api_loop-Outcome (len + 1) block_size offset gets progress h (omega arith) (omega arith)

  export_left :
      (calls offset gets : ℕ) (progress : List ℕ)
      → offset ≤ len
      → len < calls + offset
      → (blocks : List (List R)) × (export_all filter raw stores old len calls offset gets progress
          ≡ some blocks)
        × (concat blocks ≡ left offset)
  unfolding export_all
  export_left zero offset gets progress h enough = absurd (omega arith)
  export_left (suc calls) offset gets progress h enough =
      let (b, returns, o) = api_callback-Outcome offset gets progress h in
      elim (o.result) [
        | inl (e, none_left) ↦ ([], rw (export_all, returns, e), sym none_left)
        | inr (f, fs, e, on, inside, split) ↦
            let (blocks, returns', same) =
              export_left calls b.offset b.gets b.progress inside (omega arith) in
            (
              (f ∷ fs) ∷ blocks,
              rw (export_all, returns, e, returns'),
              ap (λ k. (f ∷ fs) ++ k) same ∙ sym split,
            )
      ]

  -- Provided that the store keeps, while the task runs, the views of the frames that were dissected
  -- when it started, which are less than 2 ^ 32, and that the filter answers for every view: an
  -- exporter that takes blocks until it gets none comes to an end, and no view is read past the end.
  -- It has got, block after block, exactly the frames of these views that pass the filter, each once
  -- and in order: no block boundary loses or doubles a frame, and no empty block ends the export
  -- early. What other threads add to the store, and what was in the array of the results, does not
  -- matter.
  pub export_all-exported :
      (blocks : List (List R)) × (export_all filter raw stores old len (len + 1) 0 0 []
        ≡ some blocks)
      × (concat blocks ≡ selected wanted raw seen)
  export_all-exported = export_left (len + 1) 0 0 [] (omega arith) (omega arith)
