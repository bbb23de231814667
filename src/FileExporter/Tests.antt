-- ===== src/FileExporter/Tests.antt =====
-- A store with four views, to which a fifth comes during the export; the even ones pass.
use deplug.Common.{
  ℕ, ◌+◌, ◌%◌, ◌≡◌, refl, Bool, true, false, Option, ◌==◌, none, some, List, [], ◌∷◌, arith,
}
use deplug.FrameStore.{FrameStore, slice}
use deplug.FileExporter.{passes, export_all}
use deplug.FileExporter.Selection.{selected}
use deplug.FileExporter.Blocks.{concat, export_all-exported}

abbrev store : List ℕ → FrameStore ℕ ℕ
store views = record {
  sequence = [];
  frames = [];
  views = views;
  max_seq = 5;
  closed_threads = [];
  closed = false;
  callbacks = 0;
  notifies = 0;
}

abbrev four : List ℕ
four = 1 ∷ 2 ∷ 3 ∷ 4 ∷ []

abbrev stores : ℕ → FrameStore ℕ ℕ
stores k = store (1 ∷ 2 ∷ 3 ∷ 4 ∷ 5 ∷ [])

abbrev junk : ℕ → ℕ → Bool
junk k i = true

abbrev even : Option (Option (ℕ → Option Bool))
even = some (some (λ v. some (v % 2 == 0)))

even_blocks : export_all even (λ v. v + 100) stores junk 4 5 0 0 [] ≡ some ((102 ∷ 104 ∷ []) ∷ [])
unfolding export_all slice
even_blocks = refl

-- Where the function always throws, what was in the results decides.
all_throw :
    export_all (some (some (λ v. none))) (λ v. v + 100) stores junk 4 5 0 0 []
    ≡ some ((101 ∷ 102 ∷ 103 ∷ 104 ∷ []) ∷ [])
unfolding export_all slice
all_throw = refl

-- Where the views have become fewer, they are read past the end.
shrunk : export_all even (λ v. v + 100) (λ k. store (1 ∷ [])) junk 4 5 0 0 [] ≡ none
unfolding export_all slice
shrunk = refl

export_all-exported_example :
    (blocks : List (List ℕ)) × (export_all even (λ v. v + 100) stores junk 4 5 0 0 [] ≡ some blocks)
    × (concat blocks ≡ 102 ∷ 104 ∷ [])
unfolding selected passes
export_all-exported_example =
    export_all-exported even (λ v. v + 100) stores junk 4 (λ v. v % 2 == 0) four (λ b v. refl)
      (λ k. omega arith) (λ k. refl) (omega arith)
