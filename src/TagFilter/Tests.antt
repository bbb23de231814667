-- ===== src/TagFilter/Tests.antt =====
-- plugkit/test/tag_filter_test.cpp with numbers for the tags: the filter 1, 2, 3.
use deplug.Common.{ℕ, ◌≡◌, refl, ◌↔◌, true, false, List, [], ◌∷◌}
use mathlib.Core.List.{Mem}
use deplug.TagFilter.{make, match}
use deplug.TagFilter.Bloom.{match-mem}

abbrev filter : List ℕ
filter = 1 ∷ 2 ∷ 3 ∷ []

permuted : match (make filter) (9 ∷ 3 ∷ 1 ∷ 2 ∷ []) ≡ true
unfolding match make
permuted = refl

missing : match (make filter) (2 ∷ []) ≡ false
unfolding match make
missing = refl

-- 65 has the bit of 1 in the Bloom filter.
collision : match (make filter) (65 ∷ 2 ∷ 3 ∷ []) ≡ false
unfolding match make
collision = refl

match-mem_example :
    (match (make filter) (9 ∷ 3 ∷ 1 ∷ 2 ∷ []) ≡ true)
    ↔ ((t : ℕ) → Mem t filter → Mem t (9 ∷ 3 ∷ 1 ∷ 2 ∷ []))
match-mem_example = match-mem filter (9 ∷ 3 ∷ 1 ∷ 2 ∷ [])
