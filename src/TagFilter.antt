-- ===== src/TagFilter.antt =====
-- plugkit/src/tag_filter.cpp: the conjunction of layer tags that a dissector asks for, with a 64 bit
-- Bloom filter before the search.
pub mod Bloom
mod Tests
use deplug.Common.{ℕ, ◌%◌, ◌^◌, Bool, true, false, not, List, [], ◌∷◌, ◌==◌, if◌then◌else◌}
use Prim.Native.Nat.{bit_and, bit_or}

pub record TagFilter : Type 0 where
  pub filter_hash : ℕ
  pub filters : List ℕ

-- `1ull << (tag % 64)`
unfoldable pub hash : ℕ → ℕ
hash tag = 2 ^ (tag % 64)

-- `for (Token tag : tags) bloom |= hash(tag);`
unfoldable pub hash_all : List ℕ → ℕ → ℕ
unfolding hash
hash_all [] bloom = bloom
hash_all (tag ∷ tags) bloom = hash_all tags (bit_or bloom (hash tag))

unfoldable pub make : List ℕ → TagFilter
unfolding hash_all
make tags = record { filter_hash = hash_all tags 0; filters = tags }

-- The inner loop: `found`.
unfoldable pub occurs : ℕ → List ℕ → Bool
occurs filter [] = false
occurs filter (tag ∷ tags) = let rest = occurs filter tags in if filter == tag then true else rest

unfoldable pub match_all : List ℕ → List ℕ → Bool
unfolding occurs
match_all [] tags = true
match_all (filter ∷ filters) tags =
    let rest = match_all filters tags in if not (occurs filter tags) then false else rest

unfoldable pub match : TagFilter → List ℕ → Bool
unfolding hash_all match_all
match f tags =
    if not (bit_and f.filter_hash (hash_all tags 0) == f.filter_hash)
    then false
    else match_all f.filters tags
