-- ===== src/TagFilter/Bloom.antt =====
-- The Bloom filter turns no match away.
use deplug.Common.{
  ℕ, ◌≡◌, refl, sym, ◌∙◌, ◌↔◌, inl, inr, true, List, [], ◌∷◌, arith, ◌==◌, Bool-cases,
}
use Prim.Native.Nat.{bit_or}
use mathlib.Core.List.{Mem, Mem-prop, mem-cons, not-mem-nil, mem-cons_self, mem-cons_of_mem}
use mathlib.Core.Logic.Or
use deplug.Common.Bits.{
  IsSubmask, IsSubmask-zero, IsSubmask-refl, IsSubmask-or_left, IsSubmask-or_right, IsSubmask-join,
}
use deplug.TagFilter.{hash, hash_all, make, occurs, match_all, match}

hash_all_start :
    (tags : List ℕ) (a bloom : ℕ) → IsSubmask a bloom → IsSubmask a (hash_all tags bloom)
unfolding hash_all
hash_all_start [] a bloom s = s
hash_all_start (tag ∷ tags) a bloom s =
    hash_all_start tags a (bit_or bloom (hash tag)) (IsSubmask-or_left a bloom (hash tag) s)

occurs-hash_all :
    (filter : ℕ) (tags : List ℕ) (bloom : ℕ)
    → occurs filter tags ≡ true
    → IsSubmask (hash filter) (hash_all tags bloom)
unfolding occurs hash_all
occurs-hash_all filter [] bloom h = absurd (cc)
occurs-hash_all filter (tag ∷ tags) bloom h = elim (Bool-cases (filter == tag)) [
  | inl same ↦
      let e : filter ≡ tag = ground arith in
      rw e (
        hash_all_start tags (hash tag) (bit_or bloom (hash tag))
          (IsSubmask-or_right (hash tag) bloom (hash tag) (IsSubmask-refl (hash tag))))
  | inr other ↦ occurs-hash_all filter tags (bit_or bloom (hash tag)) (ground arith)
]

match_all-hash :
    (filters tags : List ℕ) (bloom : ℕ)
    → match_all filters tags ≡ true
    → IsSubmask bloom (hash_all tags 0)
    → IsSubmask (hash_all filters bloom) (hash_all tags 0)
unfolding match_all hash_all
match_all-hash [] tags bloom h s = s
match_all-hash (filter ∷ filters) tags bloom h s =
    match_all-hash filters tags (bit_or bloom (hash filter)) (ground arith) (
      IsSubmask-join bloom (hash filter) (hash_all tags 0) s
        (occurs-hash_all filter tags 0 (ground arith)))

mem_of_occurs : (filter : ℕ) (tags : List ℕ) → occurs filter tags ≡ true → Mem filter tags
unfolding occurs
mem_of_occurs filter [] h = absurd (cc)
mem_of_occurs filter (tag ∷ tags) h = elim (Bool-cases (filter == tag)) [
  | inl same ↦ let e : filter ≡ tag = ground arith in rw e mem-cons_self
  | inr other ↦ mem-cons_of_mem tag (mem_of_occurs filter tags (ground arith))
]

occurs_of_mem : (filter : ℕ) (tags : List ℕ) → Mem filter tags → occurs filter tags ≡ true
unfolding occurs
occurs_of_mem filter [] m = absurd (not-mem-nil m)
occurs_of_mem filter (tag ∷ tags) m =
    Or.elim (hlevel) (mem-cons.0 m) (λ e. ground arith)
      (λ rest. ground (arith, occurs_of_mem filter tags rest))

subset_of_match_all :
    (filters tags : List ℕ) → match_all filters tags ≡ true → (t : ℕ) → Mem t filters → Mem t tags
unfolding match_all
subset_of_match_all [] tags h t m = absurd (not-mem-nil m)
subset_of_match_all (filter ∷ filters) tags h t m =
    Or.elim Mem-prop (mem-cons.0 m) (λ e. rw e (mem_of_occurs filter tags (ground arith)))
      (subset_of_match_all filters tags (ground arith) t)

match_all_of_subset :
    (filters tags : List ℕ) → ((t : ℕ) → Mem t filters → Mem t tags) → match_all filters tags ≡ true
unfolding match_all
match_all_of_subset [] tags h = refl
match_all_of_subset (filter ∷ filters) tags h =
    let here = occurs_of_mem filter tags (h filter mem-cons_self) in
    let rest = match_all_of_subset filters tags (λ t m. h t (mem-cons_of_mem filter m)) in
    ground arith

-- `match` with the Bloom filter in front says what the search alone says.
pub match-eq-match_all :
    (filters tags : List ℕ) → match (make filters) tags ≡ match_all filters tags
unfolding match make
match-eq-match_all filters tags = elim (Bool-cases (match_all filters tags)) [
  | inl h ↦
      let s = match_all-hash filters tags 0 h (IsSubmask-zero (hash_all tags 0)) in
      ground (arith, s)
  | inr h ↦ ground arith
]

-- A filter matches exactly the tag lists that contain every one of its tags, whatever the order and
-- the repetitions; the Bloom filter in front of the search changes no answer.
pub match-mem :
    (filters tags : List ℕ)
    → (match (make filters) tags ≡ true) ↔ ((t : ℕ) → Mem t filters → Mem t tags)
match-mem filters tags = (
  λ h. subset_of_match_all filters tags (sym (match-eq-match_all filters tags) ∙ h),
  λ h. match-eq-match_all filters tags ∙ match_all_of_subset filters tags h,
)
