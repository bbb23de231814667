-- ===== src/Dissector/Rounds.antt =====
-- The rounds over one layer end, use each dissector at most once, and leave out none that matches.
use deplug.Common.{
  ℕ, zero, suc, ◌+◌, ◌<◌, ◌≤◌, ◌≡◌, refl, ap, sym, ◌∙◌, ◌⊎◌, inl, inr, true, false, ◌||◌, Option,
  some, List, [], ◌∷◌, ◌++◌, ◌==◌, if◌then◌else◌, arith, length, get_elem?, Bool-cases, some_eq,
}
use deplug.TagFilter.{TagFilter, match}
use deplug.FrameStore.{contains}
use deplug.Dissector.{Calls, select, dissect, Ended, rounds}

pub contains-append :
    (d : ℕ) (xs ys : List ℕ) → contains d (xs ++ ys) ≡ (contains d xs || contains d ys)
unfolding contains
contains-append d [] ys = refl
contains-append d (x ∷ xs) ys = ground (arith, contains-append d xs ys)

-- How many of the filters from `place` on have not been used.
unfoldable left : List TagFilter → ℕ → List ℕ → ℕ
left [] place used = 0
left (f ∷ fs) place used =
    let rest = left fs (place + 1) used in if contains place used then rest else rest + 1

left-bound : (fs : List TagFilter) (place : ℕ) (used : List ℕ) → left fs place used ≤ length fs
unfolding left
left-bound [] place used = omega arith
left-bound (f ∷ fs) place used = ground (arith, left-bound fs (place + 1) used)

select-tail :
    (f : TagFilter) (fs : List TagFilter) (place : ℕ) (used tags : List ℕ) (d : ℕ)
    → contains d (select fs (place + 1) used tags) ≡ true
    → contains d (select (f ∷ fs) place used tags) ≡ true
unfolding select contains
select-tail f fs place used tags d h = ground arith

select-head :
    (f : TagFilter) (fs : List TagFilter) (place : ℕ) (used tags : List ℕ)
    → contains place used ≡ false
    → match f tags ≡ true
    → contains place (select (f ∷ fs) place used tags) ≡ true
unfolding select contains
select-head f fs place used tags h m = ground arith

left-select :
    (fs : List TagFilter) (place : ℕ) (used tags chosen : List ℕ)
    → ((d : ℕ) → contains d (select fs place used tags) ≡ true → contains d chosen ≡ true)
    → left fs place (used ++ chosen) + length (select fs place used tags) ≤ left fs place used
unfolding left select
left-select [] place used tags chosen h = omega arith
left-select (f ∷ fs) place used tags chosen h =
    let rest =
      left-select fs (place + 1) used tags chosen
        (λ d m. h d (select-tail f fs place used tags d m)) in
    let both = contains-append place used chosen in
    elim (Bool-cases (contains place used)) [
      | inl old ↦ ground (arith, rest, both, old)
      | inr new ↦ elim (Bool-cases (match f tags)) [
        | inr other ↦ ground (arith, rest, both, new, other)
        | inl hit ↦
            let picked = h place (select-head f fs place used tags new hit) in
            ground (arith, rest, both, new, hit, picked)
      ]
    ]

select_complete :
    (fs : List TagFilter) (place : ℕ) (used tags : List ℕ) (j : ℕ) (f : TagFilter)
    → select fs place used tags ≡ []
    → get_elem? fs j ≡ some f
    → match f tags ≡ true
    → contains (place + j) used ≡ true
unfolding select
select_complete [] place used tags j f e at m = absurd (cc)
select_complete (g ∷ fs) place used tags zero f e at m =
    let same : g ≡ f = some_eq at in
    let hit : match g tags ≡ true = ap (λ x. match x tags) same ∙ m in
    let here : place + 0 ≡ place = omega arith in rw here (ground (arith, e, hit))
select_complete (g ∷ fs) place used tags (suc j) f e at m =
    let there : place + suc j ≡ place + 1 + j = omega arith in
    let tail : select fs (place + 1) used tags ≡ [] = ground arith in
    rw there (select_complete fs (place + 1) used tags j f tail at m)

unfoldable pub count : ℕ → List ℕ → ℕ
count d [] = 0
count d (x ∷ xs) = let rest = count d xs in if x == d then rest + 1 else rest

count-append : (d : ℕ) (xs ys : List ℕ) → count d (xs ++ ys) ≡ count d xs + count d ys
unfolding count
count-append d [] ys = omega arith
count-append d (x ∷ xs) ys = ground (arith, count-append d xs ys)

pub count_absent : (d : ℕ) (xs : List ℕ) → contains d xs ≡ false → count d xs ≡ 0
unfolding count contains
count_absent d [] h = refl
count_absent d (x ∷ xs) h = ground (arith, count_absent d xs)

count-select_below :
    (d : ℕ) (fs : List TagFilter) (place : ℕ) (used tags : List ℕ)
    → d < place
    → count d (select fs place used tags) ≡ 0
unfolding count select
count-select_below d [] place used tags h = refl
count-select_below d (f ∷ fs) place used tags h =
    ground (arith, count-select_below d fs (place + 1) used tags (omega arith))

count-select :
    (d : ℕ) (fs : List TagFilter) (place : ℕ) (used tags : List ℕ)
    → (count d (select fs place used tags) ≤ 1)
      × (contains d used ≡ true → count d (select fs place used tags) ≡ 0)
unfolding count select
count-select d [] place used tags = (omega arith, λ h. refl)
count-select d (f ∷ fs) place used tags =
    let (once, old) = count-select d fs (place + 1) used tags in
    elim (Bool-cases (place == d)) [
      | inl e ↦
          let none_above = count-select_below d fs (place + 1) used tags (ground arith) in
          (ground arith, λ h. ground arith)
      | inr other ↦ (ground arith, λ h. ground arith)
    ]

List-cases : (xs : List ℕ) → (xs ≡ []) ⊎ ((d : ℕ) × (ds : List ℕ) × (xs ≡ d ∷ ds))
List-cases [] = inl refl
List-cases (d ∷ ds) = inr (d, ds, refl)

abbrev pub IsOnce : List ℕ → Type 0
IsOnce used = (d : ℕ) → count d used ≤ 1

IsOnce-select :
    (fs : List TagFilter) (used tags : List ℕ)
    → IsOnce used
    → IsOnce (used ++ select fs 0 used tags)
IsOnce-select fs used tags once d =
    let (few, old) = count-select d fs 0 used tags in
    let sum = count-append d used (select fs 0 used tags) in
    let before = once d in
    elim (Bool-cases (contains d used)) [
      | inl e ↦ let none_new = old e in omega arith
      | inr e ↦ let none_old = count_absent d used e in omega arith
    ]

module _ {S : Type 0} (c : Calls S) (threshold : ℕ) (ids : List ℕ) (fs : List TagFilter) where
  -- How the loop ends: every dissector was used at most once, and every one whose filter matches the
  -- tags that the layer has in the end was used.
  pub record Complete (result : Option (Ended c threshold ids)) : Type 0 where
    pub ended : Ended c threshold ids
    pub returns : result ≡ some ended
    pub once : IsOnce ended.used
    pub complete :
        (j : ℕ) (f : TagFilter)
        → get_elem? fs j ≡ some f
        → match f (c.tags ended.state) ≡ true
        → contains j ended.used ≡ true

  rounds_enough :
      (n : ℕ) (used next : List ℕ) (s : S)
      → left fs 0 used < n
      → IsOnce used
      → Complete (rounds c threshold ids fs n used next s)
  unfolding rounds
  rounds_enough zero used next s h once = absurd (omega arith)
  rounds_enough (suc n) used next s h once = elim (List-cases (select fs 0 used (c.tags s))) [
    | inl e ↦ record {
      ended = record { used = used; next = next; state = s };
      returns = rw (rounds, e);
      once = once;
      complete = λ j f at m.
          let start : 0 + j ≡ j = omega arith in
          ap (λ k. contains k used) (sym start) ∙ select_complete fs 0 used (c.tags s) j f e at m;
    }
    | inr (d, ds, e) ↦
        let after = dissect c threshold ids (d ∷ ds) next s in
        let fewer = left-select fs 0 used (c.tags s) (d ∷ ds) (λ k m. rw e at m) in
        let some_chosen : length (select fs 0 used (c.tags s)) ≡ suc (length ds) = ap length e in
        let once' : IsOnce (used ++ d ∷ ds) = rw e at (IsOnce-select fs used (c.tags s) once) in
        let rest = rounds_enough n (used ++ d ∷ ds) after.0 after.1 (omega arith) once' in
        record {
          ended = rest.ended;
          returns = rw (rounds, e) (rest.returns);
          once = rest.once;
          complete = rest.complete;
        }
  ]

  pub rounds_from :
      (next : List ℕ) (s : S) → Complete (rounds c threshold ids fs (length fs + 1) [] next s)
  unfolding count
  rounds_from next s =
      rounds_enough (length fs + 1) [] next s (omega (arith, left-bound fs 0 [])) (λ d. omega arith)

  -- Whatever the dissectors do to the layer and its tags, the loop over it ends, after at most one
  -- round more than there are dissectors: each was used at most once, and each whose filter matches
  -- the tags that the layer has in the end was used, also if another dissector added the tags.
  pub rounds-Complete : (s : S) → Complete (rounds c threshold ids fs (length fs + 1) [] [] s)
  rounds-Complete s = rounds_from [] s
