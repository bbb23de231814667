-- ===== src/StreamPool/Progress.antt =====
-- The index that `updateIndex` returns, against the frames that are still with a thread.
use deplug.Common.{
  ℕ, zero, suc, ◌≤◌, ◌<◌, max, ◌≡◌, ◌≢◌, ◌⊎◌, refl, ap, sym, ◌∙◌, inl, inr, ◌&&◌, some, List, [],
  ◌∷◌, arith, ltb, if◌then◌else◌, Bool-cases, Option-cases, get_elem?, set,
}
use deplug.Layer.Heap.{get_elem?-set_self, get_elem?-set_other, get_elem?-lt}
use deplug.StreamPool.{Stat, raise, most_pushed, least_pending, ready_index, update_index}

-- The greatest index that any thread was given.
abbrev pub top : List Stat → ℕ
top [] = 0
top (s ∷ ss) = max s.pushed (top ss)

-- Every thread that has yet to dissect what it was given last has dissected up to `n`.
abbrev AllDone : ℕ → List Stat → Type 0
AllDone n [] = Unit {0}
AllDone n (s ∷ ss) = (s.dissected < s.pushed → n ≤ s.dissected) × AllDone n ss

most_pushed-top : (ss : List Stat) (n : ℕ) → most_pushed ss n ≡ max n (top ss)
unfolding most_pushed
most_pushed-top [] n = omega arith
most_pushed-top (s ∷ ss) n =
    ground (arith, most_pushed-top ss (if ltb n s.pushed then s.pushed else n))

least_pending-le : (ss : List Stat) (n : ℕ) → least_pending ss n ≤ n
unfolding least_pending
least_pending-le [] n = omega arith
least_pending-le (s ∷ ss) n = ground (
  arith,
  least_pending-le ss
      (if ltb s.dissected s.pushed then (if ltb s.dissected n then s.dissected else n) else n),
)

least_pending-AllDone : (ss : List Stat) (n : ℕ) → AllDone (least_pending ss n) ss
unfolding least_pending
least_pending-AllDone [] n = tt
least_pending-AllDone (s ∷ ss) n =
    let rest =
      (if ltb s.dissected s.pushed then (if ltb s.dissected n then s.dissected else n) else n) in
    (λ p. ground (arith, least_pending-le ss rest), least_pending-AllDone ss rest)

ready_index-AllDone : (ss : List Stat) → AllDone (ready_index ss) ss
unfolding ready_index
ready_index-AllDone ss = least_pending-AllDone ss (most_pushed ss 0)

pub update_index-ready :
    (thread pushed dissected : ℕ) (stats after : List Stat) (r : ℕ)
    → update_index thread pushed dissected stats ≡ some (r, after)
    → r ≡ ready_index after
unfolding update_index
update_index-ready thread pushed dissected stats after r e =
    elim (Option-cases (get_elem? stats thread)) [
      | inl missing ↦ ground arith
      | inr (s, found) ↦ ground arith
    ]

get_elem?-AllDone :
    (n t : ℕ) (ss : List Stat) (s : Stat)
    → AllDone n ss
    → get_elem? ss t ≡ some s
    → s.dissected < s.pushed
    → n ≤ s.dissected
get_elem?-AllDone n t [] s a e p = absurd (cc)
get_elem?-AllDone n zero (x ∷ ss) s a e p = ground (arith, a.0)
get_elem?-AllDone n (suc t) (x ∷ ss) s a e p = get_elem?-AllDone n t ss s a.1 e p

-- The result never passes what a thread with a pending frame has dissected.
pub update_index-le_pending :
    (thread pushed dissected t : ℕ) (stats after : List Stat) (r : ℕ) (s : Stat)
    → update_index thread pushed dissected stats ≡ some (r, after)
    → get_elem? after t ≡ some s
    → s.dissected < s.pushed
    → r ≤ s.dissected
update_index-le_pending thread pushed dissected t stats after r s e found pending =
    rw (update_index-ready thread pushed dissected stats after r e)
      (get_elem?-AllDone (ready_index after) t after s (ready_index-AllDone after) found pending)

-- A thread with a frame that it was given last and has not dissected.
abbrev pub IsPending : List Stat → ℕ → Type 0
IsPending ss dissected =
    (t : ℕ) × (s : Stat) × (get_elem? ss t ≡ some s)
    × (s.dissected < s.pushed)
    × (dissected ≡ s.dissected)

least_pending-cases :
    (ss : List Stat) (n : ℕ) → (least_pending ss n ≡ n) ⊎ IsPending ss (least_pending ss n)
unfolding least_pending
least_pending-cases [] n = inl refl
least_pending-cases (s ∷ ss) n = elim (Bool-cases (ltb s.dissected s.pushed && ltb s.dissected n)) [
  | inr other ↦
      let same : (if ltb s.dissected s.pushed
            then (if ltb s.dissected n then s.dissected else n)
            else n)
          ≡ n =
        ground arith in
      rw same (elim (least_pending-cases ss n) [
        | inl e ↦ inl e
        | inr (t, p, at, pending, e) ↦ inr (suc t, p, at, pending, e)
      ])
  | inl lower ↦
      let pending : s.dissected < s.pushed = ground arith in
      let same : (if ltb s.dissected s.pushed
            then (if ltb s.dissected n then s.dissected else n)
            else n)
          ≡ s.dissected =
        ground arith in
      rw same (elim (least_pending-cases ss s.dissected) [
        | inl e ↦ inr (zero, s, refl, pending, e)
        | inr (t, p, at, wait, e) ↦ inr (suc t, p, at, wait, e)
      ])
]

ready_index-cases : (ss : List Stat) → (ready_index ss ≡ top ss) ⊎ IsPending ss (ready_index ss)
unfolding ready_index
ready_index-cases ss = elim (least_pending-cases ss (most_pushed ss 0)) [
  | inl e ↦ inl (omega (arith, most_pushed-top ss 0))
  | inr p ↦ inr p
]

-- `updateIndex` raises the two indices of its thread, those of the others stay. A frame that is
-- waiting in a thread, which is one past the last that the thread has dissected and up to the last
-- that it was given, is past the result. And the result is as great as the last frame that any
-- thread was given, or it is the last frame that some thread has dissected which still has one to
-- dissect: such a thread holds the result back at this frame, also where all frames that follow it
-- are with other threads and done.
pub update_index-waiting :
    (thread pushed dissected : ℕ) (stats : List Stat) (old : Stat)
    → get_elem? stats thread ≡ some old
    → (after : List Stat) × (r : ℕ) × (update_index thread pushed dissected stats ≡ some (r, after))
      × (get_elem? after thread
          ≡ some
              (record { pushed = max old.pushed pushed; dissected = max old.dissected dissected }))
      × ((other : ℕ) → other ≢ thread → get_elem? after other ≡ get_elem? stats other)
      × ((t frame : ℕ) (s : Stat)
          → get_elem? after t ≡ some s
          → s.dissected < frame
          → frame ≤ s.pushed
          → r < frame)
      × ((r ≡ top after) ⊎ IsPending after r)
unfolding update_index raise
update_index-waiting thread pushed dissected stats old found =
    let after = set stats thread (raise pushed dissected old) in
    let most : (if ltb old.pushed pushed then pushed else old.pushed) ≡ max old.pushed pushed =
      ground arith in
    let far : (if ltb old.dissected dissected then dissected else old.dissected)
        ≡ max old.dissected dissected =
      ground arith in
    (
      after,
      ready_index after,
      rw (update_index, found),
      get_elem?-set_self stats thread (raise pushed dissected old)
            (get_elem?-lt stats thread old found)
          ∙ ap
              (λ p.
                some (record { pushed = p; dissected = (raise pushed dissected old).dissected }))
              most
          ∙ ap (λ d. some (record { pushed = max old.pushed pushed; dissected = d })) far,
      λ other apart.
          get_elem?-set_other stats thread other (raise pushed dissected old) (λ e. apart (sym e)),
      λ t frame s at beyond up.
          let p : s.dissected < s.pushed = omega arith in
          let below =
            get_elem?-AllDone (ready_index after) t after s (ready_index-AllDone after) at p in
          omega arith,
      ready_index-cases after,
    )
