-- ===== src/StreamDissector/Steps.antt =====
-- One round of `analyze` over the workers of a stream, worker by worker.
use deplug.Common.{
  ℕ, ◌+◌, ◌≤◌, ◌<◌, ◌≡◌, refl, sym, ap, ◌∙◌, ◌⊎◌, inl, inr, true, false, some, List, [], ◌∷◌, arith,
  ltb, ◌==◌, if◌then◌else◌, Bool-cases, Option-cases, length, get_elem?, some_eq,
}
use mathlib.Core.Path.{subst}
use deplug.FrameStore.{contains}
use deplug.Dissector.Rounds.{count, count_absent, IsOnce}
use deplug.StreamDissector.Workers.{place_is}
use deplug.StreamDissector.{Dissector, Layers, find, hints_match, Round, run_dissector, dissect}

-- How many of the workers' dissectors have not been used.
unfoldable pub left : {W : Type 0} → List (ℕ × W) → List ℕ → ℕ
left [] used = 0
left ((d, w) ∷ m) used = let rest = left m used in if contains d used then rest else rest + 1

module _ {W : Type 0} where
  pub left-bound : (m : List (ℕ × W)) (used : List ℕ) → left m used ≤ length m
  unfolding left
  left-bound [] used = omega arith
  left-bound ((d, w) ∷ m) used = ground (arith, left-bound m used)

  left_mono :
      (m : List (ℕ × W)) (used more : List ℕ)
      → ((d : ℕ) → contains d used ≡ true → contains d more ≡ true)
      → left m more ≤ left m used
  unfolding left
  left_mono [] used more h = omega arith
  left_mono ((d, w) ∷ m) used more h =
      let rest = left_mono m used more h in
      elim (Bool-cases (contains d used)) [
        | inl e ↦ ground (arith, h d e)
        | inr e ↦ ground (arith, e)
      ]

  pub left_fewer :
      (m : List (ℕ × W)) (used more : List ℕ) (d : ℕ) (w : W)
      → ((d : ℕ) → contains d used ≡ true → contains d more ≡ true)
      → find d m ≡ some w
      → contains d used ≡ false
      → contains d more ≡ true
      → left m more < left m used
  unfolding left find
  left_fewer [] used more d w h e old new = absurd (cc)
  left_fewer ((k, v) ∷ m) used more d w h e old new = elim (Bool-cases (k == d)) [
    | inl same ↦
        let here : k ≡ d = ground arith in
        let before : contains k used ≡ false = rw here old in
        let after : contains k more ≡ true = rw here new in
        ground (arith, left_mono m used more h, before, after)
    | inr other ↦
        let there : find d m ≡ some w = ground arith in
        let rest = left_fewer m used more d w h there old new in
        elim (Bool-cases (contains k used)) [
          | inl f ↦ ground (arith, h k f)
          | inr f ↦ ground (arith, f)
        ]
  ]

module _ {S W : Type 0} (l : Layers S) (no_worker : W) (threshold : ℕ) where
  pub run-used :
      (diss : Dissector S W) (place : ℕ) (w : W) (layer id : ℕ) (r : Round S W)
      → (run_dissector l no_worker threshold diss place w layer id r).used ≡ r.used
  unfolding run_dissector
  run-used diss place w layer id r =
      elim (Bool-cases (ltb (diss.examine w layer r.ctx).0 threshold)) [
        | inl e ↦ rw e
        | inr e ↦ rw e
      ]

  run-dissectable :
      (diss : Dissector S W) (place : ℕ) (w : W) (layer id : ℕ) (r : Round S W)
      → (run_dissector l no_worker threshold diss place w layer id r).dissectable ≡ r.dissectable
  unfolding run_dissector
  run-dissectable diss place w layer id r =
      elim (Bool-cases (ltb (diss.examine w layer r.ctx).0 threshold)) [
        | inl e ↦ rw e
        | inr e ↦ rw e
      ]

module _ {S W : Type 0} (l : Layers S) (no_worker : W) (threshold : ℕ) where
  module _ (dissectors : List (Dissector S W)) (tags : List ℕ) (layer id : ℕ) where
    -- The round after a dissector ran.
    abbrev pub ran : Dissector S W → ℕ → W → Round S W → Round S W
    ran diss place w r =
        run_dissector l no_worker threshold diss place w layer id
          (record r { used = place ∷ r.used; dissectable = true })

    abbrev pub over : List (ℕ × W) → Round S W → Round S W
    over = dissect l no_worker threshold dissectors tags layer id

    -- What the round does with one worker: it is passed over, or its dissector runs.
    pub over_step :
        (place : ℕ) (w : W) (m : List (ℕ × W)) (r : Round S W)
        → ((over ((place, w) ∷ m) r ≡ over m r)
            × ((diss : Dissector S W)
                → get_elem? dissectors place ≡ some diss
                → hints_match tags diss.layer_hints false ≡ true
                → contains place r.used ≡ true))
          ⊎ ((diss : Dissector S W) × (get_elem? dissectors place ≡ some diss)
              × (contains place r.used ≡ false)
              × (over ((place, w) ∷ m) r ≡ over m (ran diss place w r))
              × (hints_match tags diss.layer_hints false ≡ true))
    unfolding dissect
    over_step place w m r = elim (Option-cases (get_elem? dissectors place)) [
      | inl e ↦ inl (rw (e, dissect), λ diss at hit. absurd (cc))
      | inr (diss, e) ↦ elim (Bool-cases (hints_match tags diss.layer_hints false)) [
        | inr miss ↦ inl (
          rw (e, dissect, miss),
          λ other at hit.
              let same : other ≡ diss = some_eq (sym at ∙ e) in
              let hit' : hints_match tags diss.layer_hints false ≡ true = rw (← same) hit in
              absurd (cc),
        )
        | inl hit ↦ elim (Bool-cases (contains place r.used)) [
          | inl old ↦ inl (rw (e, dissect, hit, old), λ other at h. old)
          | inr new ↦ inr (diss, e, new, rw (e, dissect, hit, new), hit)
        ]
      ]
    ]

    pub over_induction :
        (P : Round S W → Type 0)
        → ((diss : Dissector S W) (place : ℕ) (w : W) (r : Round S W)
            → contains place r.used ≡ false
            → P r
            → P (ran diss place w r))
        → (m : List (ℕ × W)) (r : Round S W) → P r
        → P (over m r)
    unfolding dissect
    over_induction P h [] r p = p
    over_induction P h ((place, w) ∷ m) r p = elim (over_step place w m r) [
      | inl (e, skipped) ↦ subst P (sym e) (over_induction P h m r p)
      | inr (diss, at, new, e, hit) ↦
          subst P (sym e) (over_induction P h m (ran diss place w r) (h diss place w r new p))
    ]

    ran-used :
        (diss : Dissector S W) (place : ℕ) (w : W) (r : Round S W)
        → (ran diss place w r).used ≡ place ∷ r.used
    ran-used diss place w r =
        run-used l no_worker threshold diss place w layer id
          (record r { used = place ∷ r.used; dissectable = true })

    pub grows :
        (m : List (ℕ × W)) (r : Round S W) (d : ℕ)
        → contains d r.used ≡ true
        → contains d (over m r).used ≡ true
    unfolding contains
    grows m r d =
        over_induction (λ r. contains d r.used ≡ true)
          (λ diss place w r new h. ap (contains d) (ran-used diss place w r) ∙ ground (arith, h)) m
          r

    stays :
        (m : List (ℕ × W)) (r : Round S W) → r.dissectable ≡ true → (over m r).dissectable ≡ true
    stays =
        over_induction (λ r. r.dissectable ≡ true)
          (λ diss place w r new h.
            run-dissectable l no_worker threshold diss place w layer id
              (record r { used = place ∷ r.used; dissectable = true }))

    pub IsOnce-over : (m : List (ℕ × W)) (r : Round S W) → IsOnce r.used → IsOnce (over m r).used
    unfolding count
    IsOnce-over =
        over_induction (λ r. IsOnce r.used)
          (λ diss place w r new once d.
            let e = ran-used diss place w r in
            let before = once d in
            let here = count_absent place r.used new in
            subst (λ used. count d used ≤ 1) (sym e)
              (elim (Bool-cases (place == d)) [
                | inl same ↦
                    let there : count d r.used ≡ 0 =
                      ap (λ k. count k r.used) (sym (place_is place d same)) ∙ here in
                    ground (arith, there)
                | inr other ↦ ground (arith, before)
              ]))

    pub chooses :
        (m : List (ℕ × W)) (r : Round S W)
        → r.dissectable ≡ false
        → (over m r).dissectable ≡ true
        → (d : ℕ) × (w : W) × (find d m ≡ some w)
          × (contains d r.used ≡ false)
          × (contains d (over m r).used ≡ true)
    unfolding dissect find contains
    chooses [] r off on = absurd (cc)
    chooses ((place, w) ∷ m) r off on = elim (over_step place w m r) [
      | inl (e, skipped) ↦
          let (d, v, at, old, new) = chooses m r off (sym (ap (λ r. r.dissectable) e) ∙ on) in
          let new' = ap (λ r. contains d r.used) e ∙ new in
          elim (Bool-cases (place == d)) [
            | inl same ↦ (d, w, ground arith, old, new')
            | inr other ↦ (d, v, ground arith, old, new')
          ]
      | inr (diss, at, new, e, hit) ↦ (
        place,
        w,
        ground arith,
        new,
        ap (λ r. contains place r.used) e
            ∙ grows m (ran diss place w r) place
                (ap (contains place) (ran-used diss place w r) ∙ ground arith),
      )
    ]

    -- A round in which no dissector ran.
    pub quiet :
        (m : List (ℕ × W)) (r : Round S W)
        → (over m r).dissectable ≡ false
        → (over m r ≡ r)
          × ((d : ℕ) (w : W) (diss : Dissector S W)
              → find d m ≡ some w
              → get_elem? dissectors d ≡ some diss
              → hints_match tags diss.layer_hints false ≡ true
              → contains d r.used ≡ true)
    unfolding dissect find
    quiet [] r off = (refl, λ d w diss e at hit. absurd (cc))
    quiet ((place, v) ∷ m) r off = elim (over_step place v m r) [
      | inl (e, skipped) ↦
          let (same, rest) = quiet m r (sym (ap (λ r. r.dissectable) e) ∙ off) in
          (
            e ∙ same,
            λ d w diss f at hit. elim (Bool-cases (place == d)) [
              | inl is ↦
                  let here = place_is place d is in
                  ap (λ k. contains k r.used) (sym here)
                  ∙ skipped diss (ap (get_elem? dissectors) here ∙ at) hit
              | inr other ↦ rest d w diss (ground arith) at hit
            ],
          )
      | inr (diss, at, new, e, hit) ↦
          let on = stays m (ran diss place v r) (
            run-dissectable l no_worker threshold diss place v layer id
              (record r { used = place ∷ r.used; dissectable = true })) in
          absurd (let on' = ap (λ r. r.dissectable) e ∙ on in cc)
    ]
