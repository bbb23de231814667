-- ===== src/StreamDissector/Workers.antt =====
-- The map of the workers of a stream, before the rounds and after them.
use deplug.Common.{
  ℕ, ◌+◌, ◌≤◌, ◌<◌, ◌≡◌, refl, sym, ap, ◌∙◌, inl, inr, true, none, some, List, [], ◌∷◌, ◌++◌, arith,
  ◌==◌, if◌then◌else◌, Bool-cases, Option-cases, length, get_elem?,
}
use deplug.StreamDissector.{
  Ctx, Dissector, Layers, find, insert, erase, create_workers, close_workers,
}

pub place_is : (place d : ℕ) → (place == d) ≡ true → place ≡ d
place_is place d e = ground arith

module _ {W : Type 0} where
  pub find-insert :
      (d k : ℕ) (w : W) (m : List (ℕ × W))
      → find d (insert k w m) ≡ (if k == d then some w else find d m)
  unfolding find insert
  find-insert d k w [] = refl
  find-insert d k w ((j, v) ∷ m) = ground (arith, find-insert d k w m)

  pub find-erase :
      (d k : ℕ) (m : List (ℕ × W)) → find d (erase k m) ≡ (if k == d then none else find d m)
  unfolding find erase
  find-erase d k [] = ground arith
  find-erase d k ((j, v) ∷ m) = ground (arith, find-erase d k m)

  pub find-append :
      (d : ℕ) (xs ys : List (ℕ × W))
      → find d (xs ++ ys) ≡ (elim (find d xs) [ none ↦ find d ys | some w ↦ some w ])
  unfolding find
  find-append d [] ys = refl
  find-append d ((k, v) ∷ xs) ys = elim (Bool-cases (k == d)) [
    | inl e ↦ rw e
    | inr e ↦ rw (e, find-append d xs ys)
  ]

module _ {S W : Type 0} (l : Layers S) (no_worker : W) (threshold : ℕ) where
  abbrev pub made : List (Dissector S W) → ℕ → List (ℕ × W) → Ctx S → List (ℕ × W)
  made ds place m ctx = (create_workers l no_worker threshold ds place m ctx).0

  -- With one more worker, those that were there are there.
  find-insert_new :
      (d k : ℕ) (w v : W) (m : List (ℕ × W))
      → find k m ≡ none
      → find d m ≡ some v
      → find d (insert k w m) ≡ some v
  find-insert_new d k w v m new at = elim (Bool-cases (k == d)) [
    | inl e ↦
        let same : k ≡ d = ground arith in absurd (let at' = ap (λ k. find k m) same ∙ at in cc)
    | inr e ↦ rw (find-insert d k w m, e) at
  ]

  pub made_keeps :
      (ds : List (Dissector S W)) (place : ℕ) (m : List (ℕ × W)) (ctx : Ctx S) (d : ℕ) (w : W)
      → find d m ≡ some w
      → find d (made ds place m ctx) ≡ some w
  unfolding create_workers
  made_keeps [] place m ctx d w at = at
  made_keeps (diss ∷ ds) place m ctx d w at = elim (Option-cases (find place m)) [
    | inr (v, e) ↦ rw (e, find, made, create_workers) (made_keeps ds (place + 1) m ctx d w at)
    | inl e ↦ elim (Option-cases (diss.create_worker)) [
      | inl f ↦
          rw (e, find, made, create_workers, f)
            (made_keeps ds (place + 1) (insert place no_worker m) ctx d w
              (find-insert_new d place no_worker w m e at))
      | inr (create, f) ↦
          rw (e, find, made, create_workers, f)
            (made_keeps ds (place + 1) (insert place (create ctx).0 m) (create ctx).1 d w
              (find-insert_new d place (create ctx).0 w m e at))
    ]
  ]

  -- Each dissector has a worker.
  pub made_all :
      (ds : List (Dissector S W)) (place : ℕ) (m : List (ℕ × W)) (ctx : Ctx S) (d : ℕ)
      → place ≤ d
      → d < place + length ds
      → (w : W) × (find d (made ds place m ctx) ≡ some w)
  unfolding create_workers
  made_all [] place m ctx d low high = absurd (omega arith)
  made_all (diss ∷ ds) place m ctx d low high = elim (Option-cases (find place m)) [
    | inr (v, e) ↦ elim (Bool-cases (place == d)) [
      | inl is ↦
          let at : find d m ≡ some v = ap (λ k. find k m) (sym (place_is place d is)) ∙ e in
          (v, made_keeps (diss ∷ ds) place m ctx d v at)
      | inr other ↦
          rw (e, find, made, create_workers)
            (made_all ds (place + 1) m ctx d (ground arith) (omega arith))
    ]
    | inl e ↦ elim (Option-cases (diss.create_worker)) [
      | inl f ↦ elim (Bool-cases (place == d)) [
        | inl is ↦ (
          no_worker,
          rw (e, find, made, create_workers, f)
              (made_keeps ds (place + 1) (insert place no_worker m) ctx d no_worker
                (rw (find-insert d place no_worker m, is))),
        )
        | inr other ↦
            rw (e, find, made, create_workers, f)
              (made_all ds (place + 1) (insert place no_worker m) ctx d (ground arith)
                (omega arith))
      ]
      | inr (create, f) ↦ elim (Bool-cases (place == d)) [
        | inl is ↦ (
          (create ctx).0,
          rw (e, find, made, create_workers, f)
              (made_keeps ds (place + 1) (insert place (create ctx).0 m) (create ctx).1 d
                (create ctx).0 (rw (find-insert d place (create ctx).0 m, is))),
        )
        | inr other ↦
            rw (e, find, made, create_workers, f)
              (made_all ds (place + 1) (insert place (create ctx).0 m) (create ctx).1 d
                (ground arith) (omega arith))
      ]
    ]
  ]

  module _ (dissectors : List (Dissector S W)) where
    abbrev pub open_after : List (ℕ × W) → List (ℕ × W) → Ctx S → List (ℕ × W)
    open_after closed m ctx = (close_workers l no_worker threshold dissectors closed m ctx).0

    -- Closing takes away workers, and only those that are closed.
    pub open_after-other :
        (closed m : List (ℕ × W)) (ctx : Ctx S) (d : ℕ)
        → find d closed ≡ none
        → find d (open_after closed m ctx) ≡ find d m
    unfolding close_workers find
    open_after-other [] m ctx d h = refl
    open_after-other ((k, v) ∷ closed) m ctx d h = elim (Bool-cases (k == d)) [
      | inl e ↦ absurd (ground arith)
      | inr e ↦
          let rest : find d closed ≡ none = ground arith in
          let erased : find d (erase k m) ≡ find d m = rw (find-erase d k m, e) in
          elim (Option-cases (get_elem? dissectors k)) [
            | inl f ↦ rw (find, open_after, close_workers, f) (open_after-other closed m ctx d rest)
            | inr (diss, f) ↦ elim (Option-cases (diss.destroy_worker)) [
              | inl g ↦
                  rw (find, open_after, close_workers, f, g)
                    (open_after-other closed (erase k m) ctx d rest ∙ erased)
              | inr (destroy, g) ↦
                  rw (find, open_after, close_workers, f, g)
                    (open_after-other closed (erase k m) (destroy v ctx) d rest ∙ erased)
            ]
          ]
    ]

    pub open_after-none :
        (closed m : List (ℕ × W)) (ctx : Ctx S) (d : ℕ)
        → find d m ≡ none
        → find d (open_after closed m ctx) ≡ none
    unfolding close_workers
    open_after-none [] m ctx d h = h
    open_after-none ((k, v) ∷ closed) m ctx d h =
        let erased : find d (erase k m) ≡ none = rw (find-erase d k m) (ground (arith, h)) in
        elim (Option-cases (get_elem? dissectors k)) [
          | inl f ↦ rw (find, open_after, close_workers, f) (open_after-none closed m ctx d h)
          | inr (diss, f) ↦ elim (Option-cases (diss.destroy_worker)) [
            | inl g ↦
                rw (find, open_after, close_workers, f, g)
                  (open_after-none closed (erase k m) ctx d erased)
            | inr (destroy, g) ↦
                rw (find, open_after, close_workers, f, g)
                  (open_after-none closed (erase k m) (destroy v ctx) d erased)
          ]
        ]

    pub open_after-closed :
        (closed m : List (ℕ × W)) (ctx : Ctx S) (d : ℕ) (w : W) (diss : Dissector S W)
        → find d closed ≡ some w
        → get_elem? dissectors d ≡ some diss
        → find d (open_after closed m ctx) ≡ none
    unfolding close_workers find
    open_after-closed [] m ctx d w diss h at = absurd (cc)
    open_after-closed ((k, v) ∷ closed) m ctx d w diss h at = elim (Bool-cases (k == d)) [
      | inl e ↦
          let same : k ≡ d = ground arith in
          let here : get_elem? dissectors k ≡ some diss = ap (get_elem? dissectors) same ∙ at in
          let erased : find d (erase k m) ≡ none = rw (find-erase d k m, e) in
          elim (Option-cases (diss.destroy_worker)) [
            | inl g ↦
                rw (find, open_after, close_workers, here, g)
                  (open_after-none closed (erase k m) ctx d erased)
            | inr (destroy, g) ↦
                rw (find, open_after, close_workers, here, g)
                  (open_after-none closed (erase k m) (destroy v ctx) d erased)
          ]
      | inr e ↦
          let rest : find d closed ≡ some w = ground arith in
          elim (Option-cases (get_elem? dissectors k)) [
            | inl f ↦
                rw (find, open_after, close_workers, f)
                  (open_after-closed closed m ctx d w diss rest at)
            | inr (other, f) ↦ elim (Option-cases (other.destroy_worker)) [
              | inl g ↦
                  rw (find, open_after, close_workers, f, g)
                    (open_after-closed closed (erase k m) ctx d w diss rest at)
              | inr (destroy, g) ↦
                  rw (find, open_after, close_workers, f, g)
                    (open_after-closed closed (erase k m) (destroy v ctx) d w diss rest at)
            ]
          ]
    ]
