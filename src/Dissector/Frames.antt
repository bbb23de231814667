-- ===== src/Dissector/Frames.antt =====
-- The loop of a dissector thread comes to an end and hands its frames on.
use deplug.Common.{
  ℕ, zero, suc, ◌+◌, ◌≤◌, ◌<◌, ◌≡◌, refl, sym, ap, ◌∙◌, ◌⊎◌, inl, inr, true, false, Option, some,
  List, [], ◌∷◌, ◌++◌, map, arith, ltb, Bool-cases, Option-cases, length, take, take-append-drop,
  some_eq,
}
use mathlib.Core.Path.{subst}
use deplug.TagFilter.{TagFilter}
use deplug.FrameStore.{contains}
use deplug.Queue.{Queue, dequeue}
use deplug.Queue.Fifo.{dequeue_open, dequeue-closed}
use deplug.StreamDissector.Levels.{AreBelow, AreBelow-append}
use deplug.Dissector.{Calls, select, fresh_children, dissect, Ended, rounds}
use deplug.Dissector.Rounds.{rounds_from}
use deplug.Dissector.Loop.{ends, goes_on, Level, dissect_layers, levels, dissect_frames, loop}

-- The children that a layer has are below it.
abbrev pub IsRanked : {S : Type 0} → (ℕ → Calls S) → (ℕ → ℕ) → Type 0
IsRanked {S = S} c rank =
    (layer : ℕ) (s : S) → AreBelow rank (rank layer) (map (λ p. p.0) ((c layer).children s))

AreBelow-fresh_children :
    (rank : ℕ → ℕ) (n m : ℕ) (ids : List ℕ) (children : List (ℕ × ℕ))
    → m ≤ n
    → AreBelow rank m (map (λ p. p.0) children)
    → AreBelow rank n (fresh_children ids children)
unfolding AreBelow fresh_children
AreBelow-fresh_children rank n m ids [] le h = tt
AreBelow-fresh_children rank n m ids ((layer, id) ∷ children) le (h, hs) =
    let rest = AreBelow-fresh_children rank n m ids children le hs in
    elim (Bool-cases (contains id ids)) [ inl e ↦ rw e rest | inr e ↦ rw e (omega arith, rest) ]

List-cases : (xs : List ℕ) → (xs ≡ []) ⊎ ((d : ℕ) × (ds : List ℕ) × (xs ≡ d ∷ ds))
List-cases [] = inl refl
List-cases (d ∷ ds) = inr (d, ds, refl)

module _ {S : Type 0} (rank : ℕ → ℕ) (n : ℕ) (c : Calls S) (threshold : ℕ) (ids : List ℕ) (m : ℕ)
    (le : m ≤ n) (ranked : (s : S) → AreBelow rank m (map (λ p. p.0) (c.children s))) where
  dissect-AreBelow :
      (ds next : List ℕ) (s : S)
      → AreBelow rank n next
      → AreBelow rank n (dissect c threshold ids ds next s).0
  unfolding dissect
  dissect-AreBelow [] next s h = h
  dissect-AreBelow (d ∷ ds) next s h =
      let examined = c.examine d (c.create_worker d s) in
      let analyzed = c.analyze d examined.1 in
      elim (Bool-cases (ltb examined.0 threshold)) [
        | inl e ↦ rw (dissect, e) (dissect-AreBelow ds next examined.1 h)
        | inr e ↦
            rw (dissect, e)
              (dissect-AreBelow ds (next ++ fresh_children ids (c.children analyzed)) analyzed (
                AreBelow-append rank n next (fresh_children ids (c.children analyzed)) h (
                  AreBelow-fresh_children rank n m ids (c.children analyzed) le (ranked analyzed))))
      ]

  rounds-AreBelow :
      (fs : List TagFilter) (k : ℕ) (used next : List ℕ) (s : S) (e : Ended c threshold ids)
      → AreBelow rank n next
      → rounds c threshold ids fs k used next s ≡ some e
      → AreBelow rank n e.next
  unfolding rounds
  rounds-AreBelow fs zero used next s e h r = absurd (cc)
  rounds-AreBelow fs (suc k) used next s e h r = elim (List-cases (select fs 0 used (c.tags s))) [
    | inl f ↦
        let now : Ended c threshold ids = record { used = used; next = next; state = s } in
        let stop : rounds c threshold ids fs (suc k) used next s ≡ some now = rw (rounds, f) in
        let same : now ≡ e = some_eq (sym stop ∙ r) in
        subst (λ (e : Ended c threshold ids). AreBelow rank n e.next) same h
    | inr (d, ds, f) ↦
        let after = dissect c threshold ids (d ∷ ds) next s in
        let on : rounds c threshold ids fs (suc k) used next s
            ≡ rounds c threshold ids fs k (used ++ d ∷ ds) after.0 after.1 =
          rw (rounds, f) in
        rounds-AreBelow fs k (used ++ d ∷ ds) after.0 after.1 e (dissect-AreBelow (d ∷ ds) next s h)
          (sym on ∙ r)
  ]

module _ {S : Type 0} (c : ℕ → Calls S) (id_of : ℕ → S → ℕ) (root_of : ℕ → S → Option ℕ) where
  module _ (threshold : ℕ) (filters : List TagFilter) (rank : ℕ → ℕ)
      (ranked : IsRanked c rank) where
    dissect_layers-AreBelow :
        (n : ℕ) (layers : List ℕ) (v : Level S)
        → AreBelow rank (suc n) layers
        → AreBelow rank n v.next
        → (w : Level S) × (dissect_layers c id_of root_of threshold filters layers v ≡ some w)
          × AreBelow rank n w.next
    unfolding dissect_layers AreBelow
    dissect_layers-AreBelow n [] v hs h = (v, refl, h)
    dissect_layers-AreBelow n (layer ∷ layers) v (lt, hs) h =
        let ids = id_of layer v.state ∷ v.dissected_ids in
        let done = rounds_from (c layer) threshold ids filters v.next v.state in
        let below =
          rounds-AreBelow rank n (c layer) threshold ids (rank layer) (omega arith) (ranked layer)
            filters (length filters + 1) [] v.next v.state done.ended h done.returns in
        let next : Level S = record {
          next = done.ended.next;
          dissected_ids = ids;
          state = done.ended.state;
        } in
        let (w, e, k) = dissect_layers-AreBelow n layers next hs below in
        (w, rw (dissect_layers, done.returns) e, k)

    levels-AreBelow :
        (depth : ℕ) (layers ids : List ℕ) (s : S)
        → AreBelow rank depth layers
        → (after : S) × (levels c id_of root_of threshold filters depth layers ids s ≡ some after)
    unfolding levels AreBelow
    levels-AreBelow zero [] ids s h = (s, refl)
    levels-AreBelow zero (layer ∷ layers) ids s h = absurd (omega arith)
    levels-AreBelow (suc depth) [] ids s h = (s, refl)
    levels-AreBelow (suc depth) (layer ∷ layers) ids s h =
        let (w, e, k) =
          dissect_layers-AreBelow depth (layer ∷ layers)
            (record { next = []; dissected_ids = ids; state = s }) h tt in
        let (after, f) = levels-AreBelow depth w.next w.dissected_ids w.state k in
        (after, rw (levels, e) f)

    dissect_frames-total :
        (depth : ℕ) (frames : List ℕ) (s : S)
        → ((layer : ℕ) → rank layer < depth)
        → (after : S) × (dissect_frames c id_of root_of threshold filters depth frames s
            ≡ some after)
    unfolding dissect_frames AreBelow
    dissect_frames-total depth [] s h = (s, refl)
    dissect_frames-total depth (frame ∷ frames) s h = elim (Option-cases (root_of frame s)) [
      | inl e ↦ rw (dissect_frames, e) (dissect_frames-total depth frames s h)
      | inr (root, e) ↦
          let (mid, f) = levels-AreBelow depth (root ∷ []) [] s (h root, tt) in
          let (after, g) = dissect_frames-total depth frames mid h in
          (after, rw (dissect_frames, e, f) g)
    ]

    -- If the layers of the frames nest no deeper than the number of levels, `loop` returns: with `false`
    -- when the queue is closed, and else it hands on exactly the frames that it took from the front of
    -- the queue, up to 128 of them in their order, whatever the dissectors did with them; those that
    -- have no root layer are handed on too.
    pub loop-goes_on :
        (depth : ℕ) (q : Queue ℕ) (s : S)
        → ((layer : ℕ) → rank layer < depth)
        → ((q.closed ≡ true) × (loop c id_of root_of threshold filters depth q s ≡ some ends))
          ⊎ ((q.closed ≡ false)
              × (rest : Queue ℕ) × (after : S) × (loop c id_of root_of threshold filters depth q s
                  ≡ some (goes_on (take 128 q.buf) rest after))
              × (take 128 q.buf ++ rest.buf ≡ q.buf))
    unfolding loop
    loop-goes_on depth q s h = elim (Bool-cases (q.closed)) [
      | inl e ↦ inl (e, rw (loop, dequeue-closed 128 q e))
      | inr e ↦
          let (out, held, still) = dequeue_open 128 q e in
          let (after, f) = dissect_frames-total depth (take 128 q.buf) s h in
          inr (
            e,
            (dequeue 128 q).1,
            after,
            rw (loop, out, f),
            ap (λ xs. take 128 q.buf ++ xs) held ∙ take-append-drop 128 q.buf,
          )
    ]
