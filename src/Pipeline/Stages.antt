-- ===== src/Pipeline/Stages.antt =====
-- At each step of the threads, every frame that has its index is at one place.
use deplug.Common.{
  ℕ, ◌+◌, ◌-◌, ◌^◌, ◌<◌, ◌≡◌, refl, sym, ap, ◌∙◌, inl, inr, false, ◌&&◌, some, List, [], ◌∷◌, ◌++◌,
  arith, leb, if◌then◌else◌, Option-cases, length, get_elem?, set, take, drop, length-append,
  take-append-drop, get_elem?-append_end, some_eq,
}
use native.Mathlib.Decide.{ℕ_discrete}
use mathlib.Core.Path.{subst}
use mathlib.Core.List.{flatten}
use deplug.Layer.Heap.{length-set, get_elem?-set_self, get_elem?-set_other, get_elem?-lt}
use deplug.Queue.Fifo.{dequeue_open, enqueue_range_open}
use deplug.FrameStore
use deplug.FrameStore.{FrameStore}
use deplug.FrameStore.Arrivals.{insert_all}
use deplug.Session.{get_seq}
use deplug.Pipeline.{Frame, Pipeline, index_of, set_index, push, take_frames, hand_on}
use deplug.Pipeline.Counts.{
  count, count_all, count-append, count_all-set, AreGiven, AreGiven-append, AreGiven-right,
  AreGiven-left, AreGiven-more,
}

-- The frames of each list are given ones.
abbrev pub AllGiven : {P : Type 0} → List (Frame P) → List (List (Frame P)) → Type 0
AllGiven {P = P} given lists =
    (i : ℕ) (fs : List (Frame P)) → get_elem? lists i ≡ some fs → AreGiven given fs

-- `given` are the frames that have an index, in the order of the indices: 1, 2, ….
pub record IsTracked {E P V : Type 0} (given : List (Frame P)) (p : Pipeline E P V) : Type 0 where
  pub batches : List (List (Frame P))
  pub stored : p.store ≡ insert_all index_of batches FrameStore.init
  pub opened : p.queue.closed ≡ false
  pub counter : p.session.index ≡ length given + 1
  pub once :
      (k : ℕ)
      → count_all k p.sources + count k p.queue.buf + count_all k p.hands + count_all k batches
        ≡ (if leb 1 k && leb k (length given) then 1 else 0)
  pub at_sources : AllGiven given p.sources
  pub at_queue : AreGiven given p.queue.buf
  pub at_hands : AllGiven given p.hands
  pub at_store : AreGiven given (flatten batches)

module _ {P : Type 0} where
  AllGiven-set :
      (given : List (Frame P)) (lists : List (List (Frame P))) (i : ℕ) (new : List (Frame P))
      → AllGiven given lists
      → AreGiven given new
      → AllGiven given (set lists i new)
  AllGiven-set given lists i new h k j fs at = elim (ℕ_discrete i j) [
    | no apart ↦ h j fs (sym (get_elem?-set_other lists i j new apart) ∙ at)
    | yes same ↦
        let inside : i < length lists =
          omega (arith, length-set lists i new, get_elem?-lt (set lists i new) j fs at) in
        let here = get_elem?-set_self lists i new inside in
        let e : new ≡ fs = some_eq (sym here ∙ ap (get_elem? (set lists i new)) same ∙ at) in
        subst (AreGiven given) e k
  ]

  AllGiven-more :
      (given more : List (Frame P)) (lists : List (List (Frame P)))
      → AllGiven given lists
      → AllGiven (given ++ more) lists
  AllGiven-more given more lists h i fs at = AreGiven-more given fs more (h i fs at)

  insert_all-last :
      {V : Type 0} (batches : List (List (Frame P))) (b : List (Frame P))
      (s : FrameStore (Frame P) V)
      → insert_all index_of (batches ++ b ∷ []) s
        ≡ FrameStore.insert index_of b (insert_all index_of batches s)
  unfolding insert_all
  insert_all-last [] b s = refl
  insert_all-last (c ∷ batches) b s = insert_all-last batches b (FrameStore.insert index_of c s)

  count_all-last :
      (k : ℕ) (lists : List (List (Frame P))) (b : List (Frame P))
      → count_all k (lists ++ b ∷ []) ≡ count_all k lists + count k b
  unfolding count_all
  count_all-last k [] b = omega arith
  count_all-last k (c ∷ lists) b = omega (arith, count_all-last k lists b)

  flatten-last :
      (given : List (Frame P)) (lists : List (List (Frame P))) (b : List (Frame P))
      → AreGiven given (flatten lists)
      → AreGiven given b
      → AreGiven given (flatten (lists ++ b ∷ []))
  unfolding flatten AreGiven
  flatten-last given [] b h k = AreGiven-append given b [] k tt
  flatten-last given (c ∷ lists) b h k =
      AreGiven-append given c (flatten (lists ++ b ∷ [])) (AreGiven-left given c (flatten lists) h)
        (flatten-last given lists b (AreGiven-right given c (flatten lists) h) k)

module _ {E P V : Type 0} (given : List (Frame P)) (p : Pipeline E P V)
    (t : IsTracked given p) where
  pub set_index-IsTracked :
      (i : ℕ) (packet : P) (fs : List (Frame P))
      → get_elem? p.sources i ≡ some fs
      → length given < 2 ^ 32 - 2
      → IsTracked
          (given ++ record { packet = packet; index = length given + 1 } ∷ [])
          (set_index i packet p)
  unfolding set_index get_seq AreGiven count
  set_index-IsTracked i packet fs at small =
      let x : Frame P = record { packet = packet; index = p.session.index } in
      let y : Frame P = record { packet = packet; index = length given + 1 } in
      let same : x ≡ y = ap (λ n. record { packet = packet; index = n }) t.counter in
      let new : AreGiven (given ++ y ∷ []) (x ∷ []) =
        subst (λ f. AreGiven (given ++ y ∷ []) (f ∷ [])) (sym same)
          ((omega arith, get_elem?-append_end given y (length given + 1 - 1) (omega arith)), tt) in
      let more = length-append given (y ∷ []) in
      rw (set_index, at)
        (record {
          batches = t.batches;
          stored = t.stored;
          opened = t.opened;
          counter = let c = t.counter in omega arith;
          once = λ k.
              let before = t.once k in
              let moved = count_all-set k p.sources i fs (fs ++ x ∷ []) at in
              let c = t.counter in
              ground (arith, count-append k fs (x ∷ []), moved, before, more, c);
          at_sources =
              AllGiven-set (given ++ y ∷ []) p.sources i (fs ++ x ∷ [])
                (AllGiven-more given (y ∷ []) p.sources t.at_sources)
                (AreGiven-append (given ++ y ∷ []) fs (x ∷ [])
                  (AreGiven-more given fs (y ∷ []) (t.at_sources i fs at)) new);
          at_queue = AreGiven-more given p.queue.buf (y ∷ []) t.at_queue;
          at_hands = AllGiven-more given (y ∷ []) p.hands t.at_hands;
          at_store = AreGiven-more given (flatten t.batches) (y ∷ []) t.at_store;
        })

  pub push-IsTracked : (i : ℕ) → IsTracked given (push i p)
  unfolding push AreGiven count
  push-IsTracked i = elim (Option-cases (get_elem? p.sources i)) [
    | inl e ↦ rw (push, e) t
    | inr (fs, e) ↦
        let (buf, still) = enqueue_range_open fs p.queue t.opened in
        rw (push, e)
          (record {
            batches = t.batches;
            stored = t.stored;
            opened = still;
            counter = t.counter;
            once = λ k.
                let before = t.once k in
                let moved = count_all-set k p.sources i fs [] e in
                let more = count-append k p.queue.buf fs in
                let there = ap (count k) buf in ground (arith, before, moved, more, there);
            at_sources = AllGiven-set given p.sources i [] t.at_sources tt;
            at_queue =
                rw buf (AreGiven-append given p.queue.buf fs t.at_queue (t.at_sources i fs e));
            at_hands = t.at_hands;
            at_store = t.at_store;
          })
  ]

  pub take_frames-IsTracked : (j : ℕ) → IsTracked given (take_frames j p)
  unfolding take_frames
  take_frames-IsTracked j = elim (Option-cases (get_elem? p.hands j)) [
    | inl e ↦ rw (take_frames, e) t
    | inr (hand, e) ↦
        let (out, buf, still) = dequeue_open 128 p.queue t.opened in
        let whole = take-append-drop 128 p.queue.buf in
        let both : AreGiven given (take 128 p.queue.buf ++ drop 128 p.queue.buf) =
          rw whole t.at_queue in
        rw (take_frames, e, out)
          (record {
            batches = t.batches;
            stored = t.stored;
            opened = still;
            counter = t.counter;
            once = λ k.
                let before = t.once k in
                let moved = count_all-set k p.hands j hand (hand ++ take 128 p.queue.buf) e in
                let more = count-append k hand (take 128 p.queue.buf) in
                let split = count-append k (take 128 p.queue.buf) (drop 128 p.queue.buf) in
                let sum = ap (count k) whole in
                let there = ap (count k) buf in
                ground (arith, before, moved, more, split, sum, there);
            at_sources = t.at_sources;
            at_queue =
                rw buf (AreGiven-right given (take 128 p.queue.buf) (drop 128 p.queue.buf) both);
            at_hands = AllGiven-set given p.hands j (hand ++ take 128 p.queue.buf) t.at_hands (
                AreGiven-append given hand (take 128 p.queue.buf) (t.at_hands j hand e)
                  (AreGiven-left given (take 128 p.queue.buf) (drop 128 p.queue.buf) both));
            at_store = t.at_store;
          })
  ]

  pub hand_on-IsTracked : (j : ℕ) → IsTracked given (hand_on j p)
  unfolding hand_on AreGiven count
  hand_on-IsTracked j = elim (Option-cases (get_elem? p.hands j)) [
    | inl e ↦ rw (hand_on, e) t
    | inr (hand, e) ↦
        rw (hand_on, e)
          (record {
            batches = t.batches ++ hand ∷ [];
            stored =
                ap (FrameStore.insert index_of hand) t.stored
                ∙ sym (insert_all-last t.batches hand FrameStore.init);
            opened = t.opened;
            counter = t.counter;
            once = λ k.
                let before = t.once k in
                let moved = count_all-set k p.hands j hand [] e in
                let last = count_all-last k t.batches hand in ground (arith, before, moved, last);
            at_sources = t.at_sources;
            at_queue = t.at_queue;
            at_hands = AllGiven-set given p.hands j [] t.at_hands tt;
            at_store = flatten-last given t.batches hand t.at_store (t.at_hands j hand e);
          })
  ]
