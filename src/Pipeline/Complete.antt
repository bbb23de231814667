-- ===== src/Pipeline/Complete.antt =====
-- The frames that come to the store, from their sources to the end of the way.
use deplug.Common.{
  ℕ, zero, suc, ◌+◌, ◌-◌, ◌^◌, ◌≤◌, ◌<◌, ◌≡◌, refl, sym, ap, ◌∙◌, inl, inr, some, List, [], ◌∷◌,
  ◌++◌, arith, Option-cases, length, get_elem?, take, get_elem?_of_lt, some_eq,
}
use native.Mathlib.Decide.{dec_lt}
use mathlib.Core.Path.{subst}
use mathlib.Core.List.{flatten}
use deplug.Layer.Heap.{get_elem?-lt}
use deplug.FrameStore.History.{find_index}
use deplug.FrameStore.Reorder.{IsOrdered}
use deplug.FrameStore.Arrivals.{insert_all, insert_all-IsOrdered}
use deplug.Sequence.Listing.{listing, listing_congr, opt_list}
use deplug.Session
use deplug.Pipeline.{Frame, Pipeline, index_of, Step, run, empties, start}
use deplug.Pipeline.Counts.{
  count, count_all, count-flatten, count_all-empties, AreGiven, find_of_count_some, find-given,
  Distinct-of_count,
}
use deplug.Pipeline.Stages.{AllGiven, IsTracked}
use deplug.Pipeline.Numbers.{numbered, numbered-bound, run-IsTracked}

empties-length : (A : Type 0) (n : ℕ) → length (empties {A = A} n) ≡ n
unfolding empties
empties-length A zero = refl
empties-length A (suc n) = ap suc (empties-length A n)

empties-AllGiven : {P : Type 0} (n : ℕ) → AllGiven {P = P} [] (empties n)
unfolding empties AreGiven
empties-AllGiven zero i fs at = absurd (cc)
empties-AllGiven (suc n) zero fs at = subst (AreGiven []) (some_eq at) tt
empties-AllGiven (suc n) (suc i) fs at = empties-AllGiven n i fs at

take_last :
    {A : Type 0} (xs : List A) (n : ℕ) (x : A)
    → get_elem? xs n ≡ some x
    → take (suc n) xs ≡ take n xs ++ x ∷ []
take_last [] n x h = absurd (cc)
take_last (y ∷ xs) zero x h = cc
take_last (y ∷ xs) (suc n) x h = ap (◌∷◌ y) (take_last xs n x h)

take-length : {A : Type 0} (xs : List A) → take (length xs) xs ≡ xs
take-length [] = refl
take-length (x ∷ xs) = ap (◌∷◌ x) (take-length xs)

listing-take :
    {A : Type 0} (xs : List A) (n : ℕ)
    → n ≤ length xs
    → listing (λ k. get_elem? xs (k - 1)) n ≡ take n xs
unfolding listing opt_list
listing-take xs zero h = refl
listing-take xs (suc n) h =
    let (x, e) = get_elem?_of_lt xs n (omega arith) in
    let here : suc n - 1 ≡ n = omega arith in
    rw (here, e, listing-take xs n (omega arith)) (sym (take_last xs n x e))

module _ {E P V : Type 0} where
  start-IsTracked :
      (garbage sources threads : ℕ)
      → IsTracked [] (start {E = E} {P = P} {V = V} garbage sources threads)
  unfolding start AreGiven flatten count count_all insert_all Session.init
  start-IsTracked garbage sources threads = record {
    batches = [];
    stored = refl;
    opened = refl;
    counter = omega arith;
    once = λ k.
        let a = count_all-empties P k sources in
        let b = count_all-empties P k threads in ground (arith, a, b);
    at_sources = empties-AllGiven sources;
    at_queue = tt;
    at_hands = empties-AllGiven threads;
    at_store = tt;
  }

  module _ (given : List (Frame P)) (p : Pipeline E P V) (t : IsTracked given p)
      (small : length given < 2 ^ 32 - 1) where
    ordered : IsOrdered index_of p.store (flatten t.batches)
    ordered =
        subst (λ s. IsOrdered index_of s (flatten t.batches)) (sym t.stored)
          (insert_all-IsOrdered V index_of t.batches (
            Distinct-of_count given (flatten t.batches) small t.at_store
              (λ k. let c = t.once k in ground (arith, c, count-flatten k t.batches))))

    found :
        (k : ℕ)
        → 0 < k
        → k ≤ p.store.max_seq
        → find_index index_of k (flatten t.batches) ≡ get_elem? given (k - 1)
    found k lo hi = elim (Option-cases (find_index index_of k (flatten t.batches))) [
      | inl e ↦ absurd (ordered.filled k lo hi e)
      | inr (x, e) ↦ e ∙ sym (find-given given (flatten t.batches) k x t.at_store e)
    ]

    within : p.store.max_seq ≤ length given
    within = elim (dec_lt 0 p.store.max_seq) [
      | no empty ↦ omega arith
      | yes some_there ↦ elim (Option-cases (get_elem? given (p.store.max_seq - 1))) [
        | inl e ↦ absurd (
            ordered.filled p.store.max_seq some_there (omega arith)
              (found p.store.max_seq some_there (omega arith) ∙ e))
        | inr (x, e) ↦ omega (arith, get_elem?-lt given (p.store.max_seq - 1) x e)
      ]
    ]

    prefix : p.store.frames ≡ take p.store.max_seq given
    prefix =
        ordered.listed
        ∙ listing_congr (λ k. find_index index_of k (flatten t.batches))
            (λ k. get_elem? given (k - 1)) p.store.max_seq found
        ∙ listing-take given p.store.max_seq within

    -- When nothing is on the way any more.
    arrived :
        ((k : ℕ) → count_all k p.sources + count k p.queue.buf + count_all k p.hands ≡ 0)
        → p.store.max_seq ≡ length given
    arrived none_left = elim (dec_lt p.store.max_seq (length given)) [
      | no le ↦ let w = within in omega arith
      | yes lt ↦
          let k = p.store.max_seq + 1 in
          let c = t.once k in
          let n = none_left k in
          let there : 0 < count k (flatten t.batches) =
            ground (arith, c, n, count-flatten k t.batches) in
          let (x, e) = find_of_count_some k (flatten t.batches) there in
          let gap = ordered.gap in absurd (cc)
    ]

-- Nothing is on the way.
abbrev pub IsIdle : {E P V : Type 0} → Pipeline E P V → Type 0
IsIdle p = (flatten p.sources ≡ []) × (p.queue.buf ≡ []) × (flatten p.hands ≡ [])

module _ (E P V : Type 0) (garbage sources threads : ℕ) (steps : List (Step P)) where
  abbrev pub final : Pipeline E P V
  final = run steps (start garbage sources threads)

  tracked : length steps < 2 ^ 32 - 1 → IsTracked (numbered sources 1 steps) final
  unfolding start
  tracked short =
      run-IsTracked sources steps [] (start garbage sources threads)
        (empties-length (Frame P) sources) (omega arith) (start-IsTracked garbage sources threads)

  numbered-length : (n : ℕ) → length (numbered sources n steps) ≤ length steps
  numbered-length n = numbered-bound sources steps n

  -- However the captures and importers that are the sources, and the dissector threads, take turns,
  -- with fewer steps than indices: the store has the frames that got the first indices, in the order
  -- in which they got them, and none besides; each frame once, with the packet that it came with.
  pub run-prefix :
      length steps < 2 ^ 32 - 1
      → final.store.frames ≡ take final.store.max_seq (numbered sources 1 steps)
  run-prefix short =
      prefix (numbered sources 1 steps) final (tracked short)
        (let n = numbered-length 1 in omega arith)

  -- However the captures and importers and the dissector threads take turns, with fewer steps than
  -- indices: once every source has pushed its frames, the queue is empty and every dissector thread has
  -- handed on what it took, the store has every frame that came in, each once, in the order in which
  -- they got their indices and with the packets that they came with.
  pub run_complete :
      length steps < 2 ^ 32 - 1
      → IsIdle final
      → (final.store.frames ≡ numbered sources 1 steps)
        × (final.store.max_seq ≡ length (numbered sources 1 steps))
  unfolding count
  run_complete short (no_source, no_queue, no_hand) =
      let given = numbered sources 1 steps in
      let small : length given < 2 ^ 32 - 1 = (let n = numbered-length 1 in omega arith) in
      let all = arrived given final (tracked short) small (λ k.
        let a : count_all k final.sources ≡ 0 =
          sym (count-flatten k final.sources) ∙ ap (count k) no_source in
        let b : count k final.queue.buf ≡ 0 = ap (count k) no_queue in
        let c : count_all k final.hands ≡ 0 =
          sym (count-flatten k final.hands) ∙ ap (count k) no_hand in
        omega arith) in
      (
        prefix given final (tracked short) small ∙ ap (λ n. take n given) all ∙ take-length given,
        all,
      )
