-- ===== src/StreamPool/Routing.antt =====
-- Which thread gets a layer: the layers of a stream stay together and in order.
use deplug.Common.{
  ℕ, zero, suc, ◌%◌, ◌<◌, ◌≡◌, ◌≢◌, refl, ap, sym, ◌∙◌, ◌⊎◌, inl, inr, Option, none, some, List, [],
  ◌∷◌, ◌++◌, ◌==◌, if◌then◌else◌, arith, get_elem?, append-nil, append_assoc, Bool-cases,
  Option-cases, ==_iff,
}
use native.Mathlib.Nat.{mod-lt}
use deplug.Layer.{Layer}
use deplug.Layer.Heap.{get_elem?-set_self, get_elem?-set_other, get_elem?-lt}
use deplug.FrameView.{find_leaf_layers, for_each}
use deplug.StreamPool.Dispatch.{insert_children, find_streamed_layers, push_layer, sort_layers}

-- `layerMap.resize(concurrency)`
abbrev pub empty_map : {L : Type 0} → ℕ → List (List L)
empty_map zero = []
empty_map (suc n) = [] ∷ empty_map n

module _ {L : Type 0} (worker : L → ℕ) where
  -- The layers of a worker, and those of a thread.
  abbrev pub of_worker : ℕ → List L → List L
  of_worker w [] = []
  of_worker w (l ∷ ls) = let rest = of_worker w ls in if worker l == w then l ∷ rest else rest

  abbrev pub of_thread : ℕ → ℕ → List L → List L
  of_thread threads i [] = []
  of_thread threads i (l ∷ ls) =
      let rest = of_thread threads i ls in if worker l % threads == i then l ∷ rest else rest

  push_layer_self :
      (thread : ℕ) (l : L) (m : List (List L)) (xs : List L)
      → get_elem? m thread ≡ some xs
      → get_elem? (push_layer worker thread l m) thread ≡ some (xs ++ l ∷ [])
  unfolding push_layer
  push_layer_self thread l m xs e =
      rw (push_layer, e) (get_elem?-set_self m thread (xs ++ l ∷ []) (get_elem?-lt m thread xs e))

  push_layer-other :
      (thread i : ℕ) (l : L) (m : List (List L))
      → thread ≢ i
      → get_elem? (push_layer worker thread l m) i ≡ get_elem? m i
  unfolding push_layer
  push_layer-other thread i l m ne = elim (Option-cases (get_elem? m thread)) [
    | inl e ↦ rw (push_layer, e)
    | inr (xs, e) ↦ rw (push_layer, e) (get_elem?-set_other m thread i (xs ++ l ∷ []) ne)
  ]

  sort_layers-appends :
      (threads i : ℕ) (ls : List L) (m : List (List L)) (xs : List L)
      → get_elem? m i ≡ some xs
      → get_elem? (sort_layers worker threads ls m) i ≡ some (xs ++ of_thread threads i ls)
  unfolding sort_layers
  sort_layers-appends threads i [] m xs e = e ∙ ap some (sym (append-nil xs))
  sort_layers-appends threads i (l ∷ ls) m xs e =
      let m' = push_layer worker (worker l % threads) l m in
      elim (Bool-cases (worker l % threads == i)) [
        | inl here ↦
            let thread : worker l % threads ≡ i = (==_iff (worker l % threads) i).0 here in
            let entry : get_elem? m' i ≡ some (xs ++ l ∷ []) =
              ap (get_elem? m') (sym thread)
              ∙ push_layer_self (worker l % threads) l m xs (ap (get_elem? m) thread ∙ e) in
            let rest = sort_layers-appends threads i ls m' (xs ++ l ∷ []) entry in
            rw here (rest ∙ ap some (append_assoc xs (l ∷ []) (of_thread threads i ls)))
        | inr other ↦
            let apart : worker l % threads ≢ i =
              λ e'. let yes = (==_iff (worker l % threads) i).1 e' in absurd (cc) in
            let entry : get_elem? m' i ≡ some xs =
              push_layer-other (worker l % threads) i l m apart ∙ e in
            rw other (sort_layers-appends threads i ls m' xs entry)
      ]

  empty_map-at : (n i : ℕ) → i < n → get_elem? (empty_map {L = L} n) i ≡ some []
  empty_map-at zero i h = absurd (omega arith)
  empty_map-at (suc n) zero h = refl
  empty_map-at (suc n) (suc i) h = empty_map-at n i (omega arith)

  of_worker-thread :
      (threads w : ℕ) (ls : List L)
      → of_worker w (of_thread threads (w % threads) ls) ≡ of_worker w ls
  of_worker-thread threads w [] = refl
  of_worker-thread threads w (l ∷ ls) =
      let rest = of_worker-thread threads w ls in
      elim (Bool-cases (worker l == w)) [
        | inl e ↦
            let same : worker l % threads ≡ w % threads =
              ap (λ k. k % threads) ((==_iff (worker l) w).0 e) in
            let yes = (==_iff (worker l % threads) (w % threads)).1 same in
            rw (yes, e) (ap (◌∷◌ l) rest)
        | inr e ↦ elim (Bool-cases (worker l % threads == w % threads)) [
          | inl f ↦ rw (f, e) rest
          | inr f ↦ rw (f, e) rest
        ]
      ]

  -- The layers that the frames bring are divided among the threads by their workers: a thread that
  -- is there gets exactly those whose worker falls to it, in their order, so all layers of one
  -- stream go to one thread, in the order of the frames.
  pub sort_layers-of_worker :
      (threads w : ℕ) (ls : List L)
      → 0 < threads
      → (layers : List L) × (get_elem?
            (sort_layers worker threads ls (empty_map threads))
            (w % threads)
          ≡ some layers)
        × (layers ≡ of_thread threads (w % threads) ls)
        × (of_worker w layers ≡ of_worker w ls)
  sort_layers-of_worker threads w ls h =
      let inside : w % threads < threads = mod-lt w h in
      (
        of_thread threads (w % threads) ls,
        sort_layers-appends threads (w % threads) ls (empty_map threads) []
            (empty_map-at threads (w % threads) inside),
        refl,
        of_worker-thread threads w ls,
      )

-- The order of the streamed layers of a frame.
abbrev pub reversed : List ℕ → List ℕ
reversed [] = []
reversed (x ∷ xs) = reversed xs ++ x ∷ []

reversed-append : (xs ys : List ℕ) → reversed (xs ++ ys) ≡ reversed ys ++ reversed xs
reversed-append [] ys = sym (append-nil (reversed ys))
reversed-append (x ∷ xs) ys =
    ap (λ t. t ++ x ∷ []) (reversed-append xs ys)
    ∙ append_assoc (reversed ys) (reversed xs) (x ∷ [])

abbrev pub reversed_result : Option (List ℕ) → Option (List ℕ)
reversed_result none = none
reversed_result (some xs) = some (reversed xs)

abbrev before : List ℕ → Option (List ℕ) → Option (List ℕ)
before layers none = none
before layers (some xs) = some (reversed xs ++ layers)

insert_children-for_each :
    (find find' : ℕ → Option (List ℕ)) (layers cs : List ℕ)
    → ((c : ℕ) → find' c ≡ reversed_result (find c))
    → insert_children find' layers cs ≡ before layers (for_each find cs)
unfolding insert_children for_each
insert_children-for_each find find' layers [] h = refl
insert_children-for_each find find' layers (c ∷ cs) h = elim (Option-cases (find c)) [
  | inl e ↦
      let e' : find' c ≡ none = h c ∙ ap reversed_result e in rw (insert_children, for_each, e, e')
  | inr (xs, e) ↦
      let e' : find' c ≡ some (reversed xs) = h c ∙ ap reversed_result e in
      let rest = insert_children-for_each find find' (reversed xs ++ layers) cs h in
      elim (Option-cases (for_each find cs)) [
        | inl f ↦
            rw (insert_children, e', for_each, e, f) (rest ∙ ap (before (reversed xs ++ layers)) f)
        | inr (ys, f) ↦
            let order : reversed ys ++ (reversed xs ++ layers) ≡ reversed (xs ++ ys) ++ layers =
              sym (append_assoc (reversed ys) (reversed xs) layers)
              ∙ ap (λ t. t ++ layers) (sym (reversed-append xs ys)) in
            rw (insert_children, e', for_each, e, f)
              (rest ∙ ap (before (reversed xs ++ layers)) f ∙ ap some order)
      ]
]

before-nil : (result : Option (List ℕ)) → before [] result ≡ reversed_result result
before-nil none = refl
before-nil (some xs) = ap some (append-nil (reversed xs))

List-cases : (xs : List ℕ) → (xs ≡ []) ⊎ ((c : ℕ) × (cs : List ℕ) × (xs ≡ c ∷ cs))
List-cases [] = inl refl
List-cases (c ∷ cs) = inr (c, cs, refl)

-- The thread that dispatches finds the leaf layers that the view of the frame finds, in the
-- opposite order, and where one of the two searches fails so does the other.
pub find_streamed_layers-reversed :
    {D P F : Type 0} (heap : List (Layer D P F)) (rounds layer : ℕ)
    → find_streamed_layers heap rounds layer ≡ reversed_result (find_leaf_layers heap rounds layer)
unfolding find_streamed_layers find_leaf_layers
find_streamed_layers-reversed heap zero layer = refl
find_streamed_layers-reversed heap (suc rounds) layer = elim (Option-cases (get_elem? heap layer)) [
  | inl e ↦ rw (find_streamed_layers, find_leaf_layers, e)
  | inr (l, e) ↦ elim (List-cases l.layers) [
    | inl f ↦ rw (find_streamed_layers, find_leaf_layers, e, f)
    | inr (c, cs, f) ↦
        rw (find_streamed_layers, find_leaf_layers, e, f)
          (insert_children-for_each (find_leaf_layers heap rounds)
              (find_streamed_layers heap rounds) [] (c ∷ cs)
              (find_streamed_layers-reversed heap rounds)
            ∙ before-nil (for_each (find_leaf_layers heap rounds) (c ∷ cs)))
  ]
]
