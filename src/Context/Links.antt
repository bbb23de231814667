-- ===== src/Context/Links.antt =====
-- The attributes of the layers that are linked under one key make a doubly linked list.
use deplug.Common.{
  ℕ, ◌≤◌, ◌<◌, ◌≡◌, refl, sym, ap, ◌∙◌, ◌≢◌, ◌⊎◌, inl, inr, true, false, Option, none, some, List,
  [], ◌∷◌, arith, if◌then◌else◌, Bool-cases, Option-cases, get_elem?, some_eq,
}
use mathlib.Core.Path.{ap₂, subst}
use deplug.Variant.{from_address}
use deplug.Layer.{Attr, new_attr}
use deplug.Context.{Key, same, PrevLayer, find, assign}

-- A call: the key, the layer, and the attributes that the call made.
pub record Entry : Type 0 where
  pub key : Key
  pub layer : ℕ
  pub prev : Option ℕ
  pub next : ℕ

-- The newest entry with a key; the entries have the newest first.
unfoldable pub newest : Key → List Entry → Option PrevLayer
newest key [] = none
newest key (e ∷ es) =
    let rest = newest key es in
    if same e.key key then some (record { layer = e.layer; attr = e.next }) else rest

pub same_refl : (k : Key) → same k k ≡ true
same_refl k = ground arith

pub same_eq : (a b : Key) → same a b ≡ true → a ≡ b
same_eq a b h =
    let e : a.token ≡ b.token = ground arith in
    let f : a.id ≡ b.id = ground arith in ap₂ (λ t i. record { token = t; id = i }) e f

pub find-assign :
    (k key : Key) (p : PrevLayer) (m : List (Key × PrevLayer))
    → find k (assign key p m) ≡ (if same key k then some p else find k m)
unfolding find assign
find-assign k key p [] = refl
find-assign k key p ((j, q) ∷ m) = ground (arith, find-assign k key p m)

unfoldable pub low : Entry → ℕ
low e = elim (e.prev) [ none ↦ e.next | some p ↦ p ]

-- The attributes of an entry are older than those of the newer ones.
unfoldable pub Below : ℕ → List Entry → Type 0
Below n [] = Unit
Below n (e ∷ es) = (e.next < n) × ((p : ℕ) → e.prev ≡ some p → p < e.next) × Below (low e) es

low_bound : (e : Entry) → ((p : ℕ) → e.prev ≡ some p → p < e.next) → low e ≤ e.next
unfolding low
low_bound e h = elim (Option-cases (e.prev)) [
  | inl f ↦ let g : low e ≡ e.next = rw (low, f) in omega arith
  | inr (p, f) ↦ let g : low e ≡ p = rw (low, f) in omega (arith, h p f)
]

module _ (e : Entry) (es : List Entry) (k : Key) where
  pub newest_here :
      same e.key k ≡ true → newest k (e ∷ es) ≡ some (record { layer = e.layer; attr = e.next })
  unfolding newest
  newest_here h = rw h

  pub newest_there : same e.key k ≡ false → newest k (e ∷ es) ≡ newest k es
  unfolding newest
  newest_there h = rw h

pub newest-Below :
    (n : ℕ) (es : List Entry) (k : Key) (f : PrevLayer)
    → Below n es
    → newest k es ≡ some f
    → f.attr < n
unfolding Below newest
newest-Below n [] k f below h = absurd (cc)
newest-Below n (e ∷ es) k f (lt, up, below) h = elim (Bool-cases (same e.key k)) [
  | inl is ↦
      let here : e.next ≡ f.attr = ap (λ f. f.attr) (some_eq (sym (newest_here e es k is) ∙ h)) in
      omega arith
  | inr other ↦
      let rest = newest-Below (low e) es k f below (sym (newest_there e es k other) ∙ h) in
      omega (arith, low_bound e up)
]

-- What a later entry of the key shows to be the next layer.
abbrev pub after : Entry → (Key → Option ℕ) → Key → Option ℕ
after e later k = if same e.key k then some e.layer else later k

module _ (D : Type 0) (next_token prev_token : ℕ) where
  abbrev pub link_attr : ℕ → Option ℕ → Attr D (Option ℕ)
  link_attr token target = record (new_attr token) { type = token; value = from_address target }

  -- An entry's `--prev` attribute: the layer of the entry before it, or no such attribute.
  abbrev pub IsPrev : List (Attr D (Option ℕ)) → Option ℕ → Option PrevLayer → Type 0
  IsPrev attrs prev none = prev ≡ none
  IsPrev attrs prev (some before) =
      (p : ℕ) × (prev ≡ some p)
      × (get_elem? attrs p ≡ some (link_attr prev_token (some before.layer)))

  -- Each entry's attributes: the address of the next layer of its key, and of the one before.
  unfoldable pub IsLinked : List (Attr D (Option ℕ)) → (Key → Option ℕ) → List Entry → Type 0
  unfolding newest
  IsLinked attrs later [] = Unit {0}
  IsLinked attrs later (e ∷ es) =
      (get_elem? attrs e.next ≡ some (link_attr next_token (later e.key)))
      × IsPrev attrs e.prev (newest e.key es)
      × IsLinked attrs (after e later) es

  -- A heap in which the attributes below a number are the same.
  abbrev pub Keeps : ℕ → List (Attr D (Option ℕ)) → List (Attr D (Option ℕ)) → Type 0
  Keeps n attrs other =
      (i : ℕ)
      → i < n
      → (a : Attr D (Option ℕ)) → get_elem? attrs i ≡ some a
      → get_elem? other i ≡ some a

  IsPrev-agree :
      (attrs other : List (Attr D (Option ℕ))) (prev : Option ℕ) (before : Option PrevLayer)
      → ((p : ℕ) (a : Attr D (Option ℕ))
          → prev ≡ some p
          → get_elem? attrs p ≡ some a
          → get_elem? other p ≡ some a)
      → IsPrev attrs prev before
      → IsPrev other prev before
  IsPrev-agree attrs other prev none h e = e
  IsPrev-agree attrs other prev (some b) h (p, e, at) =
      (p, e, h p (link_attr prev_token (some b.layer)) e at)

  pub IsLinked_agree :
      (attrs other : List (Attr D (Option ℕ))) (later : Key → Option ℕ) (es : List Entry) (n : ℕ)
      → Below n es
      → Keeps n attrs other
      → IsLinked attrs later es
      → IsLinked other later es
  unfolding IsLinked Below
  IsLinked_agree attrs other later [] n below h l = tt
  IsLinked_agree attrs other later (e ∷ es) n (lt, up, below) h (next, prev, l) = (
    h e.next lt (link_attr next_token (later e.key)) next,
    IsPrev-agree attrs other e.prev (newest e.key es)
        (λ p a f. let i = up p f in h p (omega arith) a) prev,
    IsLinked_agree attrs other (after e later) es (low e) below
        (λ i j. h i (omega (arith, low_bound e up))) l,
  )

  -- What follows matters for the keys of the entries only.
  pub IsLinked-later :
      (attrs : List (Attr D (Option ℕ))) (later other : Key → Option ℕ) (es : List Entry)
      → ((k : Key) → (newest k es ≡ none) ⊎ (later k ≡ other k))
      → IsLinked attrs later es
      → IsLinked attrs other es
  unfolding IsLinked newest
  IsLinked-later attrs later other [] h l = tt
  IsLinked-later attrs later other (e ∷ es) h (next, prev, l) =
      let here : later e.key ≡ other e.key = (elim (h e.key) [
        | inl none_there ↦
            absurd (let out = sym (newest_here e es e.key (same_refl e.key)) ∙ none_there in cc)
        | inr same_there ↦ same_there
      ]) in
      (
        subst (λ t. get_elem? attrs e.next ≡ some (link_attr next_token t)) here next,
        prev,
        IsLinked-later attrs (after e later) (after e other) es
            (λ k. elim (Bool-cases (same e.key k)) [
              | inl is ↦ inr (rw is)
              | inr not_is ↦ elim (h k) [
                | inl none_there ↦ inl (sym (newest_there e es k not_is) ∙ none_there)
                | inr same_there ↦ inr (rw not_is same_there)
              ]
            ])
            l,
      )

  -- The newest entry of a key learns of the next layer.
  pub IsLinked-store :
      (attrs other : List (Attr D (Option ℕ))) (later : Key → Option ℕ) (es : List Entry) (n : ℕ)
      → (k : Key) (f : PrevLayer) (l : ℕ) → Below n es
      → newest k es ≡ some f
      → later k ≡ none
      → ((i : ℕ) (a : Attr D (Option ℕ))
          → i ≢ f.attr
          → get_elem? attrs i ≡ some a
          → get_elem? other i ≡ some a)
      → get_elem? other f.attr ≡ some (link_attr next_token (some l))
      → IsLinked attrs later es
      → IsLinked other (λ j. if same k j then some l else later j) es
  unfolding IsLinked Below newest low
  IsLinked-store attrs other later [] n k f l below has free h at linked = absurd (cc)
  IsLinked-store attrs other later (e ∷ es) n k f l (lt, up, below) has free h at
        (next, prev, linked) =
      elim (Bool-cases (same e.key k)) [
        | inl is ↦
            let this = some_eq (sym (newest_here e es k is) ∙ has) in
            let here : e.next ≡ f.attr = ap (λ f. f.attr) this in
            let key : same k e.key ≡ true = ground arith in
            let at' : get_elem? other e.next ≡ some (link_attr next_token (some l)) =
              ap (get_elem? other) here ∙ at in
            (
              rw key at',
              IsPrev-agree attrs other e.prev (newest e.key es)
                  (λ p a g. let i = up p g in h p a (omega arith)) prev,
              IsLinked-later other (after e later)
                  (after e (λ j. if same k j then some l else later j)) es (λ j. inr (ground arith))
                  (IsLinked_agree attrs other (after e later) es (low e) below
                    (λ i j a. h i a (omega (arith, low_bound e up))) linked),
            )
        | inr other_key ↦
            let has' = sym (newest_there e es k other_key) ∙ has in
            let under = newest-Below (low e) es k f below has' in
            let key : same k e.key ≡ false = ground arith in
            let free' : after e later k ≡ none = rw other_key free in
            (
              rw key (
                  h e.next (link_attr next_token (later e.key)) (omega (arith, low_bound e up))
                    next),
              IsPrev-agree attrs other e.prev (newest e.key es)
                  (λ p a g. let i : low e ≡ p = rw (low, g) in h p a (omega arith)) prev,
              IsLinked-later other (λ j. if same k j then some l else after e later j)
                  (after e (λ j. if same k j then some l else later j)) es (λ j. inr (ground arith))
                  (IsLinked-store attrs other (after e later) es (low e) k f l below has' free' h at
                    linked),
            )
      ]
