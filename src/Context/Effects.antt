-- ===== src/Context/Effects.antt =====
-- What one call of `Context_addLayerLinkage` does to the attributes and to the map.
use deplug.Common.{
  ℕ, ◌+◌, ◌≡◌, refl, sym, ap, ◌∙◌, inl, inr, true, Option, none, some, List, [], ◌∷◌, ◌++◌, arith,
  Bool-cases, length, get_elem?, set, length-append, get_elem?-append_left, some_eq,
}
use deplug.FrameStore.{contains}
use deplug.Dissector.Rounds.{contains-append}
use deplug.Layer.Heap.{length-set, get_elem?-lt}
use deplug.Variant.{from_address, store_address}
use deplug.Layer.{Attr}
use deplug.Context.{
  Key, same, PrevLayer, Context, find, assign, add_attr, add_link, store_link, add_layer_linkage,
}
use deplug.Context.Links.{
  Entry, newest, same_eq, after, IsLinked, link_attr, newest_here, newest_there,
}

-- The attributes of the calls are attributes of their layers.
unfoldable pub AreListed : (ℕ → List ℕ) → List Entry → Type 0
AreListed layer_attrs [] = Unit
AreListed layer_attrs (e ∷ es) =
    (contains e.next (layer_attrs e.layer) ≡ true)
    × ((p : ℕ) → e.prev ≡ some p → contains p (layer_attrs e.layer) ≡ true)
    × AreListed layer_attrs es

pub add_attr_here :
    (layer attr : ℕ) (layer_attrs : ℕ → List ℕ)
    → contains attr (add_attr layer attr layer_attrs layer) ≡ true
unfolding add_attr contains
add_attr_here layer attr layer_attrs =
    ground (arith, contains-append attr (layer_attrs layer) (attr ∷ []))

pub add_attr_old :
    (layer attr l x : ℕ) (layer_attrs : ℕ → List ℕ)
    → contains x (layer_attrs l) ≡ true
    → contains x (add_attr layer attr layer_attrs l) ≡ true
unfolding add_attr contains
add_attr_old layer attr l x layer_attrs h =
    ground (arith, contains-append x (layer_attrs l) (attr ∷ []), h)

pub AreListed-add_attr :
    (layer attr : ℕ) (layer_attrs : ℕ → List ℕ) (es : List Entry)
    → AreListed layer_attrs es
    → AreListed (add_attr layer attr layer_attrs) es
unfolding AreListed
AreListed-add_attr layer attr layer_attrs [] h = tt
AreListed-add_attr layer attr layer_attrs (e ∷ es) (next, prev, h) = (
  add_attr_old layer attr e.layer e.next layer_attrs next,
  (λ p f. add_attr_old layer attr e.layer p layer_attrs (prev p f)),
  AreListed-add_attr layer attr layer_attrs es h,
)

module _ {D : Type 0} (next_token prev_token : ℕ) where
  store_address_lem :
      (l : ℕ) (target : Option ℕ)
      → store_address {D = D} (some l) (from_address target) ≡ from_address (some l)
  unfolding store_address from_address
  store_address_lem l target = refl

  module _ (key : Key) (layer : ℕ) (ctx : Context D) where
    abbrev pub done : Context D
    done = add_layer_linkage next_token prev_token key.token key.id layer ctx

    pub first_call :
        find key ctx.linked_layers ≡ none
        → (done.attrs ≡ ctx.attrs ++ link_attr D next_token prev_token next_token none ∷ [])
          × (done.layer_attrs ≡ add_attr layer (length ctx.attrs) ctx.layer_attrs)
          × (done.linked_layers
              ≡ assign key (record { layer = layer; attr = length ctx.attrs }) ctx.linked_layers)
    unfolding add_layer_linkage add_link
    first_call h = (
      rw (done, add_layer_linkage, h),
      rw (done, add_layer_linkage, h),
      rw (done, add_layer_linkage, h),
    )

    module _ (f : PrevLayer) where
      abbrev pub longer : List (Attr D (Option ℕ))
      longer = ctx.attrs ++ link_attr D next_token prev_token prev_token (some f.layer) ∷ []

      abbrev pub stored : List (Attr D (Option ℕ))
      stored = set longer f.attr (link_attr D next_token prev_token next_token (some layer))

      pub stored-length : length stored ≡ length ctx.attrs + 1
      stored-length =
          length-set longer f.attr (link_attr D next_token prev_token next_token (some layer))
          ∙ length-append ctx.attrs
              (link_attr D next_token prev_token prev_token (some f.layer) ∷ [])

      pub later_call :
          find key ctx.linked_layers ≡ some f
          → get_elem? ctx.attrs f.attr ≡ some (link_attr D next_token prev_token next_token none)
          → (done.attrs ≡ stored ++ link_attr D next_token prev_token next_token none ∷ [])
            × (done.layer_attrs
                ≡ add_attr layer
                    (length stored)
                    (add_attr layer (length ctx.attrs) ctx.layer_attrs))
            × (done.linked_layers
                ≡ assign key (record { layer = layer; attr = length stored }) ctx.linked_layers)
      unfolding add_layer_linkage add_link store_link
      later_call h at =
          let there : get_elem? longer f.attr
              ≡ some (link_attr D next_token prev_token next_token none) =
            get_elem?-append_left ctx.attrs
              (link_attr D next_token prev_token prev_token (some f.layer) ∷ []) f.attr
              (get_elem?-lt ctx.attrs f.attr (link_attr D next_token prev_token next_token none) at)
            ∙ at in
          let new = store_address_lem layer none in
          (
            rw (done, add_layer_linkage, h, store_link, there, new),
            rw (done, add_layer_linkage, h, store_link, there),
            rw (done, add_layer_linkage, h, store_link, there),
          )

  pub newest_attr :
      (attrs : List (Attr D (Option ℕ))) (later : Key → Option ℕ) (es : List Entry)
      → (k : Key) (f : PrevLayer) → newest k es ≡ some f
      → IsLinked D next_token prev_token attrs later es
      → get_elem? attrs f.attr ≡ some (link_attr D next_token prev_token next_token (later k))
  unfolding IsLinked newest
  newest_attr attrs later [] k f h l = absurd (cc)
  newest_attr attrs later (e ∷ es) k f h (next, prev, l) = elim (Bool-cases (same e.key k)) [
    | inl is ↦
        let this = some_eq (sym (newest_here e es k is) ∙ h) in
        let here : e.next ≡ f.attr = ap (λ f. f.attr) this in
        let key : e.key ≡ k = same_eq e.key k is in rw (← here, ← key) next
    | inr other ↦
        let rest =
          newest_attr attrs (after e later) es k f (sym (newest_there e es k other) ∙ h) l in
        let same_later : after e later k ≡ later k = rw other in rw (← same_later) rest
  ]
