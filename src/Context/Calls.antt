-- ===== src/Context/Calls.antt =====
-- Any calls of `Context_addLayerLinkage`, and the list of the layers that they make.
use deplug.Common.{
  ℕ, ◌+◌, ◌≡◌, refl, sym, ap, ◌∙◌, inl, inr, Option, none, some, List, [], ◌∷◌, arith, Bool-cases,
  Option-cases, length, get_elem?, length-append, get_elem?-append_left, get_elem?-append_end,
  some_eq,
}
use mathlib.Core.Path.{subst}
use deplug.FrameStore.{contains}
use deplug.Layer.Heap.{get_elem?-set_self, get_elem?-set_other, get_elem?-lt}
use deplug.Layer.{Attr}
use deplug.Context.{Key, same, PrevLayer, Context, find, add_attr, add_layer_linkage}
use deplug.Context.Links.{
  Entry, newest, same_eq, low, Below, after, find-assign, IsLinked, IsPrev, IsLinked_agree,
  link_attr, IsLinked-later, IsLinked-store, newest-Below,
}
use deplug.Context.Effects.{
  AreListed, add_attr_here, add_attr_old, AreListed-add_attr, done, longer, stored, stored-length,
  first_call, later_call, newest_attr,
}

-- The entry of a call: the attributes that it makes are the next to be allocated.
abbrev entry : Key → ℕ → ℕ → Option PrevLayer → Entry
entry key layer n none = record { key = key; layer = layer; prev = none; next = n }
entry key layer n (some f) = record { key = key; layer = layer; prev = some n; next = n + 1 }

module _ {D : Type 0} (next_token prev_token : ℕ) where
  -- A call and, besides the context, the entries so far.
  unfoldable pub step : Key → ℕ → Context D × List Entry → Context D × List Entry
  step key layer s = (
    add_layer_linkage next_token prev_token key.token key.id layer s.0,
    entry key layer (length s.0.attrs) (newest key s.1) ∷ s.1,
  )

  unfoldable pub run : List (Key × ℕ) → Context D × List Entry → Context D × List Entry
  unfolding step
  run [] s = s
  run ((key, layer) ∷ calls) s = run calls (step key layer s)

  pub record IsList (s : Context D × List Entry) : Type 0 where
    pub linked : IsLinked D next_token prev_token s.0.attrs (λ k. none) s.1
    pub listed : AreListed s.0.layer_attrs s.1
    pub below : Below (length s.0.attrs) s.1
    pub found : (k : Key) → find k s.0.linked_layers ≡ newest k s.1

  module _ (key : Key) (layer : ℕ) (ctx : Context D) (es : List Entry) where
    abbrev next_attr : Attr D (Option ℕ)
    next_attr = link_attr D next_token prev_token next_token none

    first-IsList :
        IsList (ctx, es)
        → newest key es ≡ none
        → IsList
            (done next_token prev_token key layer ctx, entry key layer (length ctx.attrs) none ∷ es)
    unfolding IsLinked AreListed Below newest low
    first-IsList i e =
        let (attrs, listed, linked) =
          first_call next_token prev_token key layer ctx (i.found key ∙ e) in
        let more = length-append ctx.attrs (next_attr ∷ []) in
        let count : length (done next_token prev_token key layer ctx).attrs ≡ length ctx.attrs + 1 =
          rw attrs more in
        record {
          linked = (
            rw attrs (get_elem?-append_end ctx.attrs next_attr (length ctx.attrs) refl),
            subst
                (IsPrev D next_token prev_token (done next_token prev_token key layer ctx).attrs
                  none)
                (sym e) refl,
            IsLinked-later D next_token prev_token (done next_token prev_token key layer ctx).attrs
                (λ k. none) (after (entry key layer (length ctx.attrs) none) (λ k. none)) es
                (λ k. elim (Bool-cases (same key k)) [
                  | inl is ↦ inl (ap (λ k. newest k es) (sym (same_eq key k is)) ∙ e)
                  | inr other ↦ inr (rw other)
                ])
                (IsLinked_agree D next_token prev_token ctx.attrs
                  (done next_token prev_token key layer ctx).attrs (λ k. none) es (length ctx.attrs)
                  i.below
                  (λ j lt a at.
                    rw attrs (get_elem?-append_left ctx.attrs (next_attr ∷ []) j lt ∙ at))
                  i.linked),
          );
          listed = (
            rw listed (add_attr_here layer (length ctx.attrs) ctx.layer_attrs),
            (λ p f. absurd (cc)),
            subst (λ la. AreListed la es) (sym listed)
                (AreListed-add_attr layer (length ctx.attrs) ctx.layer_attrs es i.listed),
          );
          below = (omega arith, (λ p f. absurd (cc)), i.below);
          found = λ k.
              rw
                (
                  linked,
                  find-assign k key (record { layer = layer; attr = length ctx.attrs })
                      ctx.linked_layers,
                )
                (ground (arith, i.found k));
        }

    module _ (f : PrevLayer) where
      abbrev n : ℕ
      n = length ctx.attrs

      later-IsList :
          IsList (ctx, es)
          → newest key es ≡ some f
          → IsList (done next_token prev_token key layer ctx, entry key layer n (some f) ∷ es)
      unfolding IsLinked AreListed Below newest low
      later-IsList i e =
          let at = newest_attr next_token prev_token ctx.attrs (λ k. none) es key f e i.linked in
          let (attrs, listed, linked) =
            later_call next_token prev_token key layer ctx f (i.found key ∙ e) at in
          let size = stored-length next_token prev_token key layer ctx f in
          let under = newest-Below n es key f i.below e in
          let new = next_attr ∷ [] in
          let more = length-append (stored next_token prev_token key layer ctx f) new in
          let count : length (done next_token prev_token key layer ctx).attrs ≡ n + 2 =
            rw attrs (omega arith) in
          let lifted : (j : ℕ) (a : Attr D (Option ℕ))
              → get_elem? (stored next_token prev_token key layer ctx f) j ≡ some a
              → get_elem? (done next_token prev_token key layer ctx).attrs j ≡ some a =
            λ j a h. rw attrs (
              get_elem?-append_left (stored next_token prev_token key layer ctx f) new j
                (get_elem?-lt (stored next_token prev_token key layer ctx f) j a h)
              ∙ h) in
          let with_prev = add_attr layer n ctx.layer_attrs in
          let all_attrs : (done next_token prev_token key layer ctx).layer_attrs
              ≡ add_attr layer (n + 1) with_prev =
            listed ∙ ap (λ m. add_attr layer m with_prev) size in
          let prev_attr = link_attr D next_token prev_token prev_token (some f.layer) in
          let told = link_attr D next_token prev_token next_token (some layer) in
          record {
            linked = (
              rw attrs (
                  get_elem?-append_end (stored next_token prev_token key layer ctx f) next_attr
                    (n + 1) (sym size)),
              subst
                  (IsPrev D next_token prev_token (done next_token prev_token key layer ctx).attrs
                    (some n))
                  (sym e)
                  (
                    n,
                    refl,
                    lifted n prev_attr (
                        get_elem?-set_other (longer next_token prev_token key layer ctx f) f.attr n
                          told (omega arith)
                        ∙ get_elem?-append_end ctx.attrs prev_attr n refl),
                  ),
              IsLinked-store D next_token prev_token ctx.attrs
                  (done next_token prev_token key layer ctx).attrs (λ k. none) es n key f layer
                  i.below e refl
                  (λ j a apart h. lifted j a (
                    get_elem?-set_other (longer next_token prev_token key layer ctx f) f.attr j told
                      (λ g. apart (sym g))
                    ∙ get_elem?-append_left ctx.attrs (prev_attr ∷ []) j
                        (get_elem?-lt ctx.attrs j a h)
                    ∙ h))
                  (lifted f.attr told (
                    get_elem?-set_self (longer next_token prev_token key layer ctx f) f.attr told
                      (omega (arith, length-append ctx.attrs (prev_attr ∷ [])))))
                  i.linked,
            );
            listed = (
              rw all_attrs (add_attr_here layer (n + 1) with_prev),
              (λ p g. rw all_attrs (
                  add_attr_old layer (n + 1) layer p with_prev (
                    ap (λ p. contains p (with_prev layer)) (sym (some_eq g))
                    ∙ add_attr_here layer n ctx.layer_attrs))),
              subst (λ la. AreListed la es) (sym all_attrs)
                  (AreListed-add_attr layer (n + 1) with_prev es
                    (AreListed-add_attr layer n ctx.layer_attrs es i.listed)),
            );
            below = (omega arith, (λ p g. let h = some_eq g in omega arith), i.below);
            found = λ k.
                rw
                  (
                    linked,
                    find-assign k key
                        (record {
                          layer = layer;
                          attr = length (stored next_token prev_token key layer ctx f);
                        })
                        ctx.linked_layers,
                  )
                  (rw (size) (ground (arith, i.found k)));
          }

  step-IsList :
      (key : Key) (layer : ℕ) (s : Context D × List Entry) → IsList s → IsList (step key layer s)
  unfolding step
  step-IsList key layer s i = elim (Option-cases (newest key s.1)) [
    | inl e ↦ rw (step, e) (first-IsList key layer s.0 s.1 i e)
    | inr (f, e) ↦ rw (step, e) (later-IsList key layer s.0 s.1 f i e)
  ]

  run-from : (calls : List (Key × ℕ)) (s : Context D × List Entry) → IsList s → IsList (run calls s)
  unfolding run
  run-from [] s i = i
  run-from ((key, layer) ∷ calls) s i =
      run-from calls (step key layer s) (step-IsList key layer s i)

  -- From a context in which nothing is linked, after any calls, the layers linked under each key are a
  -- doubly linked list in the order of the calls: each has a `--next` attribute with the address of
  -- the one after it, or null if it is the last, each but the first has a `--prev` attribute with the
  -- address of the one before it, and these attributes are attributes of the layer. The map knows the
  -- last layer of each key and its `--next` attribute.
  pub run-IsList :
      (calls : List (Key × ℕ)) (ctx : Context D)
      → ctx.linked_layers ≡ []
      → IsList (run calls (ctx, []))
  unfolding IsLinked AreListed Below newest find
  run-IsList calls ctx h =
      run-from calls (ctx, [])
        (record { linked = tt; listed = tt; below = tt; found = λ k. ap (find k) h })
