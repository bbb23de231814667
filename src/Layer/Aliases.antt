-- ===== src/Layer/Aliases.antt =====
-- `Layer::attr` with attributes and aliases in any order.
use deplug.Common.{
  ℕ, ◌%◌, ◌^◌, ◌<◌, ◌≡◌, refl, ◌≢◌, List, [], ◌∷◌, ◌++◌, ◌==◌, arith, append_assoc, true, ◌∙◌,
}
use deplug.Variant.{Floats, uint64_value, of_uint32}
use deplug.Layer.{Layer, Attr, attr, add_attr_alias, add_attr, new_attr}

module _ {D P : Type 0} where
  -- No attribute has this id.
  abbrev pub IsFree : ℕ → List (Attr D P) → Type 0
  IsFree id [] = Unit
  IsFree id (a ∷ attrs) = (a.id ≢ id) × IsFree id attrs

  module _ (f : Floats D) (alias_token : ℕ) where
    attr-skip :
        (id : ℕ) (xs ys : List (Attr D P))
        → IsFree id xs
        → attr f alias_token id (xs ++ ys) ≡ attr f alias_token id ys
    unfolding attr
    attr-skip id [] ys h = refl
    attr-skip id (x ∷ xs) ys h = ground (arith, attr-skip id xs ys h.1)

    -- An alias of a layer that has no attribute of that name yet stands for its target among the
    -- attributes that are added after it, `later`; what the layer had before is not looked at, so
    -- an alias whose target was added first is found as nothing.
    pub add_attr_alias-attr :
        {F : Type 0} (alias target : ℕ) (l : Layer D P F) (later : List (Attr D P))
        → target < 2 ^ 32
        → IsFree alias l.attrs
        → attr f alias_token alias ((add_attr_alias alias_token alias target l).attrs ++ later)
          ≡ attr f alias_token target later
    unfolding add_attr_alias add_attr new_attr attr of_uint32 uint64_value
    add_attr_alias-attr alias target l later small h =
        let last : Attr D P = record (new_attr alias) {
          type = alias_token;
          value = of_uint32 target;
        } in
        let found = attr-skip alias l.attrs (last ∷ later) h in
        let shape = append_assoc l.attrs (last ∷ []) later in
        let here : attr f alias_token alias (last ∷ later) ≡ attr f alias_token target later =
          let fits : target % 2 ^ 32 ≡ target = omega arith in
          let me : (alias == alias) ≡ true = ground arith in
          let marked : (alias_token == alias_token) ≡ true = ground arith in
          rw (attr, me, marked, fits) in
        rw shape (found ∙ here)
