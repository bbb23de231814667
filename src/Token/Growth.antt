-- ===== src/Token/Growth.antt =====
-- Interning a string that the shared tables do not have yet, and the whole of `intern`.
use deplug.Common.{
  ℕ, ◌+◌, ◌%◌, ◌^◌, ◌<◌, ◌≡◌, ap, ◌∙◌, inl, inr, none, some, List, arith, Bool-cases, Option-cases,
  length,
}
use deplug.Token.{
  Words, Local, Tables, same, find_string, find_token, emplace_string, emplace_token, set_local,
  intern,
}
use deplug.Token.Maps.{
  same_refl, eq_of_same, find_string-emplace, find_token-emplace, find_string-emplace_from,
  find_token-emplace_from,
}
use deplug.Token.Interning.{
  next, Shared, Copied, Inv, Extends, set_local-Inv, met-Copied, named-Copied, set_local-Step, Step,
}

module _ (w : Words) where
  -- A string that the tables do not have.
  module _ (key : List ℕ) (t : Tables) (v : Inv w t) (new : find_string key t.map ≡ none) where
    abbrev grown : Tables
    grown = record t {
      map = emplace_string key (next w t) t.map;
      reverse_map = emplace_token (next w t) key t.reverse_map;
    }

    free : find_token (next w t) t.reverse_map ≡ none
    free = elim (Option-cases (find_token (next w t) t.reverse_map)) [
      | inl e ↦ e
      | inr (s, e) ↦ let below = v.shared.fresh (next w t) s e in absurd (omega arith)
    ]

    grown-length : length grown.map ≡ length t.map + 1
    unfolding emplace_string
    grown-length = rw (emplace_string, new) (omega arith)

    key_there : find_string key grown.map ≡ some (next w t)
    key_there = find_string-emplace key key (next w t) t.map new ∙ ground (arith, same_refl key)

    token_there : find_token (next w t) grown.reverse_map ≡ some key
    token_there = find_token-emplace (next w t) (next w t) key t.reverse_map free ∙ ground arith

    grown-Extends : Extends w t grown
    grown-Extends = record {
      strings = λ s id h.
          find_string-emplace s key (next w t) t.map new ∙ elim (Bool-cases (same key s)) [
            | inl is ↦ let e = eq_of_same key s is in absurd (cc)
            | inr other ↦ ground arith
          ];
      tokens = λ id s h.
          let below = v.shared.fresh id s h in
          find_token-emplace id (next w t) key t.reverse_map free ∙ ground arith;
    }

    grown-Shared : Shared w grown
    grown-Shared = record {
      known = λ s id h. elim (find_string-emplace_from s key (next w t) id t.map h) [
        | inl (same_key, same_id) ↦ (
          omega arith,
          omega (arith, grown-length),
          ap (λ k. find_token k grown.reverse_map) same_id ∙ token_there ∙ ap some same_key,
        )
        | inr old ↦
            let (high, low, named) = v.shared.known s id old in
            (high, omega (arith, grown-length), grown-Extends.tokens id s named)
      ];
      fresh = λ id s h. elim (find_token-emplace_from id (next w t) key s t.reverse_map h) [
        | inl (same_token, same_str) ↦ omega (arith, grown-length)
        | inr old ↦ omega (arith, grown-length, v.shared.fresh id s old)
      ];
    }

    grown-Copied : (l : Local) → Copied w t l → Copied w grown l
    grown-Copied l c = record {
      strings = λ s id h. grown-Extends.strings s id (c.strings s id h);
      tokens = λ id s h. grown-Extends.tokens id s (c.tokens id s h);
    }

    -- The thread's copy with the new entry in both of its maps.
    abbrev met : ℕ → Local
    met thread = record {
      local_map = emplace_string key (next w t) (t.locals thread).local_map;
      local_reverse_map = emplace_token (next w t) key (t.locals thread).local_reverse_map;
    }

    grown-Step : (thread : ℕ) → Step w t (set_local thread (met thread) grown)
    grown-Step thread =
        let l = t.locals thread in
        let half =
          met-Copied w grown l key (next w t) (grown-Copied l (v.copied thread)) key_there in
        let whole =
          named-Copied w grown (record l { local_map = emplace_string key (next w t) l.local_map })
            (next w t) key half token_there in
        record {
          inv =
              set_local-Inv w thread (met thread) grown grown-Shared
                (λ other. grown-Copied (t.locals other) (v.copied other)) whole;
          extends = record { strings = grown-Extends.strings; tokens = grown-Extends.tokens };
          size = omega (arith, grown-length);
        }

    intern_new :
        (thread : ℕ)
        → next w t < 2 ^ 32
        → intern w thread key t ≡ (next w t, set_local thread (met thread) grown)
    unfolding intern
    intern_new thread small =
        let fits : (length t.map + 1 + w.max_hash_value + 1) % 2 ^ 32 ≡ next w t = omega arith in
        rw (intern, new, fits)

  pub intern-Step :
      (thread : ℕ) (key : List ℕ) (t : Tables)
      → Inv w t
      → next w t < 2 ^ 32
      → Step w t (intern w thread key t).1
        × (find_string key (intern w thread key t).1.map ≡ some (intern w thread key t).0)
  unfolding intern
  intern-Step thread key t v small = elim (Option-cases (find_string key t.map)) [
    | inr (id, e) ↦
        rw (intern, e)
          (
            set_local-Step w thread
                (record (t.locals thread) {
                  local_map = emplace_string key id (t.locals thread).local_map;
                })
                t v (met-Copied w t (t.locals thread) key id (v.copied thread) e),
            e,
          )
    | inl e ↦
        rw (intern_new key t v e thread small) (grown-Step key t v e thread, key_there key t v e)
  ]
