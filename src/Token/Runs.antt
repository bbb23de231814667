-- ===== src/Token/Runs.antt =====
-- What a call and any calls leave, and what one call gives.
use deplug.Common.{
  ℕ, ◌+◌, ◌-◌, ◌^◌, ◌<◌, ◌≤◌, ◌≡◌, refl, ◌∙◌, sym, inl, inr, true, false, some, List, [], ◌∷◌, ◌==◌,
  leb, arith, Bool-cases, Option-cases, length, some_eq,
}
use deplug.Token.{
  Words, Tables, find_string, find_token, emplace_token, get, string, reserved, init, is_null,
}
use deplug.Token.Interning.{
  Op, gets, names, step, run, next, Inv, Extends, Extends-refl, Extends-trans, Step, idle,
  set_local-Step, named-Copied,
}
use deplug.Token.Growth.{intern-Step}

module _ (w : Words) where
  -- A string that is not a word of the generated table, and not empty.
  abbrev IsFree : List ℕ → Type 0
  IsFree s = (is_null s ≡ false) × (reserved w s ≡ false)

  pub get-Step :
      (thread : ℕ) (s : List ℕ) (t : Tables)
      → Inv w t
      → next w t < 2 ^ 32
      → Step w t (get w thread s t).1
  unfolding get
  get-Step thread s t v small = elim (Bool-cases (is_null s)) [
    | inl e ↦ rw (get, e) (idle w t v)
    | inr full ↦ elim (Bool-cases (reserved w s)) [
      | inl e ↦ rw (get, full, e) (idle w t v)
      | inr other ↦ elim (Option-cases (find_string s (t.locals thread).local_map)) [
        | inl e ↦ rw (get, full, other, e) (intern-Step w thread s t v small).0
        | inr (id, e) ↦ rw (get, full, other, e) (idle w t v)
      ]
    ]
  ]

  pub get_free :
      (thread : ℕ) (s : List ℕ) (t : Tables)
      → Inv w t
      → next w t < 2 ^ 32
      → IsFree s
      → find_string s (get w thread s t).1.map ≡ some (get w thread s t).0
  unfolding get
  get_free thread s t v small (full, other) =
      elim (Option-cases (find_string s (t.locals thread).local_map)) [
        | inl e ↦ rw (get, full, other, e) (intern-Step w thread s t v small).1
        | inr (id, e) ↦ rw (get, full, other, e) ((v.copied thread).strings s id e)
      ]

  string-Step : (thread token : ℕ) (t : Tables) → Inv w t → Step w t (string w thread token t).1
  unfolding string
  string-Step thread token t v = elim (Bool-cases (token == 0)) [
    | inl e ↦ rw (string, e) (idle w t v)
    | inr some_token ↦ elim (Bool-cases (leb token (w.max_hash_value + 1))) [
      | inl e ↦ rw (string, some_token, e) (idle w t v)
      | inr high ↦ elim (Option-cases (find_token token (t.locals thread).local_reverse_map)) [
        | inr (str, e) ↦ rw (string, some_token, high, e) (idle w t v)
        | inl new ↦ elim (Option-cases (find_token token t.reverse_map)) [
          | inl e ↦ rw (string, some_token, high, new, e) (idle w t v)
          | inr (str, e) ↦
              rw (string, some_token, high, new, e)
                (set_local-Step w thread
                  (record (t.locals thread) {
                    local_reverse_map = emplace_token token str (t.locals thread).local_reverse_map;
                  })
                  t v (named-Copied w t (t.locals thread) token str (v.copied thread) e))
        ]
      ]
    ]
  ]

  pub string_named :
      (thread token : ℕ) (t : Tables) (s : List ℕ)
      → Inv w t
      → w.max_hash_value + 1 < token
      → find_token token t.reverse_map ≡ some s
      → (string w thread token t).0 ≡ s
  unfolding string
  string_named thread token t s v high h =
      let some_token : (token == 0) ≡ false = ground arith in
      let above : leb token (w.max_hash_value + 1) ≡ false = ground arith in
      elim (Option-cases (find_token token (t.locals thread).local_reverse_map)) [
        | inl e ↦ rw (string, some_token, above, e, h)
        | inr (str, e) ↦
            let same_str : some str ≡ some s = sym ((v.copied thread).tokens token str e) ∙ h in
            rw (string, some_token, above, e) (some_eq same_str)
      ]

  step-Step : (o : Op) (t : Tables) → Inv w t → next w t < 2 ^ 32 → Step w t (step w o t)
  unfolding step
  step-Step (gets thread str) t v small = get-Step thread str t v small
  step-Step (names thread token) t v small = string-Step thread token t v

  -- What any calls leave, as long as the tokens fit.
  pub record Run (t t' : Tables) (os : List Op) : Type 0 where
    pub inv : Inv w t'
    pub extends : Extends w t t'
    pub size : length t'.map ≤ length t.map + length os

  pub run-Run :
      (os : List Op) (t : Tables) → Inv w t → next w t + length os < 2 ^ 32 → Run t (run w os t) os
  unfolding run
  run-Run [] t v small = record { inv = v; extends = Extends-refl w t; size = omega arith }
  run-Run (o ∷ os) t v small =
      let first = step-Step o t v (omega arith) in
      let limit = first.size in
      let rest = run-Run os (step w o t) first.inv (omega arith) in
      let limit' = rest.size in
      record {
        inv = rest.inv;
        extends = Extends-trans w t (step w o t) (run w os (step w o t)) first.extends rest.extends;
        size = omega arith;
      }

  pub init-Inv : Inv w init
  unfolding init find_string find_token
  init-Inv = record {
    shared = record { known = λ s id h. absurd (cc); fresh = λ id s h. absurd (cc) };
    copied = λ thread. record { strings = λ s id h. h; tokens = λ id s h. h };
  }

  pub reserved-bound : (s : List ℕ) → reserved w s ≡ true → w.hash s ≤ w.max_hash_value
  unfolding reserved
  reserved-bound s h = ground arith

  pub get_null :
      (thread : ℕ) (s : List ℕ) (t : Tables) → is_null s ≡ true → (get w thread s t).0 ≡ 0
  unfolding get
  get_null thread s t e = rw (get, e)

  pub get_word :
      (thread : ℕ) (s : List ℕ) (t : Tables)
      → is_null s ≡ false
      → reserved w s ≡ true
      → (get w thread s t).0 ≡ w.hash s + 1
  unfolding get
  get_word thread s t full e = rw (get, full, e)

  pub string_zero : (thread : ℕ) (t : Tables) → (string w thread 0 t).0 ≡ []
  unfolding string
  string_zero thread t = refl

  pub string_word :
      (thread hash : ℕ) (t : Tables)
      → hash ≤ w.max_hash_value
      → (string w thread (hash + 1) t).0 ≡ w.word_at hash
  unfolding string
  string_word thread hash t h =
      let some_token : (hash + 1 == 0) ≡ false = ground arith in
      let low : leb (hash + 1) (w.max_hash_value + 1) ≡ true = ground arith in
      let back : hash + 1 - 1 ≡ hash = omega arith in rw (string, some_token, low, back)
