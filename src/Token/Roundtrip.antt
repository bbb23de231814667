-- ===== src/Token/Roundtrip.antt =====
-- From strings to tokens and back, while other threads use the tables.
use deplug.Common.{
  ℕ, ◌+◌, ◌^◌, ◌<◌, ◌≡◌, ap, ◌∙◌, sym, inl, inr, false, List, [], if◌then◌else◌, arith, Bool-cases,
  length, some_eq,
}
use deplug.Token.{Words, Tables, find_token, get, string, reserved, init, is_null}
use deplug.Token.Interning.{Op, run, Step}
use deplug.Token.Runs.{
  get-Step, get_free, string_named, Run, run-Run, init-Inv, reserved-bound, get_null, get_word,
  string_zero, string_word,
}

module _ (w : Words) where
  -- The string that the token of a string names: the word of the generated table at its place, where
  -- the table answers for it, and otherwise the string itself.
  abbrev pub named_by : List ℕ → List ℕ
  named_by s = if is_null s then [] else if reserved w s then w.word_at (w.hash s) else s

  module _ (os later : List Op) (thread other : ℕ) (s : List ℕ)
      (small : length os + length later + w.max_hash_value + 3 < 2 ^ 32) where
    -- The tables before the call, the call, and the tables after more calls.
    abbrev before : Tables
    before = run w os init

    abbrev token : ℕ
    token = (get w thread s before).0

    abbrev after : Tables
    after = run w later (get w thread s before).1

    before-Run : Run w init before os
    unfolding init
    before-Run = run-Run w os init (init-Inv w) (omega arith)

    call-Step : Step w before (get w thread s before).1
    unfolding init
    call-Step =
        let r = before-Run in let limit = r.size in get-Step w thread s before r.inv (omega arith)

    after-Run : Run w (get w thread s before).1 after later
    unfolding init
    after-Run =
        let limit = before-Run.size in
        let limit' = call-Step.size in
        run-Run w later (get w thread s before).1 call-Step.inv (omega arith)

    free_string :
        is_null s ≡ false
        → reserved w s ≡ false
        → ((string w other token after).0 ≡ s) × ((get w other s after).0 ≡ token)
    unfolding init
    free_string full free =
        let limit = before-Run.size in
        let limit' = call-Step.size in
        let limit'' = after-Run.size in
        let there = get_free w thread s before before-Run.inv (omega arith) (full, free) in
        let still = after-Run.extends.strings s token there in
        let (high, low, named) = after-Run.inv.shared.known s token still in
        let again = get_free w other s after after-Run.inv (omega arith) (full, free) in
        let step = get-Step w other s after after-Run.inv (omega arith) in
        (
          string_named w other token after s after-Run.inv high named,
          some_eq (sym again ∙ step.extends.strings s token still),
        )

    whole_string : ((string w other token after).0 ≡ named_by s) × ((get w other s after).0 ≡ token)
    whole_string = elim (Bool-cases (is_null s)) [
      | inl e ↦
          let zero_token = get_null w thread s before e in
          rw e (
            ap (λ k. (string w other k after).0) zero_token ∙ string_zero w other after,
            get_null w other s after e ∙ sym zero_token,
          )
      | inr full ↦ elim (Bool-cases (reserved w s)) [
        | inl word ↦
            let word_token = get_word w thread s before full word in
            rw (full, word)
              (
                ap (λ k. (string w other k after).0) word_token
                    ∙ string_word w other (w.hash s) after (reserved-bound w s word),
                get_word w other s after full word ∙ sym word_token,
              )
        | inr free ↦ rw (full, free) (free_string full free)
      ]
    ]

    -- A token that two strings share names both.
    apart :
        (t : List ℕ)
        → is_null s ≡ false
        → reserved w s ≡ false
        → is_null t ≡ false
        → reserved w t ≡ false
        → (get w other t after).0 ≡ token
        → t ≡ s
    unfolding init
    apart t full free full' free' same =
        let limit = before-Run.size in
        let limit' = call-Step.size in
        let limit'' = after-Run.size in
        let there = get_free w thread s before before-Run.inv (omega arith) (full, free) in
        let still = after-Run.extends.strings s token there in
        let step = get-Step w other t after after-Run.inv (omega arith) in
        let mine = get_free w other t after after-Run.inv (omega arith) (full', free') in
        let a = step.inv.shared.known s token (step.extends.strings s token still) in
        let b = step.inv.shared.known t (get w other t after).0 mine in
        some_eq (sym b.2 ∙ ap (λ k. find_token k (get w other t after).1.reverse_map) same ∙ a.2)

    -- However many calls other threads make before and after, while the tokens fit in 32 bits, the
    -- token that a thread gets for a string names, for every thread, the string itself if the
    -- generated table does not answer for it, and the word at its place if it does; and every thread
    -- that asks again gets the same token. So two strings that the table does not answer for never
    -- share a token.
    pub get-string :
        ((string w other token after).0 ≡ named_by s)
        × ((get w other s after).0 ≡ token)
        × ((t : List ℕ)
            → is_null s ≡ false
            → reserved w s ≡ false
            → is_null t ≡ false
            → reserved w t ≡ false
            → (get w other t after).0 ≡ token
            → t ≡ s)
    get-string = (whole_string.0, whole_string.1, λ t a b c d e. apart t a b c d e)
