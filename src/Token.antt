-- ===== src/Token.antt =====
-- plugkit/src/token.cpp: numbers for strings. A few words have a perfect hash that gperf generates
-- (token_hash.h); all others are numbered as they come, in tables that the threads share under a
-- mutex, with a copy of the entries that it has met in each thread. Strings are C strings, their
-- bytes before the NUL.
pub mod Maps
pub mod Interning
pub mod Growth
pub mod Runs
pub mod Roundtrip
pub mod Table
mod Tests
use deplug.Common.{
  ℕ, ◌+◌, ◌-◌, ◌%◌, ◌^◌, Bool, true, false, ◌&&◌, Option, none, some, List, [], ◌∷◌, leb, ◌==◌,
  if◌then◌else◌, length,
}

-- The generated table: `wordlist`, `hash` and the bounds of both.
pub record Words : Type 0 where
  pub word_at : ℕ → List ℕ
  pub hash : List ℕ → ℕ
  pub min_word_length : ℕ
  pub max_word_length : ℕ
  pub max_hash_value : ℕ

unfoldable pub same : List ℕ → List ℕ → Bool
same [] [] = true
same [] (y ∷ ys) = false
same (x ∷ xs) [] = false
same (x ∷ xs) (y ∷ ys) = let rest = same xs ys in x == y && rest

-- `strncmp(str, s, length) == 0`, where `length` is that of `str`.
unfoldable pub strncmp_equal : List ℕ → List ℕ → Bool
strncmp_equal [] s = true
strncmp_equal (x ∷ xs) [] = false
strncmp_equal (x ∷ xs) (y ∷ ys) = let rest = strncmp_equal xs ys in x == y && rest

-- `find` of the maps on strings and of those on tokens; `emplace` leaves an entry that is there.
unfoldable pub find_string : List ℕ → List (List ℕ × ℕ) → Option ℕ
unfolding same
find_string key [] = none
find_string key ((k, v) ∷ m) = let rest = find_string key m in if same k key then some v else rest

unfoldable pub find_token : ℕ → List (ℕ × List ℕ) → Option (List ℕ)
find_token key [] = none
find_token key ((k, v) ∷ m) = let rest = find_token key m in if k == key then some v else rest

unfoldable pub emplace_string : List ℕ → ℕ → List (List ℕ × ℕ) → List (List ℕ × ℕ)
unfolding find_string
emplace_string k v m = elim (find_string k m) [ none ↦ (k, v) ∷ m | some old ↦ m ]

unfoldable pub emplace_token : ℕ → List ℕ → List (ℕ × List ℕ) → List (ℕ × List ℕ)
unfolding find_token
emplace_token k v m = elim (find_token k m) [ none ↦ (k, v) ∷ m | some old ↦ m ]

-- `localMap` and `localReverseMap` of a thread.
pub record Local : Type 0 where
  pub local_map : List (List ℕ × ℕ)
  pub local_reverse_map : List (ℕ × List ℕ)

pub record Tables : Type 0 where
  pub map : List (List ℕ × ℕ)
  pub reverse_map : List (ℕ × List ℕ)
  pub locals : ℕ → Local

unfoldable pub init : Tables
init = record {
  map = [];
  reverse_map = [];
  locals = λ thread. record { local_map = []; local_reverse_map = [] };
}

abbrev pub set_local : ℕ → Local → Tables → Tables
set_local thread l t = record t { locals = λ other. if other == thread then l else t.locals other }

-- `str[0] == '\0'`
unfoldable pub is_null : List ℕ → Bool
is_null [] = true
is_null (x ∷ xs) = false

module _ (w : Words) where
  -- The word of the generated table, if the string is one.
  unfoldable pub reserved : List ℕ → Bool
  unfolding strncmp_equal
  reserved str =
      leb (length str) w.max_word_length
      && leb w.min_word_length (length str)
      && leb (w.hash str) w.max_hash_value
      && strncmp_equal str (w.word_at (w.hash str))

  -- The part of `Token_literal_` that holds the mutex, and the two insertions after it.
  unfoldable pub intern : ℕ → List ℕ → Tables → ℕ × Tables
  unfolding find_string emplace_string emplace_token
  intern thread key t =
      let l = t.locals thread in
      elim (find_string key t.map) [
        | some id ↦
            (id, set_local thread (record l { local_map = emplace_string key id l.local_map }) t)
        | none ↦
            let id = (length t.map + 1 + w.max_hash_value + 1) % 2 ^ 32 in
            (
              id,
              set_local thread
                  (record {
                    local_map = emplace_string key id l.local_map;
                    local_reverse_map = emplace_token id key l.local_reverse_map;
                  })
                  (record t {
                    map = emplace_string key id t.map;
                    reverse_map = emplace_token id key t.reverse_map;
                  }),
            )
      ]

  -- `Token_get`, with `Token_literal_`, as a thread calls it.
  unfoldable pub get : ℕ → List ℕ → Tables → ℕ × Tables
  unfolding reserved intern is_null
  get thread str t =
      if is_null str
      then (0, t)
      else if reserved str
      then (w.hash str + 1, t)
      else elim (find_string str (t.locals thread).local_map) [
        | some id ↦ (id, t)
        | none ↦ intern thread str t
      ]

  -- `Token_string`
  unfoldable pub string : ℕ → ℕ → Tables → List ℕ × Tables
  unfolding find_token emplace_token
  string thread token t =
      if token == 0
      then ([], t)
      else if leb token (w.max_hash_value + 1)
      then (w.word_at (token - 1), t)
      else elim (find_token token (t.locals thread).local_reverse_map) [
        | some str ↦ (str, t)
        | none ↦ elim (find_token token t.reverse_map) [
          | none ↦ ([], t)
          | some str ↦
              let l = t.locals thread in
              (
                str,
                set_local thread
                    (record l { local_reverse_map = emplace_token token str l.local_reverse_map })
                    t,
              )
        ]
      ]
