-- ===== src/Token/Tests.antt =====
-- Two threads and the generated table.
use deplug.Common.{ℕ, ◌≡◌, refl, false, List, [], ◌∷◌, arith}
use deplug.Token.{init, get, string, reserved, is_null}
use deplug.Token.Interning.{gets, run}
use deplug.Token.Roundtrip.{get-string}
use deplug.Token.Table.{bytes, words, word_at, hash}

-- A word of the table, and three strings that are none.
abbrev tcp : List ℕ
tcp = bytes "tcp"

abbrev http : List ℕ
http = bytes "http"

abbrev http2 : List ℕ
http2 = bytes "http2"

-- `ipv6.` has the place of `ipv6.nextHeader` and is where that word begins: it gets the word's token.
collision : (get words 1 (bytes "ipv6.") init).0 ≡ (get words 1 (bytes "ipv6.nextHeader") init).0
unfolding get words hash word_at
collision = refl

tcp-string : (string words 1 (get words 1 tcp init).0 init).0 ≡ tcp
unfolding get string words hash word_at
tcp-string = refl

get-string_example :
    ((string words 2 262 (run words (gets 2 http2 ∷ []) (get words 1 http init).1)).0 ≡ http)
    × ((get words 2 http (run words (gets 2 http2 ∷ []) (get words 1 http init).1)).0 ≡ 262)
    × ((t : List ℕ)
        → is_null http ≡ false
        → reserved words http ≡ false
        → is_null t ≡ false
        → reserved words t ≡ false
        → (get words 2 t (run words (gets 2 http2 ∷ []) (get words 1 http init).1)).0 ≡ 262
        → t ≡ http)
unfolding get run init words hash word_at reserved
get-string_example = get-string words [] (gets 2 http2 ∷ []) 1 2 http (omega arith)
