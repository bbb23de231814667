-- ===== src/Token/Table.antt =====
-- plugkit/src/token_hash.h: the table that gperf generates for the words of plugkit/src/token.keys.
-- The words are ASCII, so their characters are their bytes.
use deplug.Common.{
  ℕ, ◌+◌, ◌-◌, ◌≡◌, refl, Bool, true, ◌&&◌, ◌||◌, none, some, List, [], ◌∷◌, ltb, ◌==◌,
  if◌then◌else◌, length, get_elem?,
}
use Prim.Native.String.{String}
use Prim.Native.Char.{code}
use deplug.Token.{Words, is_null, reserved}

abbrev pub bytes : String → List ℕ
bytes String.[] = []
bytes (String.◌∷◌ c cs) = code c ∷ bytes cs

abbrev asso_values : List ℕ
asso_values =
    261 ∷ 261 ∷ 261 ∷ 261 ∷ 261 ∷ 261 ∷ 261 ∷ 261 ∷ 261 ∷ 261 ∷ 261 ∷ 261 ∷ 261 ∷ 261 ∷ 261 ∷ 261
    ∷ 261 ∷ 261 ∷ 261 ∷ 261 ∷ 261 ∷ 261 ∷ 261 ∷ 261 ∷ 261 ∷ 261 ∷ 261 ∷ 261 ∷ 261 ∷ 261 ∷ 261 ∷ 261
    ∷ 261 ∷ 261 ∷ 261 ∷ 261 ∷ 0 ∷ 261 ∷ 261 ∷ 261 ∷ 261 ∷ 261 ∷ 261 ∷ 261 ∷ 261 ∷ 0 ∷ 10 ∷ 261 ∷ 261
    ∷ 261 ∷ 261 ∷ 261 ∷ 0 ∷ 261 ∷ 5 ∷ 261 ∷ 261 ∷ 261 ∷ 0 ∷ 261 ∷ 261 ∷ 261 ∷ 261 ∷ 261 ∷ 261 ∷ 261
    ∷ 261 ∷ 261 ∷ 261 ∷ 261 ∷ 110 ∷ 261 ∷ 261 ∷ 261 ∷ 261 ∷ 261 ∷ 261 ∷ 261 ∷ 261 ∷ 261 ∷ 261 ∷ 261
    ∷ 261 ∷ 261 ∷ 261 ∷ 261 ∷ 261 ∷ 261 ∷ 261 ∷ 261 ∷ 261 ∷ 261 ∷ 261 ∷ 0 ∷ 261 ∷ 261 ∷ 261 ∷ 40
    ∷ 261 ∷ 45 ∷ 5 ∷ 65 ∷ 35 ∷ 100 ∷ 65 ∷ 70 ∷ 261 ∷ 45 ∷ 70 ∷ 95 ∷ 30 ∷ 0 ∷ 0 ∷ 25 ∷ 0 ∷ 30 ∷ 15
    ∷ 0 ∷ 0 ∷ 261 ∷ 60 ∷ 0 ∷ 261 ∷ 261 ∷ 261 ∷ 261 ∷ 261 ∷ 261 ∷ 261 ∷ 261 ∷ 261 ∷ 261 ∷ 261 ∷ 261
    ∷ 261 ∷ 261 ∷ 261 ∷ 261 ∷ 261 ∷ 261 ∷ 261 ∷ 261 ∷ 261 ∷ 261 ∷ 261 ∷ 261 ∷ 261 ∷ 261 ∷ 261 ∷ 261
    ∷ 261 ∷ 261 ∷ 261 ∷ 261 ∷ 261 ∷ 261 ∷ 261 ∷ 261 ∷ 261 ∷ 261 ∷ 261 ∷ 261 ∷ 261 ∷ 261 ∷ 261 ∷ 261
    ∷ 261 ∷ 261 ∷ 261 ∷ 261 ∷ 261 ∷ 261 ∷ 261 ∷ 261 ∷ 261 ∷ 261 ∷ 261 ∷ 261 ∷ 261 ∷ 261 ∷ 261 ∷ 261
    ∷ 261 ∷ 261 ∷ 261 ∷ 261 ∷ 261 ∷ 261 ∷ 261 ∷ 261 ∷ 261 ∷ 261 ∷ 261 ∷ 261 ∷ 261 ∷ 261 ∷ 261 ∷ 261
    ∷ 261 ∷ 261 ∷ 261 ∷ 261 ∷ 261 ∷ 261 ∷ 261 ∷ 261 ∷ 261 ∷ 261 ∷ 261 ∷ 261 ∷ 261 ∷ 261 ∷ 261 ∷ 261
    ∷ 261 ∷ 261 ∷ 261 ∷ 261 ∷ 261 ∷ 261 ∷ 261 ∷ 261 ∷ 261 ∷ 261 ∷ 261 ∷ 261 ∷ 261 ∷ 261 ∷ 261 ∷ 261
    ∷ 261 ∷ 261 ∷ 261 ∷ 261 ∷ 261 ∷ 261 ∷ 261 ∷ 261 ∷ 261 ∷ 261 ∷ 261 ∷ 261 ∷ 261 ∷ 261 ∷ 261 ∷ 261
    ∷ 261 ∷ 261 ∷ 261 ∷ 261 ∷ 261 ∷ 261 ∷ 261 ∷ 261 ∷ 261 ∷ 261 ∷ []

abbrev wordlist : List String
wordlist =
    "" ∷ "$" ∷ "" ∷ "" ∷ "ipv4" ∷ "[udp]" ∷ "" ∷ "--error" ∷ "udp" ∷ "" ∷ "" ∷ "" ∷ "" ∷ "" ∷ "ipv6"
    ∷ "" ∷ "" ∷ "$.error" ∷ "" ∷ "" ∷ "[tcp]" ∷ "" ∷ "ipv4.id" ∷ "" ∷ "@udp:port" ∷ "" ∷ "" ∷ ""
    ∷ "ipv6.hopByHop" ∷ "!out-of-memory" ∷ "ipv6.nextHeader" ∷ "" ∷ "ipv4.protocol.udp" ∷ "ipv4.dst"
    ∷ "ipv4.flags.reserved" ∷ "" ∷ "" ∷ "ipv6.protocol.udp" ∷ "ipv6.dst" ∷ "@tcp:port" ∷ "" ∷ ""
    ∷ "udp.dst" ∷ "ipv6.hopLimit" ∷ "" ∷ "" ∷ "" ∷ "" ∷ "tcp" ∷ "" ∷ "ipv4.flags" ∷ ""
    ∷ "ipv4.version" ∷ "eth.type.ipv4" ∷ "--paylaod" ∷ "" ∷ "" ∷ "ipv6.version" ∷ "eth.type.ipv6"
    ∷ "!out-of-bounds" ∷ "" ∷ "" ∷ "" ∷ "ipv4.src" ∷ "$.payload" ∷ "" ∷ "" ∷ "" ∷ "ipv6.src" ∷ ""
    ∷ "" ∷ "--prev" ∷ "ipv4.protocol.tcp" ∷ "ipv4.protocol.icmp" ∷ "" ∷ "_.dst" ∷ "[ipv4]"
    ∷ "ipv6.protocol.tcp" ∷ "ipv6.protocol.icmp" ∷ "ipv4.fragmentOffset" ∷ "@ipv4:addr" ∷ "[ipv6]"
    ∷ "tcp.dst" ∷ "eth" ∷ "ipv4.type" ∷ "@ipv6:addr" ∷ "" ∷ "@nested" ∷ "ipv4.ttl"
    ∷ "tcp.dataOffset" ∷ "" ∷ "" ∷ "ipv6.trafficClass" ∷ "ipv4.protocol" ∷ "" ∷ "" ∷ "" ∷ "udp.src"
    ∷ "ipv6.protocol" ∷ "ipv6.flowLevel" ∷ "" ∷ "" ∷ "tcp.streamId" ∷ "tcp.flags.cwr" ∷ "" ∷ "_.src"
    ∷ "" ∷ "ipv4.headerLength" ∷ "@int:oct" ∷ "" ∷ "" ∷ "" ∷ "$.index" ∷ "eth.type" ∷ "" ∷ "" ∷ ""
    ∷ "tcp.seq" ∷ "ipv4.checksum" ∷ "" ∷ "" ∷ "" ∷ "" ∷ "@int:bin" ∷ "" ∷ "" ∷ "" ∷ ""
    ∷ "ipv4.protocol.igmp" ∷ "tcp.flags" ∷ "" ∷ "" ∷ "tcp.flags.ns" ∷ "ipv6.protocol.igmp" ∷ ""
    ∷ "[eth]" ∷ "" ∷ "tcp.src" ∷ "@int:dec" ∷ "" ∷ "" ∷ "" ∷ "" ∷ "@novalue" ∷ "" ∷ "" ∷ "--next"
    ∷ "tcp.ack" ∷ "tcp.flags.ack" ∷ "$.actualLength" ∷ "" ∷ "" ∷ "" ∷ "@int:hex" ∷ "" ∷ "@date:unix"
    ∷ "ipv4.totalLength" ∷ "" ∷ "ipv4.flags.dontFragment" ∷ "" ∷ "udp.length" ∷ "" ∷ "" ∷ "" ∷ ""
    ∷ "" ∷ "" ∷ "udp.checksum" ∷ "tcp.flags.ece" ∷ "" ∷ "" ∷ "" ∷ "" ∷ ""
    ∷ "ipv4.flags.moreFragments" ∷ "" ∷ "" ∷ "--alias" ∷ "" ∷ "" ∷ "" ∷ "" ∷ "" ∷ "@eth:mac" ∷ ""
    ∷ "" ∷ "$.timestamp" ∷ "" ∷ "" ∷ "!invalid-value" ∷ "" ∷ "" ∷ "" ∷ "" ∷ "" ∷ "" ∷ "" ∷ "@stream"
    ∷ "ipv6.payloadLength" ∷ "" ∷ "" ∷ "" ∷ "" ∷ "tcp.flags.urg" ∷ "" ∷ "" ∷ "" ∷ "" ∷ "" ∷ "" ∷ ""
    ∷ "@flags" ∷ "" ∷ "" ∷ "" ∷ "" ∷ "" ∷ "" ∷ "" ∷ "" ∷ "" ∷ "" ∷ "" ∷ "" ∷ "" ∷ "" ∷ "" ∷ "" ∷ ""
    ∷ "" ∷ "" ∷ "" ∷ "" ∷ "" ∷ "" ∷ "" ∷ "" ∷ "" ∷ "" ∷ "" ∷ "" ∷ "" ∷ "" ∷ "" ∷ "" ∷ "" ∷ "" ∷ ""
    ∷ "" ∷ "" ∷ "" ∷ "" ∷ "" ∷ "" ∷ "" ∷ "" ∷ "" ∷ "" ∷ "" ∷ "" ∷ "@enum" ∷ []

-- `asso_values[(unsigned char)str[i]]`; no index is out of range where `hash` uses it.
unfoldable pub asso : List ℕ → ℕ → ℕ
asso str i = elim (get_elem? str i) [
  | none ↦ 0
  | some c ↦ elim (get_elem? asso_values c) [ none ↦ 0 | some v ↦ v ]
]

-- The `switch` falls through from the case of the length.
unfoldable pub hash : List ℕ → ℕ
unfolding asso
hash str =
    let len = length str in
    len
    + (if ltb 15 len then asso str 15 else 0)
    + (if ltb 4 len then asso str 4 else 0)
    + (if ltb 3 len then asso str 3 else 0)
    + (if ltb 1 len then asso str 1 else 0)
    + asso str (len - 1)

unfoldable pub word_at : ℕ → List ℕ
word_at key = elim (get_elem? wordlist key) [ none ↦ [] | some word ↦ bytes word ]

-- `MIN_WORD_LENGTH`, `MAX_WORD_LENGTH` and `MAX_HASH_VALUE`
unfoldable pub words : Words
unfolding hash word_at
words = record {
  word_at = word_at;
  hash = hash;
  min_word_length = 1;
  max_word_length = 24;
  max_hash_value = 260;
}

-- Whether each word from the place `key` on is empty or found at its own place.
own_places : List String → ℕ → Bool
own_places [] key = true
own_places (word ∷ rest) key =
    let later = own_places rest (key + 1) in
    let str = bytes word in (is_null str || reserved words str && hash str == key) && later

own_places_lem : own_places wordlist 0 ≡ true
unfolding own_places words hash reserved is_null
own_places_lem = refl
