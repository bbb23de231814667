-- ===== src/Sequence.antt =====
-- The `std::map<uint32_t, V> sequence` of frame_store.cpp and filter_thread_pool.cpp, in ascending
-- order of its keys, with the operations that these files call, and the loop in which both of them
-- take the keys that follow `maxSeq`.
pub mod Laws
pub mod Advance
pub mod Listing
pub mod Fill
use deplug.Common.{
  ℕ, zero, suc, ◌+◌, ◌%◌, ◌^◌, Option, none, some, List, [], ◌∷◌, ltb, ◌==◌, if◌then◌else◌, length,
}

abbrev pub Sequence {ℓ} : Type ℓ → Type ℓ
Sequence V = List (ℕ × V)

-- `x + 1` on a `uint32_t`.
abbrev pub next : ℕ → ℕ
next seq = (seq + 1) % 2 ^ 32

module _ {ℓ} {V : Type ℓ} where
  unfoldable pub find : ℕ → Sequence V → Option V
  find k [] = none
  find k ((j, v) ∷ m) = if j == k then some v else find k m

  -- `sequence[k] = v`
  unfoldable pub put : ℕ → V → Sequence V → Sequence V
  put k v [] = (k, v) ∷ []
  put k v ((j, w) ∷ m) =
      let rest = put k v m in
      if ltb k j then (k, v) ∷ (j, w) ∷ m else if j == k then (k, v) ∷ m else (j, w) ∷ rest

  -- `sequence.insert(std::make_pair(k, v))` keeps a value that is there.
  unfoldable pub insert : ℕ → V → Sequence V → Sequence V
  insert k v [] = (k, v) ∷ []
  insert k v ((j, w) ∷ m) =
      let rest = insert k v m in
      if ltb k j then (k, v) ∷ (j, w) ∷ m else if j == k then (j, w) ∷ m else (j, w) ∷ rest

  -- An iterator is the key that it stands at; `none` is `end()`.
  abbrev pub begin : Sequence V → Option ℕ
  begin [] = none
  begin ((j, w) ∷ m) = some j

  erase_until : ℕ → Sequence V → Sequence V
  erase_until k [] = []
  erase_until k ((j, w) ∷ m) = let rest = erase_until k m in if ltb j k then rest else (j, w) ∷ m

  -- `sequence.erase(sequence.begin(), end)`: the element at `end` stays.
  unfoldable pub erase : Option ℕ → Sequence V → Sequence V
  unfolding erase_until
  erase none m = []
  erase (some k) m = erase_until k m

-- The loop `for (it = find(maxSeq + 1); it != end(); end = it, it = find(++maxSeq + 1)) …`, with
-- `visit it->first it->second` for its body: the last `maxSeq`, `end` and output.
pub record Advanced {ℓ} (W : Type ℓ) : Type ℓ where
  pub max_seq : ℕ
  pub end : Option ℕ
  pub out : List W

module _ {ℓ κ} {V : Type ℓ} {W : Type κ} (visit : ℕ → V → List W → List W) where
  unfoldable pub advance : ℕ → Sequence V → Advanced W → Advanced W
  advance zero m a = a
  advance (suc fuel) m a = elim (find (next a.max_seq) m) [
    | none ↦ a
    | some v ↦ advance fuel m (record {
      max_seq = next a.max_seq;
      end = some (next a.max_seq);
      out = visit (next a.max_seq) v a.out;
    })
  ]

  -- One round more than the map has elements.
  unfoldable pub advance_all : Sequence V → ℕ → List W → Advanced W
  unfolding advance
  advance_all m max_seq out =
      advance (length m + 1) m (record { max_seq = max_seq; end = begin m; out = out })
