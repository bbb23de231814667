-- ===== src/StreamPool.antt =====
-- plugkit/src/stream_dissector_thread_pool.cpp: which frame every stream dissector thread was given
-- last and has dissected last, and from these the number of frames that are dissected throughout.
-- Indices are `uint32_t` values that are only compared.
pub mod Progress
pub mod Retreat
pub mod Dispatch
pub mod Routing
mod Tests
use deplug.Common.{
  ℕ, zero, suc, min, Option, none, some, List, [], ◌∷◌, ltb, if◌then◌else◌, get_elem?, set,
}

-- `std::pair<uint32_t, uint32_t>`
pub record Stat : Type 0 where
  pub pushed : ℕ
  pub dissected : ℕ

-- `threadStats.resize(threads.size())` makes pairs of zeros.
unfoldable pub init_stats : ℕ → List Stat
init_stats zero = []
init_stats (suc n) = record { pushed = 0; dissected = 0 } ∷ init_stats n

unfoldable pub raise : ℕ → ℕ → Stat → Stat
raise pushed dissected s = record {
  pushed = (if ltb s.pushed pushed then pushed else s.pushed);
  dissected = (if ltb s.dissected dissected then dissected else s.dissected);
}

-- The first loop: `if (min < pair.first) min = pair.first;`
unfoldable pub most_pushed : List Stat → ℕ → ℕ
most_pushed [] min = min
most_pushed (s ∷ ss) min = most_pushed ss (if ltb min s.pushed then s.pushed else min)

-- The second loop: `if (pair.first > pair.second && min > pair.second) min = pair.second;`
unfoldable pub least_pending : List Stat → ℕ → ℕ
least_pending [] min = min
least_pending (s ∷ ss) min =
    least_pending ss
      (if ltb s.dissected s.pushed then (if ltb s.dissected min then s.dissected else min) else min)

unfoldable pub ready_index : List Stat → ℕ
unfolding most_pushed least_pending
ready_index stats = least_pending stats (most_pushed stats 0)

-- `none` is an access to `threadStats` out of range.
unfoldable pub update_index : ℕ → ℕ → ℕ → List Stat → Option (ℕ × List Stat)
unfolding raise ready_index
update_index thread pushed dissected stats = elim (get_elem? stats thread) [
  | none ↦ none
  | some s ↦
      let stats' = set stats thread (raise pushed dissected s) in some (ready_index stats', stats')
]
