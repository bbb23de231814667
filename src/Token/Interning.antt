-- ===== src/Token/Interning.antt =====
-- The numbers of the strings: one for each string, for good, whatever the threads do.
use deplug.Common.{
  ℕ, ◌+◌, ◌<◌, ◌≤◌, ◌≡◌, inl, inr, Bool, true, false, some, List, [], ◌∷◌, ◌==◌, if◌then◌else◌,
  arith, length,
}
use deplug.Token.{
  Words, Local, Tables, find_string, find_token, emplace_string, emplace_token, set_local, get,
  string,
}
use deplug.Token.Maps.{find_string-emplace_from, find_token-emplace_from}

-- The calls of the threads, in the order in which they take effect.
pub data Op : Type 0 where
  gets : ℕ → List ℕ → Op
  names : ℕ → ℕ → Op

module _ (w : Words) where
  unfoldable pub step : Op → Tables → Tables
  step (gets thread str) t = (get w thread str t).1
  step (names thread token) t = (string w thread token t).1

  unfoldable pub run : List Op → Tables → Tables
  unfolding step
  run [] t = t
  run (o ∷ os) t = run os (step o t)

  -- The first token that the next string may get.
  abbrev pub next : Tables → ℕ
  next t = length t.map + w.max_hash_value + 2

  pub record Shared (t : Tables) : Type 0 where
    pub known :
        (s : List ℕ) (id : ℕ)
        → find_string s t.map ≡ some id
        → (w.max_hash_value + 1 < id) × (id < next t) × (find_token id t.reverse_map ≡ some s)
    pub fresh : (id : ℕ) (s : List ℕ) → find_token id t.reverse_map ≡ some s → id < next t

  -- What a thread has met is in the shared tables.
  pub record Copied (t : Tables) (l : Local) : Type 0 where
    pub strings :
        (s : List ℕ) (id : ℕ) → find_string s l.local_map ≡ some id → find_string s t.map ≡ some id
    pub tokens :
        (id : ℕ) (s : List ℕ)
        → find_token id l.local_reverse_map ≡ some s
        → find_token id t.reverse_map ≡ some s

  pub record Inv (t : Tables) : Type 0 where
    pub shared : Shared t
    pub copied : (thread : ℕ) → Copied t (t.locals thread)

  pub record Extends (t t' : Tables) : Type 0 where
    pub strings :
        (s : List ℕ) (id : ℕ) → find_string s t.map ≡ some id → find_string s t'.map ≡ some id
    pub tokens :
        (id : ℕ) (s : List ℕ)
        → find_token id t.reverse_map ≡ some s
        → find_token id t'.reverse_map ≡ some s

  either-Copied :
      (b : Bool) (t : Tables) (l l' : Local)
      → Copied t l
      → Copied t l'
      → Copied t (if b then l else l')
  either-Copied true t l l' c c' = c
  either-Copied false t l l' c c' = c'

  pub set_local-Inv :
      (thread : ℕ) (l : Local) (t : Tables)
      → Shared t
      → ((other : ℕ) → Copied t (t.locals other))
      → Copied t l
      → Inv (set_local thread l t)
  set_local-Inv thread l t s c new = record {
    shared = record { known = s.known; fresh = s.fresh };
    copied = λ other.
        let both = either-Copied (other == thread) t l (t.locals other) new (c other) in
        record { strings = both.strings; tokens = both.tokens };
  }

  -- The thread's copy after it has met an entry of the shared tables.
  pub met-Copied :
      (t : Tables) (l : Local) (key : List ℕ) (id : ℕ)
      → Copied t l
      → find_string key t.map ≡ some id
      → Copied t (record l { local_map = emplace_string key id l.local_map })
  met-Copied t l key id c h = record {
    strings = λ s id' e. elim (find_string-emplace_from s key id id' l.local_map e) [
      | inl (same_key, same_id) ↦ rw (same_id, ← same_key) h
      | inr old ↦ c.strings s id' old
    ];
    tokens = c.tokens;
  }

  pub named-Copied :
      (t : Tables) (l : Local) (token : ℕ) (str : List ℕ)
      → Copied t l
      → find_token token t.reverse_map ≡ some str
      → Copied t (record l { local_reverse_map = emplace_token token str l.local_reverse_map })
  named-Copied t l token str c h = record {
    strings = c.strings;
    tokens = λ id s e. elim (find_token-emplace_from id token str s l.local_reverse_map e) [
      | inl (same_token, same_str) ↦ rw (same_str, ← same_token) h
      | inr old ↦ c.tokens id s old
    ];
  }

  pub Extends-refl : (t : Tables) → Extends t t
  Extends-refl t = record { strings = λ s id h. h; tokens = λ id s h. h }

  pub Extends-trans : (a b c : Tables) → Extends a b → Extends b c → Extends a c
  Extends-trans a b c e f = record {
    strings = λ s id h. f.strings s id (e.strings s id h);
    tokens = λ id s h. f.tokens id s (e.tokens id s h);
  }

  -- What a call leaves.
  pub record Step (t t' : Tables) : Type 0 where
    pub inv : Inv t'
    pub extends : Extends t t'
    pub size : length t'.map ≤ length t.map + 1

  pub idle : (t : Tables) → Inv t → Step t t
  idle t v = record { inv = v; extends = Extends-refl t; size = omega arith }

  pub set_local-Step :
      (thread : ℕ) (l : Local) (t : Tables) → Inv t → Copied t l → Step t (set_local thread l t)
  set_local-Step thread l t v new = record {
    inv = set_local-Inv thread l t v.shared v.copied new;
    extends = record { strings = λ s id h. h; tokens = λ id s h. h };
    size = omega arith;
  }
