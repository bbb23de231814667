-- ===== src/Token/Maps.antt =====
-- The maps of the token table: `emplace` and `find`.
use deplug.Common.{
  ℕ, ◌≡◌, refl, ap, ◌∙◌, sym, ◌⊎◌, inl, inr, true, none, some, List, [], ◌∷◌, ◌==◌, if◌then◌else◌,
  arith, Bool-cases, Option-cases,
}
use deplug.Token.{same, find_string, find_token, emplace_string, emplace_token}

pub same_refl : (s : List ℕ) → same s s ≡ true
unfolding same
same_refl [] = refl
same_refl (x ∷ xs) = ground (arith, same_refl xs)

pub eq_of_same : (s t : List ℕ) → same s t ≡ true → s ≡ t
unfolding same
eq_of_same [] [] h = refl
eq_of_same [] (y ∷ ys) h = absurd (cc)
eq_of_same (x ∷ xs) [] h = absurd (cc)
eq_of_same (x ∷ xs) (y ∷ ys) h =
    let e : x ≡ y = ground arith in
    let rest : same xs ys ≡ true = ground arith in rw (e, eq_of_same xs ys rest)

-- A new key: what is found afterwards.
pub find_string-emplace :
    (key k : List ℕ) (v : ℕ) (m : List (List ℕ × ℕ))
    → find_string k m ≡ none
    → find_string key (emplace_string k v m) ≡ (if same k key then some v else find_string key m)
unfolding emplace_string find_string
find_string-emplace key k v m h = rw (emplace_string, h)

pub find_token-emplace :
    (key k : ℕ) (v : List ℕ) (m : List (ℕ × List ℕ))
    → find_token k m ≡ none
    → find_token key (emplace_token k v m) ≡ (if k == key then some v else find_token key m)
unfolding emplace_token find_token
find_token-emplace key k v m h = rw (emplace_token, h)

-- Whatever was there, what is found is the new entry or an old one.
pub find_string-emplace_from :
    (key k : List ℕ) (v id : ℕ) (m : List (List ℕ × ℕ))
    → find_string key (emplace_string k v m) ≡ some id
    → ((k ≡ key) × (id ≡ v)) ⊎ (find_string key m ≡ some id)
unfolding emplace_string find_string
find_string-emplace_from key k v id m h = elim (Option-cases (find_string k m)) [
  | inr (old, e) ↦ inr (sym (ap (find_string key) (rw (emplace_string, e))) ∙ h)
  | inl e ↦
      let f = sym (find_string-emplace key k v m e) ∙ h in
      elim (Bool-cases (same k key)) [
        | inl is ↦ inl (eq_of_same k key is, ground arith)
        | inr other ↦ inr (ground arith)
      ]
]

pub find_token-emplace_from :
    (key k : ℕ) (v s : List ℕ) (m : List (ℕ × List ℕ))
    → find_token key (emplace_token k v m) ≡ some s
    → ((k ≡ key) × (s ≡ v)) ⊎ (find_token key m ≡ some s)
unfolding emplace_token find_token
find_token-emplace_from key k v s m h = elim (Option-cases (find_token k m)) [
  | inr (old, e) ↦ inr (sym (ap (find_token key) (rw (emplace_token, e))) ∙ h)
  | inl e ↦
      let f = sym (find_token-emplace key k v m e) ∙ h in
      elim (Bool-cases (k == key)) [
        | inl is ↦ inl (ground arith, ground arith)
        | inr other ↦ inr (ground arith)
      ]
]
