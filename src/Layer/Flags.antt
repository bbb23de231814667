-- ===== src/Layer/Flags.antt =====
-- The packed flags of a layer: three fields that do not disturb one another.
use deplug.Common.{
  ℕ, ◌+◌, ◌-◌, ◌*◌, ◌/◌, ◌%◌, ◌<◌, ◌≡◌, refl, sym, ap, ◌∙◌, Bool, not, ◌==◌, if◌then◌else◌, arith,
}
use Prim.Native.Nat.{bit_and, bit_or}
use deplug.Common.Fields.{bit, bit_lt, bit-replaced, bit_and_bit, bit_and_crumb, bit_and_nibble}
use deplug.Layer.{
  Confidence, confidence, set_confidence, worker, set_worker, is_root, set_is_root, confidence_code,
  confidence_of_code,
}

confidence-bits : (word : ℕ) → bit_and (word / 16) 3 ≡ bit 4 word + 2 * bit 5 word
confidence-bits word = omega (arith, bit_and_crumb (word / 16))

worker-bits :
    (word : ℕ) → worker word ≡ bit 0 word + 2 * bit 1 word + 4 * bit 2 word + 8 * bit 3 word
unfolding worker
worker-bits word = omega (arith, bit_and_nibble word)

root-bit : (word : ℕ) → bit_and (word / 64) 1 ≡ bit 6 word
root-bit word = omega (arith, bit_and_bit (word / 64))

-- `(word & mask) | value` where `mask` has a bit and `value` has none.
kept :
    (word mask value i : ℕ)
    → bit i mask ≡ 1
    → bit i value ≡ 0
    → bit i (bit_or (bit_and word mask) value) ≡ bit i word
kept word mask value i m v = omega (arith, bit-replaced i word mask value, bit_lt i word)

-- The other way round.
replaced :
    (word mask value i : ℕ)
    → bit i mask ≡ 0
    → bit i (bit_or (bit_and word mask) value) ≡ bit i value
replaced word mask value i m = omega (arith, bit-replaced i word mask value, bit_lt i value)

confidence_congr : (x y : ℕ) → bit 4 x ≡ bit 4 y → bit 5 x ≡ bit 5 y → confidence x ≡ confidence y
unfolding confidence
confidence_congr x y e4 e5 =
    let same : bit_and (x / 16) 3 ≡ bit_and (y / 16) 3 =
      omega (arith, confidence-bits x, confidence-bits y) in
    ap confidence_of_code same

worker_congr :
    (x y : ℕ)
    → bit 0 x ≡ bit 0 y
    → bit 1 x ≡ bit 1 y
    → bit 2 x ≡ bit 2 y
    → bit 3 x ≡ bit 3 y
    → worker x ≡ worker y
worker_congr x y e0 e1 e2 e3 = omega (arith, worker-bits x, worker-bits y)

is_root_congr : (x y : ℕ) → bit 6 x ≡ bit 6 y → is_root x ≡ is_root y
unfolding is_root
is_root_congr x y e6 = ap (λ b. not (b == 0)) (root-bit x ∙ e6 ∙ sym (root-bit y))

confidence_code_lt : (c : Confidence) → confidence_code c < 4
confidence_code_lt c = ground arith

confidence-code : (c : Confidence) → confidence_of_code (confidence_code c) ≡ c
confidence-code c = ground arith

set_confidence-fields :
    (c : Confidence) (word : ℕ)
    → (confidence (set_confidence c word) ≡ c)
      × (worker (set_confidence c word) ≡ worker word)
      × (is_root (set_confidence c word) ≡ is_root word)
unfolding set_confidence confidence
set_confidence-fields c word =
    let keep = kept word (4294967295 - 48) (confidence_code c * 16) in
    let put = replaced word (4294967295 - 48) (confidence_code c * 16) in
    let small = confidence_code_lt c in
    let stored : bit_and (set_confidence c word / 16) 3 ≡ confidence_code c =
      omega (arith, confidence-bits (set_confidence c word), put 4 refl, put 5 refl) in
    (
      ap confidence_of_code stored ∙ confidence-code c,
      worker_congr (set_confidence c word) word (keep 0 refl (omega arith))
          (keep 1 refl (omega arith)) (keep 2 refl (omega arith)) (keep 3 refl (omega arith)),
      is_root_congr (set_confidence c word) word (keep 6 refl (omega arith)),
    )

set_worker-fields :
    (id word : ℕ)
    → (worker (set_worker id word) ≡ id % 16)
      × (confidence (set_worker id word) ≡ confidence word)
      × (is_root (set_worker id word) ≡ is_root word)
unfolding set_worker
set_worker-fields id word =
    let keep = kept word (4294967295 - 15) (id % 16) in
    let put = replaced word (4294967295 - 15) (id % 16) in
    (
      omega
          (arith, worker-bits (set_worker id word), put 0 refl, put 1 refl, put 2 refl, put 3 refl),
      confidence_congr (set_worker id word) word (keep 4 refl (omega arith))
          (keep 5 refl (omega arith)),
      is_root_congr (set_worker id word) word (keep 6 refl (omega arith)),
    )

set_is_root-fields :
    (root : Bool) (word : ℕ)
    → (is_root (set_is_root root word) ≡ root)
      × (confidence (set_is_root root word) ≡ confidence word)
      × (worker (set_is_root root word) ≡ worker word)
unfolding set_is_root is_root
set_is_root-fields root word =
    let value = if root then 64 else 0 in
    let keep = kept word (4294967295 - 64) value in
    let put = replaced word (4294967295 - 64) value 6 refl in
    (
      ground (arith, root-bit (set_is_root root word), put),
      confidence_congr (set_is_root root word) word (keep 4 refl (ground arith))
          (keep 5 refl (ground arith)),
      worker_congr (set_is_root root word) word (keep 0 refl (ground arith))
          (keep 1 refl (ground arith)) (keep 2 refl (ground arith)) (keep 3 refl (ground arith)),
    )

-- Each of the setters, on any word, sets its own field and leaves the two others as they were; the
-- worker is stored modulo LAYER_MAX_WORKER.
pub fields-independent :
    (c : Confidence) (id : ℕ) (root : Bool) (word : ℕ)
    → ((confidence (set_confidence c word) ≡ c)
        × (worker (set_confidence c word) ≡ worker word)
        × (is_root (set_confidence c word) ≡ is_root word))
      × ((worker (set_worker id word) ≡ id % 16)
          × (confidence (set_worker id word) ≡ confidence word)
          × (is_root (set_worker id word) ≡ is_root word))
      × ((is_root (set_is_root root word) ≡ root)
          × (confidence (set_is_root root word) ≡ confidence word)
          × (worker (set_is_root root word) ≡ worker word))
fields-independent c id root word =
    (set_confidence-fields c word, set_worker-fields id word, set_is_root-fields root word)
