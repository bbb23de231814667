-- ===== src/Common/Fields.antt =====
-- Bit fields of a word: what masks and shifts by literal amounts do, read through `/` and `%`.
use Prim.Native.Nat.{
  ℕ, zero, suc, ◌+◌, ◌*◌, ◌/◌, ◌%◌, ◌<◌, min, max, bit_and, bit_or, bit_or-bitwise,
}
use mathlib.Core.Path.{◌≡◌}
use native.Mathlib.Omega.{arith}
use deplug.Common.Bits.{bit_or_step, bit_and_step, bit_and_zero}

bit_and-double :
    (a b : ℕ)
    → (bit_and a b / 2 ≡ bit_and (a / 2) (b / 2)) × (bit_and a b % 2 ≡ min (a % 2) (b % 2))
bit_and-double a b = (omega (arith, bit_and_step a b), omega (arith, bit_and_step a b))

bit_or-double :
    (a b : ℕ) → (bit_or a b / 2 ≡ bit_or (a / 2) (b / 2)) × (bit_or a b % 2 ≡ max (a % 2) (b % 2))
bit_or-double a b = (omega (arith, bit_or_step a b), omega (arith, bit_or_step a b))

bit_and_zero_right : (n a : ℕ) → a < n → bit_and a 0 ≡ 0
bit_and_zero_right zero a h = absurd (omega arith)
bit_and_zero_right (suc n) zero h = bit_and_zero 0
bit_and_zero_right (suc n) (suc a) h =
    omega (arith, bit_and_step (suc a) 0, bit_and_zero_right n (suc a / 2) (omega arith))

pub bit_and_none : (a : ℕ) → bit_and a 0 ≡ 0
bit_and_none a = bit_and_zero_right (a + 1) a (omega arith)

-- The masks `0b1`, `0b11` and `0b1111`.
pub bit_and_bit : (a : ℕ) → bit_and a 1 ≡ a % 2
bit_and_bit a = omega (arith, bit_and_step a 1, bit_and_none (a / 2))

pub bit_and_crumb : (a : ℕ) → bit_and a 3 ≡ a % 4
bit_and_crumb a = omega (arith, bit_and_step a 3, bit_and_bit (a / 2))

pub bit_and_nibble : (a : ℕ) → bit_and a 15 ≡ a % 16
bit_and_nibble a =
    omega (arith, bit_and_step a 15, bit_and_step (a / 2) 7, bit_and_crumb (a / 2 / 2))

bit_or_none : (a : ℕ) → bit_or 0 a ≡ a
bit_or_none a = omega (arith, bit_or-bitwise 0 a)

-- A tag in the low four bits below a shifted value.
pub bit_or_nibble : (t m : ℕ) → t < 16 → bit_or t (m * 16) ≡ t + m * 16
bit_or_nibble t m h =
    let none_left : t / 2 / 2 / 2 / 2 ≡ 0 = omega arith in
    let shifted : m * 16 / 2 / 2 / 2 / 2 ≡ m = omega arith in
    let above : bit_or (t / 2 / 2 / 2 / 2) (m * 16 / 2 / 2 / 2 / 2) ≡ m =
      rw (none_left, shifted) (bit_or_none m) in
    omega (
      arith,
      bit_or_step t (m * 16),
      bit_or_step (t / 2) (m * 16 / 2),
      bit_or_step (t / 2 / 2) (m * 16 / 2 / 2),
      bit_or_step (t / 2 / 2 / 2) (m * 16 / 2 / 2 / 2),
      above,
    )

-- The bit of a word at an index.
abbrev pub bit : ℕ → ℕ → ℕ
bit zero x = x % 2
bit (suc i) x = bit i (x / 2)

pub bit_lt : (i x : ℕ) → bit i x < 2
bit_lt zero x = omega arith
bit_lt (suc i) x = bit_lt i (x / 2)

pub bit-bit_and : (i a b : ℕ) → bit i (bit_and a b) ≡ min (bit i a) (bit i b)
bit-bit_and zero a b = omega (arith, bit_and_step a b)
bit-bit_and (suc i) a b = rw (bit_and-double a b).0 (bit-bit_and i (a / 2) (b / 2))

pub bit-bit_or : (i a b : ℕ) → bit i (bit_or a b) ≡ max (bit i a) (bit i b)
bit-bit_or zero a b = omega (arith, bit_or_step a b)
bit-bit_or (suc i) a b = rw (bit_or-double a b).0 (bit-bit_or i (a / 2) (b / 2))

-- `(d & mask) | value`, bit by bit.
pub bit-replaced :
    (i d mask value : ℕ)
    → bit i (bit_or (bit_and d mask) value) ≡ max (min (bit i d) (bit i mask)) (bit i value)
bit-replaced i d mask value =
    omega (arith, bit-bit_or i (bit_and d mask) value, bit-bit_and i d mask)
