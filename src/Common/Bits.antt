-- ===== src/Common/Bits.antt =====
-- Laws of `bit_and` and `bit_or` at variables, by the recursion on binary digits that they stand for.
use Prim.Native.Nat.{
  ℕ, zero, suc, ◌+◌, ◌*◌, ◌/◌, ◌%◌, ◌-◌, ◌≤◌, min, max, bit_and, bit_or, digits, bitwise,
  bit_and-bitwise, bit_or-bitwise,
}
use mathlib.Core.Path.{◌≡◌, refl, ap, ◌∙◌}
use native.Mathlib.Nat.{le_refl}
use native.Mathlib.Omega.{arith}

-- `bitwise` runs `digits` on as much fuel as its first number; a round that is left over is idle.
module _ (empty : ℕ → ℕ) (op : ℕ → ℕ → ℕ) where
  idle :
      (rounds x y : ℕ) → x ≤ rounds → digits empty op (suc rounds) x y ≡ digits empty op rounds x y
  idle zero zero y h = refl
  idle (suc rounds) zero y h = refl
  idle zero (suc x) y h = absurd (omega arith)
  idle (suc rounds) (suc x) y h =
      ap (λ t. t * 2 + op (suc x % 2) (y % 2)) (idle rounds (suc x / 2) (y / 2) (omega arith))

  idle_by :
      (spare rounds x y : ℕ)
      → x ≤ rounds
      → digits empty op (spare + rounds) x y ≡ digits empty op rounds x y
  idle_by zero rounds x y h = let e : 0 + rounds ≡ rounds = omega arith in rw e
  idle_by (suc spare) rounds x y h =
      let e : suc spare + rounds ≡ suc (spare + rounds) = omega arith in
      rw e (idle (spare + rounds) x y (omega arith) ∙ idle_by spare rounds x y h)

  lowest_digit :
      (x y : ℕ)
      → bitwise empty op (suc x) y
        ≡ bitwise empty op (suc x / 2) (y / 2) * 2 + op (suc x % 2) (y % 2)
  lowest_digit x y =
      let half = suc x / 2 in
      let e : x - half + half ≡ x = omega arith in
      let halves : digits empty op x half (y / 2) ≡ digits empty op half half (y / 2) =
        rw e at (idle_by (x - half) half half (y / 2) (omega arith)) in
      ap (λ t. t * 2 + op (suc x % 2) (y % 2)) halves

pub bit_or_step : (a b : ℕ) → bit_or a b ≡ bit_or (a / 2) (b / 2) * 2 + max (a % 2) (b % 2)
bit_or_step zero b = omega (arith, bit_or-bitwise 0 b, bit_or-bitwise 0 (b / 2))
bit_or_step (suc a) b = omega (
  arith,
  bit_or-bitwise (suc a) b,
  bit_or-bitwise (suc a / 2) (b / 2),
  lowest_digit (λ d. d) max a b,
)

pub bit_and_step : (a b : ℕ) → bit_and a b ≡ bit_and (a / 2) (b / 2) * 2 + min (a % 2) (b % 2)
bit_and_step zero b = omega (arith, bit_and-bitwise 0 b, bit_and-bitwise 0 (b / 2))
bit_and_step (suc a) b = omega (
  arith,
  bit_and-bitwise (suc a) b,
  bit_and-bitwise (suc a / 2) (b / 2),
  lowest_digit (λ d. 0) min a b,
)

pub bit_and_zero : (b : ℕ) → bit_and 0 b ≡ 0
bit_and_zero b = omega (arith, bit_and-bitwise 0 b)

-- Every bit of `a` is a bit of `b`.
abbrev pub IsSubmask : ℕ → ℕ → Type 0
IsSubmask a b = bit_and a b ≡ a

IsSubmask-halves :
    (a b : ℕ) → IsSubmask a b → IsSubmask (a / 2) (b / 2) × (min (a % 2) (b % 2) ≡ a % 2)
IsSubmask-halves a b h = (omega (arith, bit_and_step a b), omega (arith, bit_and_step a b))

IsSubmask-of_halves :
    (a b : ℕ) → IsSubmask (a / 2) (b / 2) → min (a % 2) (b % 2) ≡ a % 2 → IsSubmask a b
IsSubmask-of_halves a b h m = omega (arith, bit_and_step a b)

bit_or_half :
    (b c : ℕ) → (bit_or b c / 2 ≡ bit_or (b / 2) (c / 2)) × (bit_or b c % 2 ≡ max (b % 2) (c % 2))
bit_or_half b c = (omega (arith, bit_or_step b c), omega (arith, bit_or_step b c))

pub IsSubmask-zero : (b : ℕ) → IsSubmask 0 b
IsSubmask-zero b = bit_and_zero b

IsSubmask-refl_fuel : (n a : ℕ) → a ≤ n → IsSubmask a a
IsSubmask-refl_fuel n zero h = IsSubmask-zero 0
IsSubmask-refl_fuel zero (suc a) h = absurd (omega arith)
IsSubmask-refl_fuel (suc n) (suc a) h =
    IsSubmask-of_halves (suc a) (suc a) (IsSubmask-refl_fuel n (suc a / 2) (omega arith))
      (omega arith)

IsSubmask-or_left_fuel : (n a b c : ℕ) → a ≤ n → IsSubmask a b → IsSubmask a (bit_or b c)
IsSubmask-or_left_fuel n zero b c h s = IsSubmask-zero (bit_or b c)
IsSubmask-or_left_fuel zero (suc a) b c h s = absurd (omega arith)
IsSubmask-or_left_fuel (suc n) (suc a) b c h s =
    let (half, low) = IsSubmask-halves (suc a) b s in
    let (or_half, or_low) = bit_or_half b c in
    IsSubmask-of_halves (suc a) (bit_or b c)
      (rw or_half (IsSubmask-or_left_fuel n (suc a / 2) (b / 2) (c / 2) (omega arith) half))
      (omega arith)

IsSubmask-or_right_fuel : (n a b c : ℕ) → a ≤ n → IsSubmask a c → IsSubmask a (bit_or b c)
IsSubmask-or_right_fuel n zero b c h s = IsSubmask-zero (bit_or b c)
IsSubmask-or_right_fuel zero (suc a) b c h s = absurd (omega arith)
IsSubmask-or_right_fuel (suc n) (suc a) b c h s =
    let (half, low) = IsSubmask-halves (suc a) c s in
    let (or_half, or_low) = bit_or_half b c in
    IsSubmask-of_halves (suc a) (bit_or b c)
      (rw or_half (IsSubmask-or_right_fuel n (suc a / 2) (b / 2) (c / 2) (omega arith) half))
      (omega arith)

IsSubmask-join_fuel :
    (n a b c : ℕ) → a ≤ n → b ≤ n → IsSubmask a c → IsSubmask b c → IsSubmask (bit_or a b) c
IsSubmask-join_fuel zero zero zero c h k s t = IsSubmask-zero c
IsSubmask-join_fuel zero zero (suc b) c h k s t = absurd (omega arith)
IsSubmask-join_fuel zero (suc a) b c h k s t = absurd (omega arith)
IsSubmask-join_fuel (suc n) a b c h k s t =
    let (half, low) = IsSubmask-halves a c s in
    let (half', low') = IsSubmask-halves b c t in
    let (or_half, or_low) = bit_or_half a b in
    IsSubmask-of_halves (bit_or a b) c
      (rw or_half
        (IsSubmask-join_fuel n (a / 2) (b / 2) (c / 2) (omega arith) (omega arith) half half'))
      (omega arith)

pub IsSubmask-refl : (a : ℕ) → IsSubmask a a
IsSubmask-refl a = IsSubmask-refl_fuel a a (le_refl a)

pub IsSubmask-or_left : (a b c : ℕ) → IsSubmask a b → IsSubmask a (bit_or b c)
IsSubmask-or_left a b c = IsSubmask-or_left_fuel a a b c (le_refl a)

pub IsSubmask-or_right : (a b c : ℕ) → IsSubmask a c → IsSubmask a (bit_or b c)
IsSubmask-or_right a b c = IsSubmask-or_right_fuel a a b c (le_refl a)

pub IsSubmask-join : (a b c : ℕ) → IsSubmask a c → IsSubmask b c → IsSubmask (bit_or a b) c
IsSubmask-join a b c = IsSubmask-join_fuel (a + b) a b c (omega arith) (omega arith)
