-- ===== src/Variant/Conversions.antt =====
-- Conversions of variants: what a variant is read as is what it was made of.
use deplug.Common.{
  ℕ, ◌-◌, ◌*◌, ◌/◌, ◌%◌, ◌^◌, ◌<◌, ◌≡◌, ◌∙◌, Bool, false, not, List, ltb, ◌==◌, if◌then◌else◌, take,
  arith,
}
use deplug.Common.Fields.{bit_or_nibble, bit_and_nibble}
use deplug.Variant.{
  Variant, Slice, Floats, with_length, from_string, of_slice, var_type, tag, string, slice,
  vartype_string, vartype_slice, of_int8, of_int16, of_int32, sign_extend, widen, int64_value,
  uint64_value, bool_value, is_slice, is_string,
}

with_length-parts :
    (type length : ℕ)
    → type < 16
    → (with_length type length % 16 ≡ type) × (with_length type length / 16 ≡ length % 2 ^ 60)
unfolding with_length
with_length-parts type length h =
    let e : length * 16 % 2 ^ 64 ≡ length % 2 ^ 60 * 16 = omega arith in
    (
      rw e (omega (arith, bit_or_nibble type (length % 2 ^ 60) h)),
      rw e (omega (arith, bit_or_nibble type (length % 2 ^ 60) h)),
    )

-- The widths of the signed constructors.
pub data Width : Type 0 where
  w8 : Width
  w16 : Width
  w32 : Width

abbrev pub bits : Width → ℕ
bits w8 = 8
bits w16 = 16
bits w32 = 32

module _ (D P : Type 0) where
  from_string-parts :
      (str : List ℕ) (length : ℕ)
      → (var_type (from_string {D = D} {P = P} str length) ≡ vartype_string)
        × (tag (from_string {D = D} {P = P} str length) ≡ length % 2 ^ 60)
  unfolding from_string var_type tag
  from_string-parts str length =
      let (low, high) = with_length-parts vartype_string length (omega arith) in
      (bit_and_nibble (with_length vartype_string length) ∙ low, high)

  of_slice-parts :
      (s : Slice)
      → (var_type (of_slice {D = D} {P = P} s) ≡ vartype_slice)
        × (tag (of_slice {D = D} {P = P} s) ≡ s.length % 2 ^ 60)
  unfolding of_slice var_type tag
  of_slice-parts s =
      let (low, high) = with_length-parts vartype_slice s.length (omega arith) in
      (bit_and_nibble (with_length vartype_slice s.length) ∙ low, high)

  -- Whatever the length, a variant made by `fromString` is a string and one made of a slice is a
  -- slice, neither is the other; each reads back the bytes it was made of, the number of them
  -- modulo 2^60, since four bits of the length are shifted out.
  pub bytes-roundtrip :
      (str default : List ℕ) (length : ℕ) (s : Slice)
      → (string default (from_string {D = D} {P = P} str length) ≡ take (length % 2 ^ 60) str)
        × (slice (of_slice {D = D} {P = P} s)
            ≡ record { data_at = s.data_at; length = s.length % 2 ^ 60 })
        × (is_slice (from_string {D = D} {P = P} str length) ≡ false)
        × (is_string (of_slice {D = D} {P = P} s) ≡ false)
  unfolding string slice is_slice is_string from_string of_slice
  bytes-roundtrip str default length s =
      let (st, sl) = from_string-parts str length in
      let (tt, tl) = of_slice-parts s in (rw (st, sl), rw (tt, tl), rw st, rw tt)

module _ (D P : Type 0) where
  abbrev pub of_signed : Width → ℕ → Variant D P
  of_signed w8 x = of_int8 x
  of_signed w16 x = of_int16 x
  of_signed w32 x = of_int32 x

  -- A signed number of 8, 16 or 32 bits is sign-extended to 64 bits, through 32 bits where the
  -- constructor goes that way: its low bits are the number, the bits above are all its sign, and
  -- the three conversions to integers and to `bool` agree on it, whatever their defaults.
  pub integers-roundtrip :
      (f : Floats D) (w : Width) (x n : ℕ) (b : Bool)
      → x < 2 ^ bits w
      → (int64_value f n (of_signed w x) % 2 ^ bits w ≡ x)
        × (int64_value f n (of_signed w x) / 2 ^ bits w
            ≡ (if ltb x (2 ^ (bits w - 1)) then 0 else 2 ^ (64 - bits w) - 1))
        × (uint64_value f n (of_signed w x) ≡ int64_value f n (of_signed w x))
        × (bool_value f b (of_signed w x) ≡ not (x == 0))
  unfolding of_int8 of_int16 of_int32 int64_value uint64_value bool_value sign_extend widen
  integers-roundtrip f w8 x n b h = ground arith
  integers-roundtrip f w16 x n b h = ground arith
  integers-roundtrip f w32 x n b h = ground arith
