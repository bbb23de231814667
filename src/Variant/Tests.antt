-- ===== src/Variant/Tests.antt =====
-- Variants at concrete values: the bytes of "abc", and -1 as a number of eight bits.
use deplug.Common.{
  ℕ, ◌-◌, ◌^◌, ◌≡◌, refl, ◌==◌, if◌then◌else◌, true, false, not, List, [], ◌∷◌, ◌%◌, ◌/◌, arith,
}
use deplug.Variant.{
  Floats, from_string, of_slice, string, slice, is_slice, is_string, int64_value, uint64_value,
  bool_value, of_int8, sign_extend, widen,
}
use deplug.Variant.Conversions.{bytes-roundtrip, integers-roundtrip, w8, of_signed}

abbrev abc : List ℕ
abc = 97 ∷ 98 ∷ 99 ∷ []

-- Whole numbers in place of `double`.
abbrev pub whole : Floats ℕ
whole = record {
  zero_value = 0;
  of_bool = λ b. if b then 1 else 0;
  of_int64 = λ n. n;
  of_uint64 = λ n. n;
  to_bool = λ n. not (n == 0);
  to_int64 = λ n. n;
  to_uint64 = λ n. n;
}

minus_one : int64_value whole 0 (of_int8 {D = ℕ} {P = ℕ} 255) ≡ 2 ^ 64 - 1
unfolding int64_value of_int8 sign_extend widen
minus_one = refl

bytes-roundtrip_example :
    (string [] (from_string {D = ℕ} {P = ℕ} abc 3) ≡ abc)
    × (slice (of_slice {D = ℕ} {P = ℕ} (record { data_at = abc; length = 2 }))
        ≡ record { data_at = abc; length = 2 })
    × (is_slice (from_string {D = ℕ} {P = ℕ} abc 3) ≡ false)
    × (is_string (of_slice {D = ℕ} {P = ℕ} (record { data_at = abc; length = 2 })) ≡ false)
bytes-roundtrip_example = bytes-roundtrip ℕ ℕ abc [] 3 (record { data_at = abc; length = 2 })

integers-roundtrip_example :
    (int64_value whole 0 (of_signed ℕ ℕ w8 255) % 2 ^ 8 ≡ 255)
    × (int64_value whole 0 (of_signed ℕ ℕ w8 255) / 2 ^ 8 ≡ 2 ^ 56 - 1)
    × (uint64_value whole 0 (of_signed ℕ ℕ w8 255) ≡ int64_value whole 0 (of_signed ℕ ℕ w8 255))
    × (bool_value whole false (of_signed ℕ ℕ w8 255) ≡ true)
integers-roundtrip_example = integers-roundtrip ℕ ℕ whole w8 255 0 false (omega arith)
