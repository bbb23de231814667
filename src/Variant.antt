-- ===== src/Variant.antt =====
-- plugkit/src/variant.cpp: a value of an attribute, a type tag in the low four bits of a word, the
-- length above it, and a union. `D` stands for `double`, `P` for `void *`; the 64 bit integers are
-- their bit patterns, a `const char *` is the memory from there on, as a list of bytes.
pub mod Conversions
pub mod Tests
use deplug.Common.{
  ℕ, ◌+◌, ◌-◌, ◌*◌, ◌/◌, ◌%◌, ◌^◌, Bool, false, not, Option, none, some, List, [], ltb, ◌==◌,
  if◌then◌else◌, take,
}
use Prim.Native.Nat.{bit_and, bit_or}

-- What the language converts between `double` and the other types of a variant.
pub record Floats (D : Type 0) : Type 0 where
  pub zero_value : D
  pub of_bool : Bool → D
  pub of_int64 : ℕ → D
  pub of_uint64 : ℕ → D
  pub to_bool : D → Bool
  pub to_int64 : D → ℕ
  pub to_uint64 : D → ℕ

pub data Member (D P : Type 0) : Type 0 where
  unset : Member D P
  bool_ : Bool → Member D P
  double_ : D → Member D P
  int_ : ℕ → Member D P
  uint_ : ℕ → Member D P
  data_ : List ℕ → Member D P
  ptr : P → Member D P

pub record Slice : Type 0 where
  pub data_at : List ℕ
  pub length : ℕ

pub record Variant (D P : Type 0) : Type 0 where
  pub type_ : ℕ
  pub d : Member D P

-- `enum VariantType`
abbrev pub vartype_nil : ℕ
vartype_nil = 0

abbrev pub vartype_bool : ℕ
vartype_bool = 1

abbrev pub vartype_int64 : ℕ
vartype_int64 = 2

abbrev pub vartype_uint64 : ℕ
vartype_uint64 = 3

abbrev pub vartype_double : ℕ
vartype_double = 4

abbrev pub vartype_string : ℕ
vartype_string = 5

abbrev pub vartype_slice : ℕ
vartype_slice = 6

abbrev pub vartype_address : ℕ
vartype_address = 12

-- The conversion of a signed number of `w` bits to 64 bits, on bit patterns.
unfoldable pub sign_extend : ℕ → ℕ → ℕ
sign_extend w x = if ltb x (2 ^ (w - 1)) then x else x + (2 ^ 64 - 2 ^ w)

-- `static_cast<int32_t>` of a signed number of `w` bits.
unfoldable pub widen : ℕ → ℕ → ℕ
widen w x = if ltb x (2 ^ (w - 1)) then x else x + (2 ^ 32 - 2 ^ w)

-- `VARTYPE_… | (length << 4)` on a `uint64_t`.
unfoldable pub with_length : ℕ → ℕ → ℕ
with_length var_type length = bit_or var_type (length * 16 % 2 ^ 64)

-- The `switch (type())` of the four conversions below.
abbrev switch : {A : Type 0} → ℕ → A → A → A → A → A → A
switch type bool_case int_case uint_case double_case default =
    if type == vartype_bool
    then bool_case
    else if type == vartype_int64
    then int_case
    else if type == vartype_uint64
    then uint_case
    else if type == vartype_double
    then double_case
    else default

module _ {D P : Type 0} where
  unfoldable pub of_nil : Variant D P
  of_nil = record { type_ = vartype_nil; d = unset }

  unfoldable pub of_bool : Bool → Variant D P
  of_bool value = record { type_ = vartype_bool; d = bool_ value }

  unfoldable pub of_int64 : ℕ → Variant D P
  of_int64 value = record { type_ = vartype_int64; d = int_ value }

  unfoldable pub of_uint64 : ℕ → Variant D P
  of_uint64 value = record { type_ = vartype_uint64; d = uint_ value }

  unfoldable pub of_int32 : ℕ → Variant D P
  unfolding sign_extend
  of_int32 value = record { type_ = vartype_int64; d = int_ (sign_extend 32 value) }

  unfoldable pub of_uint32 : ℕ → Variant D P
  of_uint32 value = record { type_ = vartype_uint64; d = uint_ value }

  unfoldable pub of_int16 : ℕ → Variant D P
  unfolding of_int32 widen
  of_int16 value = of_int32 (widen 16 value)

  unfoldable pub of_uint16 : ℕ → Variant D P
  unfolding of_uint32
  of_uint16 value = of_uint32 value

  unfoldable pub of_int8 : ℕ → Variant D P
  unfolding of_int32 widen
  of_int8 value = of_int32 (widen 8 value)

  unfoldable pub of_uint8 : ℕ → Variant D P
  unfolding of_uint32
  of_uint8 value = of_uint32 value

  unfoldable pub of_double : D → Variant D P
  of_double value = record { type_ = vartype_double; d = double_ value }

  unfoldable pub of_slice : Slice → Variant D P
  unfolding with_length
  of_slice s = record { type_ = with_length vartype_slice s.length; d = data_ s.data_at }

  unfoldable pub from_string : List ℕ → ℕ → Variant D P
  unfolding with_length
  from_string str length = record { type_ = with_length vartype_string length; d = data_ str }

  unfoldable pub from_address : P → Variant D P
  from_address p = record { type_ = vartype_address; d = ptr p }

  unfoldable pub var_type : Variant D P → ℕ
  var_type v = bit_and v.type_ 15

  unfoldable pub tag : Variant D P → ℕ
  tag v = v.type_ / 16

  unfoldable pub is_nil : Variant D P → Bool
  unfolding var_type
  is_nil v = var_type v == vartype_nil

  unfoldable pub is_string : Variant D P → Bool
  unfolding var_type
  is_string v = var_type v == vartype_string

  unfoldable pub is_slice : Variant D P → Bool
  unfolding var_type
  is_slice v = var_type v == vartype_slice

  unfoldable pub is_address : Variant D P → Bool
  unfolding var_type
  is_address v = var_type v == vartype_address

  -- The members of the union. Only the member that was stored last is read: a constructor of a
  -- variant stores the one that its tag names.
  abbrev bool_member : Member D P → Bool
  bool_member (bool_ b) = b
  bool_member m = false

  abbrev int_member : Member D P → ℕ
  int_member (int_ x) = x
  int_member m = 0

  abbrev uint_member : Member D P → ℕ
  uint_member (uint_ x) = x
  uint_member m = 0

  abbrev double_member : D → Member D P → D
  double_member zero_value (double_ x) = x
  double_member zero_value m = zero_value

  abbrev data_member : Member D P → List ℕ
  data_member (data_ bytes) = bytes
  data_member m = []

  abbrev ptr_member : Member D P → Option P
  ptr_member (ptr p) = some p
  ptr_member m = none

  unfoldable pub bool_value : Floats D → Bool → Variant D P → Bool
  unfolding var_type
  bool_value f default v =
      switch (var_type v) (bool_member v.d) (not (int_member v.d == 0)) (not (uint_member v.d == 0))
        (f.to_bool (double_member f.zero_value v.d)) default

  unfoldable pub int64_value : Floats D → ℕ → Variant D P → ℕ
  unfolding var_type
  int64_value f default v =
      switch (var_type v) (if bool_member v.d then 1 else 0) (int_member v.d) (uint_member v.d)
        (f.to_int64 (double_member f.zero_value v.d)) default

  unfoldable pub uint64_value : Floats D → ℕ → Variant D P → ℕ
  unfolding var_type
  uint64_value f default v =
      switch (var_type v) (if bool_member v.d then 1 else 0) (int_member v.d) (uint_member v.d)
        (f.to_uint64 (double_member f.zero_value v.d)) default

  unfoldable pub double_value : Floats D → D → Variant D P → D
  unfolding var_type
  double_value f default v =
      switch (var_type v) (f.of_bool (bool_member v.d)) (f.of_int64 (int_member v.d))
        (f.of_uint64 (uint_member v.d)) (double_member f.zero_value v.d) default

  unfoldable pub string : List ℕ → Variant D P → List ℕ
  unfolding var_type tag
  string default v =
      if var_type v == vartype_string then take (tag v) (data_member v.d) else default

  unfoldable pub slice : Variant D P → Slice
  unfolding is_slice tag
  slice v =
      if is_slice v
      then record { data_at = data_member v.d; length = tag v }
      else record { data_at = []; length = 0 }

  unfoldable pub address : Variant D P → Option P
  unfolding is_address
  address v = if is_address v then ptr_member v.d else none

  unfoldable pub store_address : P → Variant D P → Variant D P
  unfolding is_address
  store_address p v = if is_address v then record { type_ = v.type_; d = ptr p } else v
