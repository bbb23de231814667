-- ===== src/Layer.antt =====
-- plugkit/src/layer.cpp, attr.cpp and payload.cpp: what a dissector makes of a frame. A layer is
-- known by its index in the heap, in the order of allocation; `F` stands for `const Frame *`, `D`
-- and `P` are those of Variant. `Token_get("--alias")` and `Token_get("--error")` are parameters.
pub mod Flags
pub mod Aliases
pub mod Heap
pub mod Parents
mod Tests
use deplug.Common.{
  ℕ, zero, suc, ◌+◌, ◌-◌, ◌*◌, ◌/◌, ◌%◌, ◌^◌, Bool, true, false, not, Option, none, some, List, [],
  ◌∷◌, ◌++◌, ltb, ◌==◌, if◌then◌else◌, length, get_elem?, set,
}
use Prim.Native.Nat.{bit_and, bit_or}
use deplug.Variant.{Variant, Slice, Floats, of_nil, of_uint32, uint64_value, from_string}

-- `enum LayerConfidence`
pub data Confidence : Type 0 where
  error : Confidence
  possible : Confidence
  probable : Confidence
  exact : Confidence

abbrev pub confidence_code : Confidence → ℕ
confidence_code error = 0
confidence_code possible = 1
confidence_code probable = 2
confidence_code exact = 3

-- `static_cast<LayerConfidence>` of a number below four.
abbrev pub confidence_of_code : ℕ → Confidence
confidence_of_code code =
    if code == 0
    then error
    else if code == 1
    then possible
    else if code == 2
    then probable
    else exact

-- `mData`: the worker in bits 0 to 3, the confidence in bits 4 and 5, `isRoot` in bit 6.
unfoldable pub confidence : ℕ → Confidence
confidence word = confidence_of_code (bit_and (word / 16) 3)

unfoldable pub set_confidence : Confidence → ℕ → ℕ
set_confidence c word = bit_or (bit_and word (4294967295 - 48)) (confidence_code c * 16)

unfoldable pub worker : ℕ → ℕ
worker word = bit_and word 15

unfoldable pub set_worker : ℕ → ℕ → ℕ
set_worker id word = bit_or (bit_and word (4294967295 - 15)) (id % 16)

unfoldable pub is_root : ℕ → Bool
is_root word = not (bit_and (word / 64) 1 == 0)

unfoldable pub set_is_root : Bool → ℕ → ℕ
set_is_root root word = bit_or (bit_and word (4294967295 - 64)) (if root then 64 else 0)

pub record Range : Type 0 where
  pub begin : ℕ
  pub end : ℕ

pub record Attr (D P : Type 0) : Type 0 where
  pub id : ℕ
  pub type : ℕ
  pub value : Variant D P
  pub range : Range

-- `Attr(id)` with the default value and type.
unfoldable pub new_attr : {D P : Type 0} → ℕ → Attr D P
new_attr id = record { id = id; type = 0; value = of_nil; range = record { begin = 0; end = 0 } }

pub record Payload (D P : Type 0) : Type 0 where
  pub type : ℕ
  pub length : ℕ
  pub range : Range
  pub slices : List Slice
  pub attrs : List (Attr D P)

unfoldable pub new_payload : {D P : Type 0} → Payload D P
new_payload = record {
  type = 0;
  length = 0;
  range = record { begin = 0; end = 0 };
  slices = [];
  attrs = [];
}

-- `union { Layer *layer; const Frame *frame; } mParent`
pub data Parent (F : Type 0) : Type 0 where
  layer_member : Option ℕ → Parent F
  frame_member : F → Parent F

pub record Layer (D P F : Type 0) : Type 0 where
  pub id : ℕ
  pub flags : ℕ
  pub parent_link : Parent F
  pub range : Range
  pub payloads : List (Payload D P)
  pub tags : List ℕ
  pub layers : List ℕ
  pub attrs : List (Attr D P)

module _ {D P : Type 0} where
  -- `mLength += slice.length` on a `uint32_t`.
  unfoldable pub add_slice : Slice → Payload D P → Payload D P
  add_slice s p = record p {
    slices = p.slices ++ s ∷ [];
    length = (p.length + s.length % 2 ^ 32) % 2 ^ 32;
  }

  unfoldable pub payload_attr : ℕ → List (Attr D P) → Option (Attr D P)
  payload_attr id [] = none
  payload_attr id (a ∷ attrs) =
      let rest = payload_attr id attrs in if a.id == id then some a else rest

  unfoldable pub add_payload_attr : Attr D P → Payload D P → Payload D P
  add_payload_attr a p = record p { attrs = p.attrs ++ a ∷ [] }

module _ {D P : Type 0} (f : Floats D) (alias_token : ℕ) where
  -- `Layer::attr`, from the attribute at which the loop is: an alias changes the id that the rest
  -- of the list is searched for. `Token` is a `uint32_t`.
  unfoldable pub attr : ℕ → List (Attr D P) → Option (Attr D P)
  attr id [] = none
  attr id (a ∷ attrs) = elim (a.id == id) [
    | false ↦ attr id attrs
    | true ↦ elim (a.type == alias_token) [
      | true ↦ attr (uint64_value f 0 a.value % 2 ^ 32) attrs
      | false ↦ some a
    ]
  ]

module _ {D P F : Type 0} where
  unfoldable pub set_parent : Option ℕ → Layer D P F → Layer D P F
  unfolding set_is_root
  set_parent p l = record l { flags = set_is_root false l.flags; parent_link = layer_member p }

  unfoldable pub set_frame : F → Layer D P F → Layer D P F
  unfolding set_is_root
  set_frame frame l = record l {
    flags = set_is_root true l.flags;
    parent_link = frame_member frame;
  }

  -- `Layer(id)`
  unfoldable pub new_layer : ℕ → Layer D P F
  unfolding set_parent set_confidence
  new_layer id = set_parent none (record {
    id = id;
    flags = set_confidence exact 0;
    parent_link = layer_member none;
    range = record { begin = 0; end = 0 };
    payloads = [];
    tags = [];
    layers = [];
    attrs = [];
  })

  unfoldable pub parent : Layer D P F → Option ℕ
  unfolding is_root
  parent l =
      if is_root l.flags
      then none
      else elim (l.parent_link) [ layer_member p ↦ p | frame_member x ↦ none ]

  unfoldable pub add_child : ℕ → Layer D P F → Layer D P F
  add_child child l = record l { layers = l.layers ++ child ∷ [] }

  unfoldable pub add_attr : Attr D P → Layer D P F → Layer D P F
  add_attr a l = record l { attrs = l.attrs ++ a ∷ [] }

  unfoldable pub add_payload : Payload D P → Layer D P F → Layer D P F
  add_payload p l = record l { payloads = l.payloads ++ p ∷ [] }

  unfoldable pub add_tag : ℕ → Layer D P F → Layer D P F
  add_tag tag l = record l { tags = l.tags ++ tag ∷ [] }

  unfoldable pub add_attr_alias : ℕ → ℕ → ℕ → Layer D P F → Layer D P F
  unfolding new_attr add_attr of_uint32
  add_attr_alias alias_token alias target =
      add_attr (record (new_attr alias) { type = alias_token; value = of_uint32 target })

  -- `stringPool.get(msg, length)` gives the bytes of `msg`.
  unfoldable pub add_error : ℕ → ℕ → List ℕ → ℕ → Layer D P F → Layer D P F
  unfolding new_attr add_attr from_string
  add_error error_token id msg size = add_attr (record (new_attr id) {
    type = error_token;
    value = (if ltb 0 size then from_string msg size else of_nil);
  })

  unfoldable pub modify : ℕ → (Layer D P F → Layer D P F) → List (Layer D P F) → List (Layer D P F)
  modify i g heap = elim (get_elem? heap i) [ none ↦ heap | some l ↦ set heap i (g l) ]

  -- `Layer_addLayer`: the child that it returns, and the heap.
  unfoldable pub add_layer : ℕ → ℕ → List (Layer D P F) → ℕ × List (Layer D P F)
  unfolding new_layer set_parent add_child modify
  add_layer layer id heap =
      let child = length heap in
      (child, modify layer (add_child child) (heap ++ set_parent (some layer) (new_layer id) ∷ []))

  -- The loop of `Layer::frame`: `none` when the rounds run out or a pointer is dangling.
  unfoldable pub frame_loop : List (Layer D P F) → ℕ → ℕ → Option (Option F)
  unfolding parent is_root
  frame_loop heap zero layer = none
  frame_loop heap (suc rounds) layer = elim (get_elem? heap layer) [
    | none ↦ none
    | some l ↦ elim (is_root l.flags) [
      | true ↦
          some (elim (l.parent_link) [ layer_member p ↦ none | frame_member frame ↦ some frame ])
      | false ↦ elim (parent l) [ none ↦ some none | some p ↦ frame_loop heap rounds p ]
    ]
  ]

  unfoldable pub frame : ℕ → List (Layer D P F) → Option (Option F)
  unfolding frame_loop
  frame layer heap = frame_loop heap (length heap) layer
