-- ===== src/Context.antt =====
-- plugkit/src/context.cpp: the linkage of the layers of a stream by `--prev` and `--next` attributes.
-- Attributes are shared by pointer here, so an attribute is known by its index in a heap, in the order
-- of allocation, and a layer has the list of its attributes. `D` is that of Variant; an address is a
-- layer, or null.
pub mod Links
pub mod Effects
pub mod Calls
mod Tests
use deplug.Common.{
  ℕ, Bool, ◌&&◌, Option, none, some, List, [], ◌∷◌, ◌++◌, ◌==◌, if◌then◌else◌, length, get_elem?,
  set,
}
use deplug.Variant.{from_address, store_address}
use deplug.Layer.{Attr, new_attr}
use deplug.Allocator.{Cell, BlockAllocator, init, alloc, dealloc}

-- `std::pair<Token, uint64_t>`
pub record Key : Type 0 where
  pub token : ℕ
  pub id : ℕ

abbrev pub same : Key → Key → Bool
same a b = a.token == b.token && a.id == b.id

-- `Context::PrevLayer`
pub record PrevLayer : Type 0 where
  pub layer : ℕ
  pub attr : ℕ

pub record Context (D : Type 0) : Type 0 where
  pub attrs : List (Attr D (Option ℕ))
  -- `layer->attrs()`
  pub layer_attrs : ℕ → List ℕ
  pub linked_layers : List (Key × PrevLayer)

-- `linkedLayers.find(pair)` and `linkedLayers[pair] = prev`
unfoldable pub find : Key → List (Key × PrevLayer) → Option PrevLayer
find key [] = none
find key ((k, prev) ∷ linked) = let rest = find key linked in if same k key then some prev else rest

unfoldable pub assign : Key → PrevLayer → List (Key × PrevLayer) → List (Key × PrevLayer)
assign key prev [] = (key, prev) ∷ []
assign key prev ((k, p) ∷ linked) =
    let rest = assign key prev linked in if same k key then (k, prev) ∷ linked else (k, p) ∷ rest

-- `layer->addAttr(attr)`
unfoldable pub add_attr : ℕ → ℕ → (ℕ → List ℕ) → ℕ → List ℕ
add_attr layer attr layer_attrs l = if l == layer then layer_attrs l ++ attr ∷ [] else layer_attrs l

module _ {D : Type 0} where
  -- A new attribute whose id and type are the token, added to the layer: its pointer and the context.
  unfoldable pub add_link : ℕ → Option ℕ → ℕ → Context D → ℕ × Context D
  unfolding new_attr from_address add_attr
  add_link token target layer ctx = (
    length ctx.attrs,
    record ctx {
      attrs =
          ctx.attrs ++ record (new_attr token) { type = token; value = from_address target } ∷ [];
      layer_attrs = add_attr layer (length ctx.attrs) ctx.layer_attrs;
    },
  )

  -- `attr->value().storeAddress(layer)`
  unfoldable pub store_link : ℕ → ℕ → Context D → Context D
  unfolding store_address
  store_link attr layer ctx = elim (get_elem? ctx.attrs attr) [
    | none ↦ ctx
    | some a ↦ record ctx {
      attrs = set ctx.attrs attr (record a { value = store_address (some layer) a.value });
    }
  ]

  -- `Token_get("--next")` and `Token_get("--prev")` are parameters.
  module _ (next_token prev_token : ℕ) where
    unfoldable pub add_layer_linkage : ℕ → ℕ → ℕ → Context D → Context D
    unfolding find assign add_link store_link
    add_layer_linkage token id layer ctx =
        let key : Key = record { token = token; id = id } in
        let linked : Context D = elim (find key ctx.linked_layers) [
          | none ↦ ctx
          | some prev ↦
              store_link prev.attr layer (add_link prev_token (some prev.layer) layer ctx).1
        ] in
        let next = add_link next_token none layer linked in
        record (next.1) {
          linked_layers = assign key (record { layer = layer; attr = next.0 }) next.1.linked_layers;
        }

-- `Context_allocFrame` and its like for layers, attributes and payloads: an allocator is made when
-- the first object is allocated, on memory as it is. `Context_deallocFrame` and its like call
-- through a null pointer, `none`, if none was.
module _ {T : Type 0} (bits : Cell T → ℕ) where
  unfoldable pub alloc_object :
      (ℕ → Cell T) → T → ℕ → Option (BlockAllocator T) → ℕ × Option (BlockAllocator T)
  unfolding init alloc
  alloc_object heap x base none = let r = alloc bits x base (init heap) in (r.0, some r.1)
  alloc_object heap x base (some a) = let r = alloc bits x base a in (r.0, some r.1)

  unfoldable pub dealloc_object : ℕ → Option (BlockAllocator T) → Option (BlockAllocator T)
  unfolding dealloc
  dealloc_object ptr none = none
  dealloc_object ptr (some a) = some (dealloc bits ptr a)
