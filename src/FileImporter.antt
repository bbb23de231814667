-- ===== src/FileImporter.antt =====
-- plugkit/src/file_importer_task.cpp, and `createRawFrame` of file_exporter_task.cpp: frames made of
-- what an importer reads, and what an exporter writes of them. Layers and frames are known by their
-- indices in heaps, in the order of allocation; a frame of a layer is such an index. Seconds, nanoseconds
-- and times are `int64_t`, given as the number of 64 bits; sums and products wrap, where the source's
-- are not defined. `D` and `P` are those of
-- Variant. `link_token` is the token of the name `link_` with a link number.
pub mod Roundtrip
mod Tests
use deplug.Common.{
  ℕ, ◌+◌, ◌-◌, ◌*◌, ◌/◌, ◌%◌, ltb, ◌^◌, Bool, Option, none, some, List, [], ◌∷◌, ◌++◌, ◌==◌,
  if◌then◌else◌, length, get_elem?,
}
use deplug.Variant.{Slice}
use deplug.Layer.{
  Layer, Payload, Range, new_layer, new_payload, add_tag, add_slice, add_payload, set_frame,
}

-- `RawFrame`, without `data`. `payload` has the bytes from the pointer on, none for a null pointer.
pub record RawFrame : Type 0 where
  pub link : ℕ
  pub payload : List ℕ
  pub length : ℕ
  pub actual_length : ℕ
  pub ts_sec : ℕ
  pub ts_nsec : ℕ
  pub root : Option ℕ

-- `Frame`, without the view.
pub record Frame : Type 0 where
  pub timestamp : ℕ
  pub seq : ℕ
  pub length : ℕ
  pub layer : Option ℕ

pub record Heap (D P : Type 0) : Type 0 where
  pub layers : List (Layer D P ℕ)
  pub frames : List Frame

-- `std::unordered_map<int, Token>` and the other way round.
unfoldable pub find : ℕ → List (ℕ × ℕ) → Option ℕ
find key [] = none
find key ((k, v) ∷ m) = let rest = find key m in if k == key then some v else rest

-- `linkLayers[link] = token`
unfoldable pub register_link_layer : ℕ → ℕ → List (ℕ × ℕ) → List (ℕ × ℕ)
register_link_layer link token [] = (link, token) ∷ []
register_link_layer link token ((k, v) ∷ m) =
    let rest = register_link_layer link token m in
    if k == link then (k, token) ∷ m else (k, v) ∷ rest

unfoldable pub tag_of : (ℕ → ℕ) → List (ℕ × ℕ) → ℕ → ℕ
unfolding find
tag_of link_token link_layers link = elim (find link link_layers) [
  | none ↦ link_token link
  | some token ↦ token
]

abbrev pub second : ℕ
second = 1000000000

-- `system_clock::from_time_t(raw.tsSec) + nanoseconds(raw.tsNsec)`
unfoldable pub timestamp_of : ℕ → ℕ → ℕ
timestamp_of sec nsec = (sec * second + nsec) % 2 ^ 64

-- `nano / 1000000000` and `nano % 1000000000` of an `int64_t`, which go towards zero.
unfoldable pub seconds_of : ℕ → ℕ
seconds_of nano =
    if ltb nano (2 ^ 63) then nano / second else (2 ^ 64 - (2 ^ 64 - nano) / second) % 2 ^ 64

unfoldable pub nanoseconds_of : ℕ → ℕ
nanoseconds_of nano =
    if ltb nano (2 ^ 63) then nano % second else (2 ^ 64 - (2 ^ 64 - nano) % second) % 2 ^ 64

module _ {D P : Type 0} where
  -- `createFrame`: the frame and the heap. The range ends at a `uint32_t`, the frame's length is one.
  unfoldable pub create_frame : ℕ → RawFrame → Heap D P → ℕ × Heap D P
  unfolding new_layer new_payload add_tag add_slice add_payload set_frame timestamp_of
  create_frame tag raw h =
      let layer = length h.layers in
      let frame = length h.frames in
      let made = add_slice (record { data_at = raw.payload; length = raw.length }) new_payload in
      let payload : Payload D P = record made {
        range = record { begin = 0; end = raw.length % 2 ^ 32 };
      } in
      (
        frame,
        record {
          layers =
              h.layers ++ set_frame frame (add_payload payload (add_tag tag (new_layer tag))) ∷ [];
          frames =
              h.frames
              ++ record {
                timestamp = timestamp_of raw.ts_sec raw.ts_nsec;
                seq = 0;
                length = raw.actual_length % 2 ^ 32;
                layer = some layer;
              }
                ∷ [];
        },
      )

  -- `apiCallback` of the importer, for the raw frames that it is told of: the frames for the callback.
  unfoldable pub api_callback :
      (ℕ → ℕ) → List (ℕ × ℕ) → List RawFrame → Heap D P → List ℕ × Heap D P
  unfolding tag_of create_frame
  api_callback link_token link_layers [] h = ([], h)
  api_callback link_token link_layers (raw ∷ raws) h =
      let made = create_frame (tag_of link_token link_layers raw.link) raw h in
      let rest = api_callback link_token link_layers raws made.1 in (made.0 ∷ rest.0, rest.1)

  -- The first slice of the first payload.
  unfoldable pub first_slice : List (Payload D P) → Option Slice
  first_slice [] = none
  first_slice (p ∷ payloads) = elim (p.slices) [ [] ↦ none | s ∷ slices ↦ some s ]

  -- `createRawFrame`; `none` if the frame or its root layer is none of the heap.
  unfoldable pub create_raw_frame : List (ℕ × ℕ) → Heap D P → ℕ → Option RawFrame
  unfolding find first_slice seconds_of nanoseconds_of
  create_raw_frame link_layers h frame = elim (get_elem? h.frames frame) [
    | none ↦ none
    | some f ↦ elim (f.layer) [
      | none ↦ none
      | some root ↦ elim (get_elem? h.layers root) [
        | none ↦ none
        | some l ↦ some (record {
          link = (elim (find l.id link_layers) [ none ↦ 0 | some link ↦ link ]);
          payload = (elim (first_slice l.payloads) [ none ↦ [] | some s ↦ s.data_at ]);
          length = (elim (first_slice l.payloads) [ none ↦ 0 | some s ↦ s.length ]);
          actual_length = f.length;
          ts_sec = seconds_of f.timestamp;
          ts_nsec = nanoseconds_of f.timestamp;
          root = some root;
        })
      ]
    ]
  ]

-- `FileImporter` and `FileExporter`: the function pointers may be null. `File` is a file name.
pub record Plugin (File Start : Type 0) : Type 0 where
  pub is_supported : Option (File → Bool)
  pub start : Option Start

-- The loop of `run` over the importers, and of the exporter's thread over the exporters: what is
-- started.
unfoldable pub choose : {File Start : Type 0} → File → List (Plugin File Start) → Option Start
choose file [] = none
choose file (plugin ∷ plugins) =
    let rest = choose file plugins in
    elim (plugin.is_supported) [
      | none ↦ rest
      | some supported ↦ elim (plugin.start) [
        | none ↦ rest
        | some start ↦ if supported file then some start else rest
      ]
    ]
