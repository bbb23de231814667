-- ===== src/FileImporter/Tests.antt =====
-- Two frames of a file with a registered link and another one.
use deplug.Common.{
  ℕ, ◌+◌, ◌-◌, ◌^◌, ◌≡◌, refl, none, some, List, [], ◌∷◌, arith, get_elem?, true, false,
}
use deplug.FileImporter.{
  timestamp_of, seconds_of, nanoseconds_of, RawFrame, Heap, choose, api_callback, create_raw_frame,
  tag_of, find,
}
use deplug.FileImporter.Roundtrip.{api_callback-create_raw_frame}

abbrev link_token : ℕ → ℕ
link_token link = link + 100

abbrev raw_frame : RawFrame
raw_frame = record {
  link = 1;
  payload = 69 ∷ 0 ∷ 0 ∷ [];
  length = 3;
  actual_length = 60;
  ts_sec = 1500000000;
  ts_nsec = 7;
  root = none;
}

abbrev raws : List RawFrame
raws = record raw_frame { link = 9 } ∷ raw_frame ∷ []

abbrev empty_heap : Heap ℕ ℕ
empty_heap = record { layers = []; frames = [] }

-- The other link becomes 0 when it is not registered.
unregistered :
    create_raw_frame ((5, 1) ∷ []) (api_callback link_token ((1, 5) ∷ []) raws empty_heap).1 0
    ≡ some (record raw_frame { link = 0; root = some 0 })
unfolding create_raw_frame api_callback
unregistered = refl

-- Half a second before the epoch, as -1 seconds and 500000000 nanoseconds, comes back as 0 seconds
-- and -500000000 nanoseconds.
before_epoch :
    (seconds_of (timestamp_of (2 ^ 64 - 1) 500000000) ≡ 0)
    × (nanoseconds_of (timestamp_of (2 ^ 64 - 1) 500000000) ≡ 2 ^ 64 - 500000000)
unfolding seconds_of nanoseconds_of timestamp_of
before_epoch = (refl, refl)

chosen :
    choose {File = ℕ} {Start = ℕ} 3 (
      record { is_supported = none; start = some 1 }
      ∷ record { is_supported = some (λ file. false); start = some 2 }
      ∷ record { is_supported = some (λ file. true); start = some 4 }
      ∷ [])
    ≡ some 4
unfolding choose
chosen = refl

api_callback-create_raw_frame_example :
    (frame root : ℕ) × (get_elem? (api_callback link_token ((1, 5) ∷ []) raws empty_heap).0 1
      ≡ some frame)
    × (create_raw_frame
          ((5, 1) ∷ [])
          (api_callback link_token ((1, 5) ∷ []) raws empty_heap).1
          frame
        ≡ some (record raw_frame { root = some root }))
unfolding tag_of find
api_callback-create_raw_frame_example =
    api_callback-create_raw_frame link_token ((1, 5) ∷ []) ((5, 1) ∷ []) raws empty_heap 1 raw_frame
      refl (omega arith) (omega arith) (omega arith) refl
