-- ===== src/FrameView/Order.antt =====
-- The comparison by which the leaf layers are sorted.
use deplug.Common.{ℕ, ◌+◌, ◌-◌, ◌*◌, ◌^◌, ◌<◌, ◌≡◌, arith, ltb}
use deplug.Layer.{Layer, confidence, confidence_code}
use deplug.FrameView.{is_before}

module _ {D P F : Type 0} where
  -- The layers in their order of preference: a number that is less comes first.
  abbrev pub key : Layer D P F → ℕ
  key l = (3 - confidence_code (confidence l.flags)) * 2 ^ 32 + l.id

  -- The comparison is one of numbers, in which the confidence weighs more than any id, so it is
  -- the strict order that `std::sort` asks for: the most certain layers first, those of one
  -- confidence by their ids.
  pub is_before-key :
      (a b : Layer D P F) → a.id < 2 ^ 32 → b.id < 2 ^ 32 → is_before a b ≡ ltb (key a) (key b)
  unfolding is_before
  is_before-key a b small_a small_b = ground arith
