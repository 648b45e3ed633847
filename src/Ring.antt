-- ===== src/Ring.antt =====
-- aether/types/ring_index.h: indices of a ring buffer, and their order as seen from a begin index.
-- The template argument `Max` is the section's parameter; a `RingIndex` is its field `value_`.
pub mod Distance
pub mod Order
use aether_client_cpp.Prelude.{
  ℕ, ◌+◌, ◌-◌, ◌%◌, ltb, leb, ◌==◌, Bool, not, ◌&&◌, ◌||◌, if◌then◌else◌,
}
use aether_client_cpp.Prelude.Sizes.{add_size, sub_size}

abbrev pub RingIndex : Type 0
RingIndex = ℕ

module _ (cap : ℕ) where
  -- the explicit constructor
  unfoldable pub make : ℕ → RingIndex
  make val = val % cap

  -- `Distance`: how many steps forward lead from the first index to the second.
  unfoldable pub distance : RingIndex → RingIndex → ℕ
  distance value other =
      let a = sub_size cap value in
      let b = sub_size cap other in if leb b a then sub_size a b else add_size a other

  -- `operator+=`, `operator+`
  unfoldable pub plus : RingIndex → ℕ → RingIndex
  plus value val = add_size value val % cap

  -- `operator-=`, `operator-`
  unfoldable pub minus : RingIndex → ℕ → RingIndex
  minus value val =
      (if ltb value val then add_size (sub_size cap val) value else sub_size value val) % cap

  -- `operator++` and `operator--`: the new value.
  unfoldable pub increment : RingIndex → RingIndex
  increment value = add_size value 1 % cap

  unfoldable pub decrement : RingIndex → RingIndex
  decrement value = sub_size value 1 % cap

  -- `IndexComparable{value, begin}` against another index.
  unfoldable pub is_before : RingIndex → RingIndex → RingIndex → Bool
  is_before begin value other =
      not (value == other) && ltb (distance begin value) (distance begin other)

  unfoldable pub is_after : RingIndex → RingIndex → RingIndex → Bool
  is_after begin value other =
      not (value == other) && ltb (distance begin other) (distance begin value)

  unfoldable pub before_or_at : RingIndex → RingIndex → RingIndex → Bool
  before_or_at begin value other = value == other || is_before begin value other

  unfoldable pub at_or_after : RingIndex → RingIndex → RingIndex → Bool
  at_or_after begin value other = value == other || is_after begin value other

-- `RingIndexRange`: both ends belong to the range.
pub record RingRange : Type 0 where
  pub left : RingIndex
  pub right : RingIndex

module _ (cap : ℕ) where
  unfoldable pub in_range : RingRange → RingIndex → RingIndex → Bool
  in_range r index begin =
      before_or_at cap begin r.left index && at_or_after cap begin r.right index

  unfoldable pub range_is_before : RingRange → RingIndex → RingIndex → Bool
  range_is_before r index begin = is_before cap begin r.right index

  unfoldable pub range_is_after : RingRange → RingIndex → RingIndex → Bool
  range_is_after r index begin = is_after cap begin r.left index

  unfoldable pub is_flipped : RingRange → RingIndex → Bool
  is_flipped r begin = is_after cap begin r.left r.right

  unfoldable pub range_distance : RingRange → ℕ
  range_distance r = distance cap r.left r.right

unfoldable pub is_empty : RingRange → Bool
is_empty r = r.left == r.right

unfoldable pub range_eq : RingRange → RingRange → Bool
range_eq r s = r.left == s.left && r.right == s.right
