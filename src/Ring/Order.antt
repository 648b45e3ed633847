-- ===== src/Ring/Order.antt =====
-- ring_index.h: the comparisons of `IndexComparable` and `RingIndexRange`, by distances.
use native.Mathlib.Nat.{mod-add-mod, mod-lt}
use aether_client_cpp.Prelude.{
  ℕ, ◌+◌, ◌-◌, ◌%◌, ◌^◌, ◌<◌, ◌≡◌, ◌⊎◌, ◌↔◌, arith, ltb, leb, true, false, not, ◌&&◌,
}
use aether_client_cpp.Ring.{
  RingRange, distance, decrement, is_before, is_after, before_or_at, at_or_after, in_range,
}
use aether_client_cpp.Ring.Distance.{IsCapacity, distance-injective, mod_wrap}

module _ {cap : ℕ} (w : IsCapacity cap) (b x y : ℕ) (hb : b < cap) (hx : x < cap)
    (hy : y < cap) where
  pub is_before_lem : is_before cap b x y ≡ ltb (distance cap b x) (distance cap b y)
  unfolding is_before
  is_before_lem = ground (arith, distance-injective w b x y hb hx hy)

  pub is_after_lem : is_after cap b x y ≡ ltb (distance cap b y) (distance cap b x)
  unfolding is_after
  is_after_lem = ground (arith, distance-injective w b x y hb hx hy)

  pub before_or_at_lem : before_or_at cap b x y ≡ leb (distance cap b x) (distance cap b y)
  unfolding before_or_at
  before_or_at_lem = ground (arith, is_before_lem, distance-injective w b x y hb hx hy)

  pub at_or_after_lem : at_or_after cap b x y ≡ leb (distance cap b y) (distance cap b x)
  unfolding at_or_after
  at_or_after_lem = ground (arith, is_after_lem, distance-injective w b x y hb hx hy)

-- For indices of the ring, `InRange` compares distances from the begin: it holds of the indices
-- that are no nearer than the range's left end and no further than its right end.
pub in_range_lem :
    {cap : ℕ} (w : IsCapacity cap) (b i : ℕ) (r : RingRange)
    → b < cap
    → i < cap
    → r.left < cap
    → r.right < cap
    → in_range cap r i b ≡ (
        leb (distance cap b r.left) (distance cap b i)
        && leb (distance cap b i) (distance cap b r.right))
unfolding in_range
in_range_lem w b i r hb hi hl hr =
    ground (arith, before_or_at_lem w b r.left i hb hl hi, at_or_after_lem w b r.right i hb hr hi)

-- Seen from a begin index of the ring, no index of the ring is before itself, of two one is before
-- the other or they are equal, after is the converse of before, and before is transitive.
pub is_before_order :
    {cap : ℕ} (w : IsCapacity cap) (b x y z : ℕ)
    → b < cap
    → x < cap
    → y < cap
    → z < cap
    → (is_before cap b x x ≡ false)
      × ((is_before cap b x y ≡ true) ⊎ (x ≡ y) ⊎ (is_before cap b y x ≡ true))
      × (is_after cap b y x ≡ is_before cap b x y)
      × (is_before cap b x y && is_before cap b y z && not (is_before cap b x z) ≡ false)
is_before_order w b x y z hb hx hy hz = ground (
  arith,
  is_before_lem w b x x hb hx hx,
  is_before_lem w b x y hb hx hy,
  is_before_lem w b y x hb hy hx,
  is_after_lem w b y x hb hy hx,
  is_before_lem w b y z hb hy hz,
  is_before_lem w b x z hb hx hz,
  distance-injective w b x y hb hx hy,
)

-- For a ring of at least one and less than 2^63 indices, `operator--` leads from index 0 to the
-- last index exactly when the ring's size divides 2^64.
pub decrement_zero : {cap : ℕ} → IsCapacity cap → (decrement cap 0 ≡ cap - 1) ↔ (2 ^ 64 % cap ≡ 0)
unfolding decrement
decrement_zero {cap} w = (
  λ h. ground (arith, next, mod_wrap (last % cap + 1) cap),
  λ h. ground (arith, next, mod_wrap (last % cap + 1) cap, mod-lt last w.positive),
)
  where
    last : ℕ
    last = 2 ^ 64 - 1

    next : (last % cap + 1) % cap ≡ 2 ^ 64 % cap
    next = mod-add-mod last cap 1
