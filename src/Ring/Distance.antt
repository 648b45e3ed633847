-- ===== src/Ring/Distance.antt =====
-- ring_index.h: distances and steps on the ring, once no `size_t` operation wraps.
use native.Mathlib.Nat.{mod-eq_of_lt, mod-eq-sub-mod, mod-lt}
use aether_client_cpp.Prelude.{
  ℕ, ◌+◌, ◌-◌, ◌%◌, ◌^◌, ◌≤◌, ◌<◌, ◌≡◌, ◌⊎◌, inl, inr, arith, ltb, leb, if◌then◌else◌, Bool-cases,
  ltb→lt,
}
use aether_client_cpp.Ring.{make, distance, plus, minus, increment}

-- What the template's `requires` clause and the ring's modulus give.
pub record IsCapacity (cap : ℕ) : Type 0 where
  pub positive : 0 < cap
  pub small : cap < 2 ^ 63

-- A sum below twice the modulus.
pub mod_wrap : (n m : ℕ) → 0 < m → n < m + m → n % m ≡ (if ltb n m then n else n - m)
mod_wrap n m p h = elim (Bool-cases (ltb n m)) [
  | inl below ↦ rw below (mod-eq_of_lt (ltb→lt n m below))
  | inr above ↦ ground (arith, mod-eq-sub-mod {n = n} {m = m}, mod-eq_of_lt {n = n - m} {m = m})
]

module _ {cap : ℕ} (w : IsCapacity cap) where
  pub distance_lem :
      (a b : ℕ) → a < cap → b < cap → distance cap a b ≡ (if leb a b then b - a else cap + b - a)
  unfolding distance
  distance_lem a b ha hb = ground arith

  pub plus_lem :
      (a k : ℕ)
      → a < cap
      → k ≤ cap
      → plus cap a k ≡ (if ltb (a + k) cap then a + k else a + k - cap)
  unfolding plus
  plus_lem a k ha hk = ground (arith, mod_wrap (a + k) cap)

  pub minus_lem :
      (a k : ℕ) → a < cap → k ≤ cap → minus cap a k ≡ (if leb k a then a - k else cap + a - k)
  unfolding minus
  minus_lem a k ha hk = ground (arith, mod_wrap (a - k) cap, mod_wrap (cap - k + a) cap)

  pub make-lt : (a : ℕ) → make cap a < cap
  unfolding make
  make-lt a = mod-lt a w.positive

  pub plus-lt : (a k : ℕ) → plus cap a k < cap
  unfolding plus
  plus-lt a k = mod-lt _ w.positive

  pub minus-lt : (a k : ℕ) → minus cap a k < cap
  unfolding minus
  minus-lt a k = mod-lt _ w.positive

  module _ (a b : ℕ) (ha : a < cap) (hb : b < cap) where
    pub distance-lt : distance cap a b < cap
    distance-lt = ground (arith, distance_lem a b)

    pub distance_self : distance cap a a ≡ 0
    distance_self = ground (arith, distance_lem a a)

    pub eq_of_distance_zero : distance cap a b ≡ 0 → a ≡ b
    eq_of_distance_zero h = ground (arith, distance_lem a b)

    pub plus-distance : plus cap a (distance cap a b) ≡ b
    plus-distance = ground (arith, distance_lem a b, plus_lem a (distance cap a b))

  -- Moving on by `k` is what `Distance` measures.
  pub distance-plus_self : (a k : ℕ) → a < cap → k < cap → distance cap a (plus cap a k) ≡ k
  distance-plus_self a k ha hk = ground (arith, plus_lem a k, distance_lem a (plus cap a k))

  -- For an index of the ring and a number up to the ring's size, subtracting the number takes its
  -- addition back.
  pub minus-plus : (a k : ℕ) → a < cap → k ≤ cap → minus cap (plus cap a k) k ≡ a
  minus-plus a k ha hk = ground (arith, plus_lem a k, minus_lem (plus cap a k) k)

  -- And an addition takes a subtraction back.
  pub plus-minus : (a k : ℕ) → a < cap → k ≤ cap → plus cap (minus cap a k) k ≡ a
  plus-minus a k ha hk = ground (arith, minus_lem a k, plus_lem (minus cap a k) k)

  pub distance_flip :
      (a b : ℕ) → a < cap → b < cap → (a ≡ b) ⊎ (distance cap a b + distance cap b a ≡ cap)
  distance_flip a b ha hb = ground (arith, distance_lem a b, distance_lem b a)

  module _ (b x y : ℕ) (hb : b < cap) (hx : x < cap) (hy : y < cap) where
    -- For indices of the ring, the distance from a begin to an index adds up through any index that
    -- is no further from the begin.
    pub distance_chain :
        distance cap b x ≤ distance cap b y → distance cap b x + distance cap x y ≡ distance cap b y
    distance_chain h = ground (arith, distance_lem b x, distance_lem b y, distance_lem x y)

    -- Otherwise it goes once round.
    pub distance_round :
        distance cap b y < distance cap b x
        → distance cap b x + distance cap x y ≡ cap + distance cap b y
    distance_round h = ground (arith, distance_lem b x, distance_lem b y, distance_lem x y)

    pub distance-injective : distance cap b x ≡ distance cap b y → x ≡ y
    distance-injective h = ground (arith, distance_lem b x, distance_lem b y)

  pub distance-plus :
      (b x k : ℕ)
      → b < cap
      → x < cap
      → distance cap b x + k < cap
      → distance cap b (plus cap x k) ≡ distance cap b x + k
  distance-plus b x k hb hx h =
      ground (arith, distance_lem b x, plus_lem x k, distance_lem b (plus cap x k))

  pub distance-minus :
      (b x k : ℕ)
      → b < cap
      → x < cap
      → k ≤ distance cap b x
      → distance cap b (minus cap x k) + k ≡ distance cap b x
  distance-minus b x k hb hx h =
      ground (arith, distance_lem b x, minus_lem x k, distance_lem b (minus cap x k))

  pub plus-plus :
      (x j k : ℕ)
      → x < cap
      → j ≤ cap
      → k ≤ cap
      → j + k ≤ cap
      → plus cap (plus cap x j) k ≡ plus cap x (j + k)
  plus-plus x j k hx hj hk h =
      ground (arith, plus_lem x j, plus_lem (plus cap x j) k, plus_lem x (j + k))

  pub increment_lem : (a : ℕ) → a < cap → increment cap a ≡ plus cap a 1
  unfolding increment plus
  increment_lem a ha = ground arith
