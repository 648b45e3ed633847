-- ===== src/Circular/Erase.antt =====
-- circular_buffer.h: `Erase` and `EraseFrom`, by the bytes that stay in the buffer.
use aether_client_cpp.Prelude.{
  ℕ, ◌+◌, ◌-◌, ◌≤◌, ◌<◌, ◌≡◌, arith, ap, ltb, if◌then◌else◌, take, drop, min,
}
use aether_client_cpp.Ring.{distance}
use aether_client_cpp.Ring.Distance.{
  IsCapacity, distance_chain, distance-lt, plus-distance, distance_round,
}
use aether_client_cpp.Circular.{CircularBuffer, size, erase, erase_from}
use aether_client_cpp.Circular.Contents.{IsValid, window, contents, take-window, drop-window}

module _ {cap : ℕ} (w : IsCapacity cap) {c : CircularBuffer} (v : IsValid cap c) where
  -- An index is held, or just past the end, when it is no further from the begin than the end is.
  guard_lem :
      (i : ℕ)
      → i < cap
      → ltb (distance cap c.begin c.end) (distance cap i c.end)
        ≡ ltb (distance cap c.begin c.end) (distance cap c.begin i)
  guard_lem i hi = ground (
    arith,
    distance_chain w c.begin i c.end v.begin_in hi v.end_in,
    distance_round w c.begin i c.end v.begin_in hi v.end_in,
    distance-lt w c.begin i v.begin_in hi,
    distance-lt w i c.end hi v.end_in,
  )

  -- `Erase` up to an index of the ring drops the bytes before it from the contents, if it is no
  -- further from the begin than the end is, and otherwise leaves the contents as they were.
  pub erase_lem :
      (to : ℕ)
      → to < cap
      → contents cap (erase cap c to) ≡ (
          if ltb (size cap c) (distance cap c.begin to)
          then contents cap c
          else drop (distance cap c.begin to) (contents cap c))
  unfolding erase contents size
  erase_lem to ht =
      rw (erase, guard_lem to ht)
        (ground (
          arith,
          drop-window w c.buffer c.begin (distance cap c.begin to) (distance cap c.begin c.end)
              v.begin_in,
          distance-lt w c.begin c.end v.begin_in v.end_in,
          distance_chain w c.begin to c.end v.begin_in ht v.end_in,
          plus-distance w c.begin to v.begin_in ht,
          ap (window cap c.buffer to) {x = distance cap c.begin c.end - distance cap c.begin to}
              {y = distance cap to c.end},
        ))

  -- `EraseFrom` an index of the ring keeps just the bytes before it, if it is no further from the
  -- begin than the end is, and otherwise leaves the contents as they were.
  pub erase_from_lem :
      (from : ℕ)
      → from < cap
      → contents cap (erase_from cap c from) ≡ (
          if ltb (size cap c) (distance cap c.begin from)
          then contents cap c
          else take (distance cap c.begin from) (contents cap c))
  unfolding erase_from contents size
  erase_from_lem from hf =
      rw (erase_from, guard_lem from hf)
        (ground (
          arith,
          take-window w c.buffer c.begin (distance cap c.begin from) (distance cap c.begin c.end)
              v.begin_in,
          distance-lt w c.begin c.end v.begin_in v.end_in,
          ap (window cap c.buffer c.begin)
              {x = min (distance cap c.begin from) (distance cap c.begin c.end)}
              {y = distance cap c.begin from},
        ))

  pub erase_held :
      (to : ℕ)
      → to < cap
      → distance cap c.begin to ≤ size cap c
      → erase cap c to ≡ record c { begin = to }
  unfolding erase size
  erase_held to ht h = ground (arith, guard_lem to ht)

  pub size-erase_held :
      (to : ℕ)
      → to < cap
      → distance cap c.begin to ≤ size cap c
      → size cap (record c { begin = to }) + distance cap c.begin to ≡ size cap c
  unfolding size
  size-erase_held to ht h =
      omega (arith, distance_chain w c.begin to c.end v.begin_in ht v.end_in h)

  pub erase-IsValid : (to : ℕ) → to < cap → IsValid cap (erase cap c to)
  unfolding erase
  erase-IsValid to ht = ground arith

  pub erase_from-IsValid : (from : ℕ) → from < cap → IsValid cap (erase_from cap c from)
  unfolding erase_from
  erase_from-IsValid from hf = ground arith
