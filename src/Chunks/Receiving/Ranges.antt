-- ===== src/Chunks/Receiving/Ranges.antt =====
-- receiving_chunk_list.h: the order of `ranges_`, and what each operation does with it.
use aether_client_cpp.Prelude.{
  ℕ, ◌+◌, ◌≤◌, ◌<◌, ◌≡◌, ◌⊎◌, inl, inr, refl, arith, leb, Bool, false, ◌||◌, ◌&&◌, List, [], ◌∷◌,
}
use aether_client_cpp.Ring.{RingRange, distance, plus}
use aether_client_cpp.Ring.Distance.{
  IsCapacity, plus-lt, distance-plus, distance_chain, distance_self,
}
use aether_client_cpp.Ring.Order.{is_before_lem, before_or_at_lem}
use aether_client_cpp.Chunks.Receiving.{
  ReceiveChunkList, insert_range, acknowledge_ranges, acknowledge, set_buffer_begin,
}

module _ (cap begin : ℕ) where
  -- A range of the ring that does not reach the index before the begin.
  abbrev pub IsRange : RingRange → Type 0
  IsRange r =
      (r.left < cap)
      × (r.right < cap)
      × (distance cap begin r.left ≤ distance cap begin r.right)
      × (distance cap begin r.right + 1 < cap)

  -- Ranges by their left ends, none of which is nearer than `low`.
  abbrev pub IsChain : ℕ → List RingRange → Type 0
  IsChain low [] = Unit {0}
  IsChain low (r ∷ rs) =
      (low ≤ distance cap begin r.left) × IsRange r × IsChain (distance cap begin r.left) rs

  -- Whether some range holds the byte at this distance from the begin.
  abbrev pub covers : RingRange → ℕ → Bool
  covers r k = leb (distance cap begin r.left) k && leb k (distance cap begin r.right)

  abbrev pub covered : List RingRange → ℕ → Bool
  covered [] k = false
  covered (r ∷ rs) k = covers r k || covered rs k

-- `Acknowledge`, and the begin index that its caller then sets.
pub ranges-acknowledge :
    (cap to begin : ℕ) (l : ReceiveChunkList)
    → (set_buffer_begin (acknowledge cap l to) begin).ranges
      ≡ acknowledge_ranges cap l.buffer_begin to l.ranges
unfolding set_buffer_begin acknowledge
ranges-acknowledge cap to begin l = refl

pub buffer_begin-set_buffer_begin :
    (l : ReceiveChunkList) (begin : ℕ) → (set_buffer_begin l begin).buffer_begin ≡ begin
unfolding set_buffer_begin
buffer_begin-set_buffer_begin l begin = refl

module _ {cap : ℕ} (w : IsCapacity cap) (begin : ℕ) (hb : begin < cap) where
  pub IsChain-mono :
      (low low' : ℕ) (rs : List RingRange)
      → low' ≤ low
      → IsChain cap begin low rs
      → IsChain cap begin low' rs
  IsChain-mono low low' [] h c = tt
  IsChain-mono low low' (r ∷ rs) h c = (omega arith, c.1, c.2)

  pub covered_below :
      (low k : ℕ) (rs : List RingRange)
      → k < low
      → IsChain cap begin low rs
      → covered cap begin rs k ≡ false
  covered_below low k [] h c = refl
  covered_below low k (r ∷ rs) h c = ground (arith, covered_below (distance cap begin r.left) k rs)

  -- A range that is not flipped, does not reach the index before the begin and begins no nearer
  -- than a bound is put where the ranges stay in order of their left ends, none nearer than the
  -- bound.
  pub insert_range-IsChain :
      (low : ℕ) (range : RingRange) (rs : List RingRange)
      → low ≤ distance cap begin range.left
      → IsRange cap begin range
      → IsChain cap begin low rs
      → IsChain cap begin low (insert_range cap begin range rs)
  unfolding insert_range
  insert_range-IsChain low range [] h v c = (h, v, tt)
  insert_range-IsChain low range (r ∷ rs) h v c = ground (
    arith,
    is_before_lem w begin r.left range.left hb,
    insert_range-IsChain (distance cap begin r.left) range rs,
  )

  -- With a range more in the list, seen from a begin in the ring, a byte is covered just when that
  -- range holds it or it was covered.
  pub covered-insert_range :
      (range : RingRange) (rs : List RingRange) (k : ℕ)
      → covered cap begin (insert_range cap begin range rs) k
        ≡ (covers cap begin range k || covered cap begin rs k)
  unfolding insert_range
  covered-insert_range range [] k = refl
  covered-insert_range range (r ∷ rs) k = ground (arith, covered-insert_range range rs k)

  -- `Acknowledge` up to `to`, seen from the index after it.
  module _ (to : ℕ) (ht : to < cap) (room : distance cap begin to + 1 < cap) where
    begin_after : distance cap begin (plus cap to 1) ≡ distance cap begin to + 1
    begin_after = distance-plus w begin to 1 hb ht room

    -- An index behind `to` is nearer to the new begin by what was acknowledged.
    nearer :
        (x : ℕ)
        → x < cap
        → distance cap begin to < distance cap begin x
        → distance cap (plus cap to 1) x + distance cap begin to + 1 ≡ distance cap begin x
    nearer x hx h =
        omega (arith, begin_after, distance_chain w begin (plus cap to 1) x hb (plus-lt w to 1) hx)

    new_begin : distance cap (plus cap to 1) (plus cap to 1) ≡ 0
    new_begin = distance_self w (plus cap to 1) (plus cap to 1) (plus-lt w to 1) (plus-lt w to 1)

    pub acknowledge_ranges-IsChain :
        (low low' : ℕ) (rs : List RingRange)
        → low' + distance cap begin to + 1 ≤ low ⊎ (low' ≡ 0)
        → IsChain cap begin low rs
        → IsChain cap (plus cap to 1) low' (acknowledge_ranges cap begin to rs)
    unfolding acknowledge_ranges
    acknowledge_ranges-IsChain low low' [] h c = tt
    acknowledge_ranges-IsChain low low' (r ∷ rs) h c =
        let drop_it =
          acknowledge_ranges-IsChain (distance cap begin r.left) low' rs (ground arith) c.2 in
        let cut_it = acknowledge_ranges-IsChain (distance cap begin r.left) 0 rs (inr refl) c.2 in
        let keep_it : distance cap begin to < distance cap begin r.left
            → IsChain cap (plus cap to 1) (distance cap (plus cap to 1) r.left)
                (acknowledge_ranges cap begin to rs) =
          λ p.
            acknowledge_ranges-IsChain (distance cap begin r.left)
              (distance cap (plus cap to 1) r.left) rs (inl (omega (arith, nearer r.left c.1.0 p)))
              c.2 in
        ground (
          arith,
          drop_it,
          cut_it,
          keep_it,
          before_or_at_lem w begin r.right to hb c.1.1 ht,
          before_or_at_lem w begin r.left to hb c.1.0 ht,
          nearer r.right c.1.1,
          nearer r.left c.1.0,
          new_begin,
          plus-lt w to 1,
        )

    -- Given ranges in order of their left ends, and an index of the ring that is not the last
    -- before the begin, a byte is covered after `Acknowledge` up to that index just when it was
    -- covered and comes after it, distances being measured from the index after it.
    pub covered-acknowledge_ranges :
        (low : ℕ) (rs : List RingRange) (k : ℕ)
        → IsChain cap begin low rs
        → covered cap (plus cap to 1) (acknowledge_ranges cap begin to rs) k
          ≡ covered cap begin rs (k + (distance cap begin to + 1))
    unfolding acknowledge_ranges
    covered-acknowledge_ranges low [] k c = refl
    covered-acknowledge_ranges low (r ∷ rs) k c = ground (
      arith,
      covered-acknowledge_ranges (distance cap begin r.left) rs k c.2,
      before_or_at_lem w begin r.right to hb c.1.1 ht,
      before_or_at_lem w begin r.left to hb c.1.0 ht,
      nearer r.right c.1.1,
      nearer r.left c.1.0,
      new_begin,
    )
