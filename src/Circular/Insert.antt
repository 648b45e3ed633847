-- ===== src/Circular/Insert.antt =====
-- circular_buffer.h: `Insert`, by the bytes that it leaves at each distance from the begin.
use aether_client_cpp.Prelude.{
  ℕ, ◌+◌, ◌-◌, ◌≤◌, ◌<◌, ◌≡◌, arith, ltb, if◌then◌else◌, List, length, get_or, max, dec_le,
}
use aether_client_cpp.Ring.{distance, plus, minus, is_after}
use aether_client_cpp.Ring.Distance.{
  IsCapacity, plus-lt, distance-plus, distance-plus_self, distance_chain, distance-lt,
  distance_flip, distance_round, distance_self, distance-injective, eq_of_distance_zero,
}
use aether_client_cpp.Ring.Order.{is_after_lem}
use aether_client_cpp.Circular.{
  Bytes, CircularBuffer, ok, err, data_overflow, size, insert_done, insert, available,
}
use aether_client_cpp.Circular.Copy.{Copied, insert_loop-Copied}
use aether_client_cpp.Circular.Contents.{IsValid}

module _ {cap : ℕ} (w : IsCapacity cap) {c : CircularBuffer} (v : IsValid cap c) where
  available_lem : (pos : ℕ) → pos < cap → available cap c pos ≡ cap - distance cap c.begin pos
  unfolding available
  available_lem pos hp = ground (
    arith,
    distance_flip w c.begin pos v.begin_in hp,
    distance_self w c.begin pos v.begin_in hp,
    eq_of_distance_zero w c.begin pos v.begin_in hp,
    distance-lt w c.begin pos v.begin_in hp,
  )

  -- An `Insert` that fits, with what the loop wrote.
  pub insert_fits :
      (pos : ℕ) (bytes : List ℕ)
      → pos < cap
      → distance cap c.begin pos + length bytes ≤ cap
      → (buffer' : Bytes) × Copied cap pos c.buffer bytes buffer'
        × (insert cap c pos bytes ≡ (
          record c {
            buffer = buffer';
            end =
                if is_after cap c.begin (plus cap pos (length bytes)) c.end
                then plus cap pos (length bytes)
                else c.end;
          },
          ok (record { left = pos; right = minus cap (plus cap pos (length bytes)) 1 }),
        ))
  unfolding insert insert_done
  insert_fits pos bytes hp h =
      let (buffer', e, cp) =
        insert_loop-Copied w (length bytes) pos c.buffer bytes hp (omega arith) (omega arith) in
      (buffer', cp, ground (arith, e, available_lem pos hp))

  -- An `Insert` that does not fit reports an overflow and changes nothing.
  pub insert_overflow :
      (pos : ℕ) (bytes : List ℕ)
      → pos < cap
      → cap < distance cap c.begin pos + length bytes
      → insert cap c pos bytes ≡ (c, err data_overflow)
  unfolding insert
  insert_overflow pos bytes hp h =
      ground (arith, available_lem pos hp, distance-lt w c.begin pos v.begin_in hp)

  pub insert-IsValid :
      (pos : ℕ) (bytes : List ℕ) → pos < cap → IsValid cap (insert cap c pos bytes).0
  insert-IsValid pos bytes hp = elim (dec_le (distance cap c.begin pos + length bytes) cap) [
    | yes p ↦ ground (arith, (insert_fits pos bytes hp p).2, plus-lt w pos (length bytes))
    | no p ↦ ground (arith, insert_overflow pos bytes hp)
  ]

  -- After an `Insert` that leaves room, the byte at each distance from the begin.
  module _ (pos : ℕ) (bytes : List ℕ) (hp : pos < cap)
      (room : distance cap c.begin pos + length bytes < cap) where
    -- After an `Insert` of data that leaves at least one index of the ring free, the byte at each
    -- distance from the begin is the data's where the data lies, and elsewhere what it was,
    -- although the data goes round the end of the array.
    pub insert_at :
        (k : ℕ)
        → k < cap
        → (insert cap c pos bytes).0.buffer (plus cap c.begin k) ≡ (
            if ltb k (distance cap c.begin pos)
            then c.buffer (plus cap c.begin k)
            else if ltb k (distance cap c.begin pos + length bytes)
            then get_or bytes (k - distance cap c.begin pos) 0
            else c.buffer (plus cap c.begin k))
    insert_at k hk =
        let i = plus cap c.begin k in
        let o = distance cap c.begin pos in
        let (buffer', cp, e) = insert_fits pos bytes hp (omega arith) in
        let here : distance cap c.begin i ≡ k = distance-plus_self w c.begin k v.begin_in hk in
        ground (
          arith,
          e,
          cp.written (k - o),
          cp.kept i (plus-lt w c.begin k),
          here,
          distance_chain w c.begin pos i v.begin_in hp (plus-lt w c.begin k),
          distance_round w c.begin pos i v.begin_in hp (plus-lt w c.begin k),
          distance-plus w c.begin pos (k - o) v.begin_in hp,
          distance-injective w c.begin i (plus cap pos (k - o)) v.begin_in (plus-lt w c.begin k)
              (plus-lt w pos (k - o)),
        )

    -- After an `Insert` of data that leaves at least one index of the ring free, the buffer's size
    -- is the larger of what it was and the distance of the data's end from the begin.
    pub size-insert :
        size cap (insert cap c pos bytes).0
        ≡ max (size cap c) (distance cap c.begin pos + length bytes)
    unfolding size
    size-insert = ground (
      arith,
      (insert_fits pos bytes hp (omega arith)).2,
      is_after_lem w c.begin (plus cap pos (length bytes)) c.end v.begin_in
          (plus-lt w pos (length bytes)) v.end_in,
      distance-plus w c.begin pos (length bytes) v.begin_in hp room,
    )

  pub begin-insert :
      (pos : ℕ) (bytes : List ℕ) → pos < cap → (insert cap c pos bytes).0.begin ≡ c.begin
  begin-insert pos bytes hp = elim (dec_le (distance cap c.begin pos + length bytes) cap) [
    | yes p ↦ ground (arith, (insert_fits pos bytes hp p).2)
    | no p ↦ ground (arith, insert_overflow pos bytes hp)
  ]
