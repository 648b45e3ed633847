-- ===== src/Circular/Read.antt =====
-- circular_buffer.h: `Read`, against the reading of a plain list.
use aether_client_cpp.Prelude.{
  ℕ, ◌+◌, ◌-◌, ◌≤◌, ◌<◌, ◌≡◌, refl, arith, ap, ltb, ◌==◌, if◌then◌else◌, List, ◌++◌, length, take,
  drop, min, ◌||◌, append-nil,
}
use aether_client_cpp.Ring.{distance}
use aether_client_cpp.Ring.Distance.{
  IsCapacity, plus_lem, distance_chain, distance-lt, plus-distance, distance_round, distance_self,
  eq_of_distance_zero,
}
use aether_client_cpp.Circular.{
  CircularBuffer, CircularBufferError, DSpan, Result, ok, err, empty_buffer, index_out_of_range,
  span, size, read, read_dspan,
}
use aether_client_cpp.Circular.Contents.{
  IsValid, window, contents, length-window, window-span, window-append, take-window, drop-window,
}

-- The bytes that a `Read` shows.
abbrev pub shown : Result DSpan → Result (List ℕ)
shown (ok d) = ok (d.first ++ d.second)
shown (err e) = err e

pub shown_ok :
    (r : Result DSpan) (xs : List ℕ)
    → shown r ≡ ok xs
    → (d : DSpan) × (r ≡ ok d) × (d.first ++ d.second ≡ xs)
shown_ok (ok d) xs h = (d, refl, ground arith)
shown_ok (err e) xs h = cc

pub shown_err : (r : Result DSpan) (e : CircularBufferError) → shown r ≡ err e → r ≡ err e
shown_err (ok d) e h = cc
shown_err (err e') e h = ground arith

-- `Read` of a plain sequence, from the byte at distance `from` on.
unfoldable pub read_list : List ℕ → ℕ → ℕ → Result (List ℕ)
read_list xs from n =
    if length xs == 0 || from == length xs
    then err empty_buffer
    else if ltb (length xs) from
    then err index_out_of_range
    else ok (take n (drop from xs))

module _ {cap : ℕ} (w : IsCapacity cap) (c : CircularBuffer) where
  -- The two spans of a `DSpan` together are the bytes in ring order.
  pub read_dspan_lem :
      (start n : ℕ)
      → start < cap
      → n ≤ cap
      → let d = read_dspan cap c start n in d.first ++ d.second ≡ window cap c.buffer start n
  unfolding read_dspan
  read_dspan_lem start n hs hn = ground (
    arith,
    window-span w c.buffer start n,
    append-nil (span c.buffer start n),
    window-span w c.buffer start (cap - start),
    window-span w c.buffer 0 (n - (cap - start)),
    window-append w c.buffer start (cap - start) (n - (cap - start)) hs,
    plus_lem w start (cap - start) hs,
    ap (window cap c.buffer start) {x = cap - start + (n - (cap - start))} {y = n},
  )

  -- `Read` from an index of the ring, on a buffer with indices in the ring, answers what reading
  -- the list of its contents answers: the bytes from that distance on, at most as many as asked
  -- for, or the same error.
  pub read_refines :
      (v : IsValid cap c) (start n : ℕ)
      → start < cap
      → shown (read cap c start n) ≡ read_list (contents cap c) (distance cap c.begin start) n
  unfolding read read_list contents size
  read_refines v start n hs =
      let o = distance cap c.begin start in
      let held = distance cap c.begin c.end in
      let rest = distance cap start c.end in
      let m = if ltb rest n then rest else n in
      ground (
        arith,
        read_dspan_lem start m hs,
        length-window cap c.buffer c.begin held,
        distance_chain w c.begin start c.end v.begin_in hs v.end_in,
        distance_round w c.begin start c.end v.begin_in hs v.end_in,
        distance-lt w c.begin c.end v.begin_in v.end_in,
        distance-lt w start c.end hs v.end_in,
        distance-lt w c.begin start v.begin_in hs,
        distance_self w c.begin c.begin v.begin_in v.begin_in,
        eq_of_distance_zero w c.begin c.end v.begin_in v.end_in,
        drop-window w c.buffer c.begin o held v.begin_in,
        plus-distance w c.begin start v.begin_in hs,
        take-window w c.buffer start n (held - o) hs,
        ap (window cap c.buffer start) {x = min n (held - o)} {y = m},
      )
