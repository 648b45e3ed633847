-- ===== src/Circular/Push.antt =====
-- circular_buffer.h: `Push`, by the bytes that the buffer then holds.
use aether_client_cpp.Prelude.{
  ℕ, ◌+◌, ◌-◌, ◌≤◌, ◌<◌, ◌≡◌, refl, arith, ap, ltb, leb, false, if◌then◌else◌, List, [], ◌++◌,
  length, get_or, eq_of_get_or, ◌∙◌, ap₂, length-append, get_or-append_left, get_or-append_right,
  append-nil,
}
use aether_client_cpp.Ring.{distance, plus, minus, is_after}
use aether_client_cpp.Ring.Distance.{
  IsCapacity, distance_lem, plus_lem, plus-lt, distance-plus_self, distance-lt, distance_round,
  distance_self,
}
use aether_client_cpp.Ring.Order.{is_after_lem}
use aether_client_cpp.Circular.{CircularBuffer, ok, err, data_overflow, size, insert, push}
use aether_client_cpp.Circular.Contents.{
  IsValid, window, contents, length-window, get_or-window, length-contents,
}
use aether_client_cpp.Circular.Insert.{
  insert_fits, insert_overflow, insert_at, size-insert, begin-insert, insert-IsValid,
}

module _ {cap : ℕ} (w : IsCapacity cap) {c : CircularBuffer} (v : IsValid cap c) where
  -- Contents from the bytes at each distance: a buffer that holds the old bytes and then the new.
  contents_of_bytes :
      (c' : CircularBuffer) (bytes : List ℕ)
      → size cap c + length bytes ≤ cap
      → c'.begin ≡ c.begin
      → size cap c' ≡ size cap c + length bytes
      → ((k : ℕ) → k < size cap c → c'.buffer (plus cap c.begin k) ≡ c.buffer (plus cap c.begin k))
      → ((k : ℕ)
          → k < length bytes
          → c'.buffer (plus cap c.begin (size cap c + k)) ≡ get_or bytes k 0)
      → contents cap c' ≡ contents cap c ++ bytes
  unfolding contents
  contents_of_bytes c' bytes h begins sizes head tail =
      let n = size cap c in
      let old = window cap c.buffer c.begin n in
      let all = window cap c'.buffer c.begin (n + length bytes) in
      let before : length old ≡ n = length-window cap c.buffer c.begin n in
      let after : length all ≡ n + length bytes =
        length-window cap c'.buffer c.begin (n + length bytes) in
      ap₂ (window cap c'.buffer) begins sizes
      ∙ eq_of_get_or all (old ++ bytes) 0 (omega (arith, length-append old bytes)) λ k hk. ground (
        arith,
        get_or-window w c'.buffer c.begin (n + length bytes) k v.begin_in,
        get_or-append_left old bytes k 0,
        get_or-append_right old bytes k 0,
        get_or-window w c.buffer c.begin n k v.begin_in,
        head k,
        tail (k - n),
        ap (λ (j : ℕ). get_or bytes j 0) {x = k - length old} {y = k - n},
        ap (plus cap c.begin) {x = n + (k - n)} {y = k},
      )

  -- `Push` of data that leaves room appends it.
  push-append :
      (bytes : List ℕ)
      → size cap c + length bytes < cap
      → contents cap (push cap c bytes).0 ≡ contents cap c ++ bytes
  unfolding push size
  push-append bytes h =
      contents_of_bytes (insert cap c c.end bytes).0 bytes (omega arith)
        (begin-insert w v c.end bytes v.end_in)
        (omega (arith, size-insert w v c.end bytes v.end_in h))
        (λ k hk. ground (arith, insert_at w v c.end bytes v.end_in h k))
        (λ k hk.
          let n = distance cap c.begin c.end in
          ground (
            arith,
            insert_at w v c.end bytes v.end_in h (n + k),
            ap (λ (j : ℕ). get_or bytes j 0) {x = n + k - n} {y = k},
          ))

  -- `Push` of data that takes all the room that is left reports success, and the buffer holds what
  -- it held: the end index comes round to the begin index and is not moved.
  push-fill :
      (bytes : List ℕ)
      → size cap c + length bytes ≡ cap
      → contents cap (push cap c bytes).0 ≡ contents cap c
  unfolding push size
  push-fill bytes h =
      let n = distance cap c.begin c.end in
      let (buffer', cp, e) = insert_fits w v c.end bytes v.end_in (omega arith) in
      let pos = plus cap c.end (length bytes) in
      let round : pos ≡ c.begin = ground (
        arith,
        plus_lem w c.end (length bytes) v.end_in,
        distance_lem w c.begin c.end v.begin_in v.end_in,
      ) in
      let still : is_after cap c.begin pos c.end ≡ false = ground (
        arith,
        is_after_lem w c.begin pos c.end v.begin_in (plus-lt w c.end (length bytes)) v.end_in,
        distance_self w c.begin c.begin v.begin_in v.begin_in,
      ) in
      rw e (
        rw still (
          contents_of_bytes (record c { buffer = buffer' }) [] (omega arith) refl (omega arith)
            (λ k hk. ground (
              arith,
              cp.kept (plus cap c.begin k) (plus-lt w c.begin k),
              distance-plus_self w c.begin k v.begin_in,
              distance_round w c.begin c.end (plus cap c.begin k) v.begin_in v.end_in
                  (plus-lt w c.begin k),
              distance-lt w c.begin c.end v.begin_in v.end_in,
            ))
            (λ k hk. absurd (omega arith))
          ∙ append-nil _))

  push-overflow :
      (bytes : List ℕ) → cap < size cap c + length bytes → push cap c bytes ≡ (c, err data_overflow)
  unfolding push size
  push-overflow bytes h = insert_overflow w v c.end bytes v.end_in h

  push-range :
      (bytes : List ℕ)
      → size cap c + length bytes ≤ cap
      → (push cap c bytes).1
        ≡ ok (record { left = c.end; right = minus cap (plus cap c.end (length bytes)) 1 })
  unfolding push size
  push-range bytes h = ap (λ r. r.1) (insert_fits w v c.end bytes v.end_in h).2

  pub push-IsValid : (bytes : List ℕ) → IsValid cap (push cap c bytes).0
  unfolding push
  push-IsValid bytes = insert-IsValid w v c.end bytes v.end_in

  -- On a buffer with indices in the ring, `Push` appends data that leaves room to the contents.
  -- Data that takes exactly the room left is reported as pushed, while the contents are what they
  -- were. More data is refused with an overflow and no change. A success reports the range of the
  -- data, and the indices stay in the ring.
  pub push_refines :
      (bytes : List ℕ)
      → (contents cap (push cap c bytes).0 ≡ (
          if ltb (size cap c + length bytes) cap then contents cap c ++ bytes else contents cap c))
        × ((push cap c bytes).1 ≡ (
            if leb (size cap c + length bytes) cap
            then ok (record { left = c.end; right = minus cap (plus cap c.end (length bytes)) 1 })
            else err data_overflow))
        × IsValid cap (push cap c bytes).0
  push_refines bytes = (
    ground (arith, push-append bytes, push-fill bytes, push-overflow bytes),
    ground (arith, push-range bytes, push-overflow bytes),
    push-IsValid bytes,
  )

  pub begin-push : (bytes : List ℕ) → (push cap c bytes).0.begin ≡ c.begin
  unfolding push
  begin-push bytes = begin-insert w v c.end bytes v.end_in

  pub size-push-le : (bytes : List ℕ) → size cap c ≤ size cap (push cap c bytes).0
  size-push-le bytes = ground (
    arith,
    (push_refines bytes).0,
    length-contents w c,
    length-contents w (push cap c bytes).0,
    length-append (contents cap c) bytes,
    ap length (push_refines bytes).0,
  )
