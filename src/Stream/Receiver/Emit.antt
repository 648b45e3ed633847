-- ===== src/Stream/Receiver/Emit.antt =====
-- safe_stream_recv_action.h: what `HandleCompletedChains` hands on is the next part of the stream.
use aether_client_cpp.Prelude.{
  ℕ, ◌+◌, ◌≤◌, ◌<◌, ◌≡◌, inr, refl, arith, ap, ap₂, sym, ◌∙◌, true, ◌++◌, length, take, get_or-take,
  length-take, eq_of_get_or,
}
use aether_client_cpp.Ring.{distance, plus}
use aether_client_cpp.Ring.Distance.{
  IsCapacity, plus-lt, distance_self, distance-lt, distance-plus, plus-distance,
}
use aether_client_cpp.Circular.{DSpan, Result, ok, err, size, read, erase}
use aether_client_cpp.Circular.Contents.{contents, size-lt, length-contents, get_or-window}
use aether_client_cpp.Circular.Read.{shown, read_list, read_refines}
use aether_client_cpp.Circular.Erase.{erase_held, size-erase_held}
use aether_client_cpp.Chunks.Receiving.{
  ReceiveChunkList, acknowledge, set_buffer_begin, acknowledge_ranges,
}
use aether_client_cpp.Chunks.Receiving.Ranges.{
  IsChain, covered, acknowledge_ranges-IsChain, covered-acknowledge_ranges, ranges-acknowledge,
  buffer_begin-set_buffer_begin,
}
use aether_client_cpp.Stream.Positions.{
  segment, index_of, length-segment, get_or-segment, segment-append, index_of-lt, index_of-plus,
}
use aether_client_cpp.Stream.Receiver.{emit, enqueue_ack, emit_chain, Receiver}
use aether_client_cpp.Stream.Receiver.Track.{Tracks, emitted-received}

module _ {cap : ℕ} (w : IsCapacity cap) {base : ℕ} {source : ℕ → ℕ} {done : ℕ} {s : Receiver}
    {l : ReceiveChunkList} (t : Tracks cap base source done s l) where
  -- Bytes that the ranges cover from the begin on are the stream's.
  take-contents :
      (n : ℕ)
      → ((k : ℕ) → k < n → covered cap (index_of cap base done) l.ranges k ≡ true)
      → n ≤ size cap s.buffer
      → take n (contents cap s.buffer) ≡ segment source done n
  unfolding contents
  take-contents n all h =
      let xs = contents cap s.buffer in
      let sizes : length (take n xs) ≡ n =
        omega (arith, length-take n xs, length-contents w s.buffer) in
      eq_of_get_or (take n xs) (segment source done n) 0
        (omega (arith, length-segment source done n))
        λ k hk. ground (
          arith,
          get_or-take n xs k 0,
          get_or-window w s.buffer.buffer s.buffer.begin (size cap s.buffer) k t.valid.begin_in,
          size-lt w t.valid,
          ap (λ b. plus cap b k) t.position,
          t.agrees k (all k (omega arith)),
          get_or-segment source done n k,
        )

  module _ (right : ℕ) (hr : right < cap)
      (all : (k : ℕ)
        → k ≤ distance cap (index_of cap base done) right
        → covered cap (index_of cap base done) l.ranges k ≡ true) where
    pub within : distance cap (index_of cap base done) right + 1 ≤ size cap s.buffer
    within =
        omega (arith, t.held (distance cap (index_of cap base done) right) (all _ (omega arith)))

    pub read_ok :
        shown (
          read cap s.buffer
            (index_of cap base done)
            (distance cap (index_of cap base done) right + 1))
        ≡ ok (segment source done (distance cap (index_of cap base done) right + 1))
    unfolding read_list
    read_ok =
        let b = index_of cap base done in
        let n = distance cap b right + 1 in
        let here : distance cap s.buffer.begin b ≡ 0 =
          ap (λ x. distance cap x b) t.position
          ∙ distance_self w b b (index_of-lt w base done) (index_of-lt w base done) in
        read_refines w s.buffer t.valid b n (index_of-lt w base done)
        ∙ ap (λ x. read_list (contents cap s.buffer) x n) here
        ∙ ground (
          arith,
          length-contents w s.buffer,
          within,
          take-contents n (λ k hk. all k (omega arith)) within,
        )

    -- The index after the part that is handed on is the stream's.
    next_position :
        plus cap right 1
        ≡ index_of cap base (done + (distance cap (index_of cap base done) right + 1))
    next_position =
        let b = index_of cap base done in
        ap (λ x. plus cap x 1)
          (sym (plus-distance w b right (index_of-lt w base done) hr)
            ∙ index_of-plus w base done (distance cap b right)
                (omega (arith, distance-lt w b right (index_of-lt w base done) hr)))
        ∙ index_of-plus w base (done + distance cap b right) 1 w.positive
        ∙ ap (index_of cap base) (omega arith)

    -- The chunk list after the part is acknowledged.
    pub acknowledged : ReceiveChunkList
    acknowledged = set_buffer_begin (acknowledge cap l right) (plus cap right 1)

    ranges-acknowledged :
        acknowledged.ranges ≡ acknowledge_ranges cap (index_of cap base done) right l.ranges
    unfolding acknowledged
    ranges-acknowledged =
        ranges-acknowledge cap right (plus cap right 1) l
        ∙ ap (λ b. acknowledge_ranges cap b right l.ranges) t.begins

    IsChain-acknowledged :
        IsChain cap
          (index_of cap base (done + (distance cap (index_of cap base done) right + 1)))
          0
          acknowledged.ranges
    IsChain-acknowledged =
        rw (ranges-acknowledged, ← next_position)
          (acknowledge_ranges-IsChain w (index_of cap base done) (index_of-lt w base done) right hr
            (omega (arith, within, size-lt w t.valid)) 0 0 l.ranges (inr refl) t.chain)

    covered-acknowledged :
        (k : ℕ)
        → covered cap
            (index_of cap base (done + (distance cap (index_of cap base done) right + 1)))
            acknowledged.ranges
            k
          ≡ covered cap
              (index_of cap base done)
              l.ranges
              (k + (distance cap (index_of cap base done) right + 1))
    covered-acknowledged k =
        rw (ranges-acknowledged, ← next_position)
          (covered-acknowledge_ranges w (index_of cap base done) (index_of-lt w base done) right hr
            (omega (arith, within, size-lt w t.valid)) 0 l.ranges k t.chain)

    to_eq :
        distance cap s.buffer.begin (plus cap right 1)
        ≡ distance cap (index_of cap base done) right + 1
    to_eq =
        ap (λ x. distance cap x (plus cap right 1)) t.position
        ∙ distance-plus w (index_of cap base done) right 1 (index_of-lt w base done) hr
            (omega (arith, within, size-lt w t.valid))

    erased : erase cap s.buffer (plus cap right 1) ≡ record (s.buffer) { begin = plus cap right 1 }
    erased =
        erase_held w t.valid (plus cap right 1) (plus-lt w right 1) (omega (arith, within, to_eq))

    size_erased :
        size cap (record (s.buffer) { begin = plus cap right 1 })
          + (distance cap (index_of cap base done) right + 1)
        ≡ size cap s.buffer
    size_erased =
        omega
          (arith, to_eq, within, size-erase_held w t.valid (plus cap right 1) (plus-lt w right 1))

    pub emit_chain-Tracks :
        (r : Result DSpan)
        → shown r ≡ ok (segment source done (distance cap (index_of cap base done) right + 1))
        → Tracks cap base source
            (done + (distance cap (index_of cap base done) right + 1))
            (emit_chain cap s l (record { left = index_of cap base done; right = right }) r)
            acknowledged
    unfolding emit_chain enqueue_ack emit acknowledged
    emit_chain-Tracks (err e) h = absurd (cc)
    emit_chain-Tracks (ok d) h =
        let n = distance cap (index_of cap base done) right + 1 in
        rw erased (record {
          window = t.window;
          valid = record { begin_in = plus-lt w right 1; end_in = t.valid.end_in };
          current = refl;
          position = next_position;
          begins = buffer_begin-set_buffer_begin _ _ ∙ next_position;
          chain = IsChain-acknowledged;
          held = λ k hk.
              omega (arith, size_erased, t.held (k + n) (sym (covered-acknowledged k) ∙ hk));
          small = omega (arith, size_erased, t.small);
          agrees = λ k hk.
              ap (s.buffer.buffer) (
                index_of-plus w base (done + n) k (
                  omega
                    (arith, size-lt w t.valid, t.held (k + n) (sym (covered-acknowledged k) ∙ hk)))
                ∙ ap (index_of cap base) (omega arith)
                ∙ sym (
                    index_of-plus w base done (k + n) (
                      omega (
                        arith,
                        size-lt w t.valid,
                        t.held (k + n) (sym (covered-acknowledged k) ∙ hk),
                      ))))
              ∙ t.agrees (k + n) (sym (covered-acknowledged k) ∙ hk)
              ∙ ap source (omega arith);
          prefix =
              emitted-received s.log (d.first ++ d.second)
              ∙ ap₂ ◌++◌ t.prefix (ground (arith, h))
              ∙ segment-append source 0 done n;
        })
