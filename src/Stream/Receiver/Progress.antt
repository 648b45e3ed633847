-- ===== src/Stream/Receiver/Progress.antt =====
-- safe_stream_recv_action.h: how much one run of the receiver's task hands on.
use aether_client_cpp.Prelude.{
  ℕ, zero, suc, ◌+◌, ◌≤◌, ◌<◌, ◌≡◌, ◌≢◌, ◌⊎◌, inl, inr, refl, arith, ap, sym, ◌∙◌, ltb, Bool, true,
  false, if◌then◌else◌, Bool-cases,
}
use aether_client_cpp.Ring.{is_empty, RingRange, distance}
use aether_client_cpp.Ring.Distance.{IsCapacity, distance-lt, eq_of_distance_zero}
use aether_client_cpp.Circular.{read}
use aether_client_cpp.Circular.Read.{shown}
use aether_client_cpp.Chunks.Receiving.{ReceiveChunkList, empty, receive_chunk, receive_loop}
use aether_client_cpp.Chunks.Receiving.Ranges.{covered}
use aether_client_cpp.Chunks.Receiving.Chain.{receive_from_begin}
use aether_client_cpp.Stream.Positions.{index_of, index_of-lt, segment}
use aether_client_cpp.Stream.Receiver.{
  Receiver, handle_chain, handle_completed_chains, on_recv_task,
}
use aether_client_cpp.Stream.Receiver.Track.{Tracks, Tracks-frame, emitted}
use aether_client_cpp.Stream.Receiver.Emit.{emit_chain-Tracks, read_ok}
use aether_client_cpp.Stream.Receiver.Run.{
  chain_range, count_eq, enqueue_missing-Tracks, is_empty-false, is_empty-true,
}

-- For how many numbers from 0 on, up to a limit, a test holds.
unfoldable pub run_length : (ℕ → Bool) → ℕ → ℕ
run_length p zero = 0
run_length p (suc n) = let rest = run_length (λ k. p (suc k)) n in if p 0 then suc rest else 0

run_length_lem :
    (p : ℕ → Bool) (limit n : ℕ)
    → n ≤ limit
    → ((k : ℕ) → k < n → p k ≡ true)
    → p n ≡ false
    → run_length p limit ≡ n
unfolding run_length
run_length_lem p zero n h all stop = omega arith
run_length_lem p (suc limit) zero h all stop = ground (arith, stop)
run_length_lem p (suc limit) (suc n) h all stop = rw (all 0 (omega arith)) (
    ap suc (
      run_length_lem (λ k. p (suc k)) limit n (omega arith) (λ k hk. all (suc k) (omega arith))
        stop))

run_length-le : (p : ℕ → Bool) (limit n : ℕ) → p n ≡ false → run_length p limit ≤ n
unfolding run_length
run_length-le p zero n stop = omega arith
run_length-le p (suc limit) zero stop = ground (arith, stop)
run_length-le p (suc limit) (suc n) stop =
    ground (arith, run_length-le (λ k. p (suc k)) limit n stop)

-- How many bytes from the buffer's begin on have arrived without a gap.
unfoldable pub gapless : ℕ → ReceiveChunkList → ℕ
gapless cap l = run_length (covered cap l.buffer_begin l.ranges) cap

-- What `HandleCompletedChains` takes for a chain: a single byte is not one.
unfoldable pub chain_length : ℕ → ReceiveChunkList → ℕ
chain_length cap l = if ltb 1 (gapless cap l) then gapless cap l else 0

module _ {cap : ℕ} (w : IsCapacity cap) {base : ℕ} {source : ℕ → ℕ} {done : ℕ} {s : Receiver}
    {l : ReceiveChunkList} (t : Tracks cap base source done s l) where
  gapless_at : gapless cap l ≡ run_length (covered cap (index_of cap base done) l.ranges) cap
  unfolding gapless
  gapless_at = ap (λ b. run_length (covered cap b l.ranges) cap) t.begins

  short_lem :
      (covered cap (index_of cap base done) l.ranges 0 ≡ false)
        ⊎ (covered cap (index_of cap base done) l.ranges 1 ≡ false)
      → gapless cap l ≤ 1
  short_lem (inl stop) =
      ground (
        arith,
        gapless_at,
        run_length-le (covered cap (index_of cap base done) l.ranges) cap 0 stop,
      )
  short_lem (inr stop) =
      ground (
        arith,
        gapless_at,
        run_length-le (covered cap (index_of cap base done) l.ranges) cap 1 stop,
      )

  handle_chain-emitted :
      emitted (handle_chain cap s l (receive_chunk cap l)).log
      ≡ segment source 0 (done + chain_length cap l)
  unfolding chain_length handle_chain
  handle_chain-emitted =
      let b = index_of cap base done in
      let right = receive_loop cap b b b l.ranges in
      let range : RingRange = record { left = b; right = right } in
      let reach = receive_from_begin w b (index_of-lt w base done) 0 l.ranges t.chain in
      rw (chain_range w t) (elim (Bool-cases (is_empty range)) [
        | inl none_yet ↦
            let short : gapless cap l ≤ 1 =
              short_lem (reach.1 (is_empty-true w t b right none_yet)) in
            rw none_yet
              ((enqueue_missing-Tracks w t).prefix ∙ ap (segment source 0) (ground (arith, short)))
        | inr more ↦
            let (inside, all, stop) = reach.0 (is_empty-false w t b right more) in
            let d = distance cap b right in
            let d_lt : d < cap = distance-lt w b right (index_of-lt w base done) inside in
            let count = count_eq w t right (omega arith) in
            let apart : d ≢ 0 = λ e.
              is_empty-false w t b right more
                (sym (eq_of_distance_zero w b right (index_of-lt w base done) inside e)) in
            let n : gapless cap l ≡ d + 1 =
              gapless_at
              ∙ run_length_lem (covered cap b l.ranges) cap (d + 1) (omega arith)
                  (λ k hk. all k (omega arith)) stop in
            let after =
              emit_chain-Tracks w t right inside all _
                (ap (λ n. shown (read cap s.buffer b n)) count ∙ read_ok w t right inside all) in
            rw more
              (after.prefix ∙ ap (λ k. segment source 0 (done + k)) (ground (arith, n, apart)))
      ])

-- When the receive task of a receiver on a stream is due and chunks wait, the run hands on all
-- bytes that have arrived without a gap from the buffer's begin on; but if that is only a single
-- byte, it hands on nothing.
pub receive_progress :
    {cap base done : ℕ} {source : ℕ → ℕ} {s : Receiver} {l : ReceiveChunkList}
    → IsCapacity cap
    → Tracks cap base source done s l
    → s.recv_enqueued ≡ true
    → empty l ≡ false
    → emitted (on_recv_task cap s).log ≡ segment source 0 (done + chain_length cap l)
unfolding on_recv_task handle_completed_chains
receive_progress {cap} {s = s} {l = l} w t due waiting =
    ap (λ (r : Receiver). emitted r.log) run
    ∙ handle_chain-emitted w (Tracks-frame false s.ack_timer s.missing_timer s.log refl t)
  where
    run :
        on_recv_task cap s
        ≡ handle_chain cap (record s { recv_enqueued = false }) l (receive_chunk cap l)
    run = ground (arith, due, waiting, t.current)
