-- ===== src/Stream/Receiver/Run.antt =====
-- safe_stream_recv_action.h: the receiver over any sequence of packets and tasks.
use aether_client_cpp.Prelude.{
  ℕ, ◌+◌, ◌<◌, subst, ◌≡◌, ◌≢◌, inl, inr, refl, arith, ap, sym, ◌∙◌, true, false, if◌then◌else◌,
  Bool-cases,
}
use aether_client_cpp.Ring.{is_empty, range_distance, RingRange, distance}
use aether_client_cpp.Ring.Distance.{IsCapacity, distance-lt}
use aether_client_cpp.Circular.{read}
use aether_client_cpp.Circular.Read.{shown}
use aether_client_cpp.Chunks.Receiving.{ReceiveChunkList, empty, receive_chunk, receive_loop}
use aether_client_cpp.Stream.Positions.{index_of, index_of-lt}
use aether_client_cpp.Stream.Receiver.{
  enqueue_missing, handle_chain, handle_completed_chains, Receiver,
}
use aether_client_cpp.Stream.Receiver.Track.{Tracks, Tracks-frame}
use aether_client_cpp.Stream.Receiver.Emit.{emit_chain-Tracks, read_ok, acknowledged}
use aether_client_cpp.Prelude.Sizes.{add_size}
use aether_client_cpp.Chunks.Receiving.Chain.{receive_from_begin}

-- The task of the receiver hands on the next bytes of the stream, if they are there.
module _ {cap : ℕ} (w : IsCapacity cap) {base : ℕ} {source : ℕ → ℕ} {done : ℕ} {s : Receiver}
    {l : ReceiveChunkList} (t : Tracks cap base source done s l) where
  pub enqueue_missing-Tracks : Tracks cap base source done (enqueue_missing s) l
  unfolding enqueue_missing
  enqueue_missing-Tracks = Tracks-frame s.recv_enqueued s.ack_timer true s.log refl t

  pub is_empty-false :
      (b right : ℕ) → is_empty (record { left = b; right = right }) ≡ false → right ≢ b
  unfolding is_empty
  is_empty-false b right h e = ground arith

  pub is_empty-true :
      (b right : ℕ) → is_empty (record { left = b; right = right }) ≡ true → right ≡ b
  unfolding is_empty
  is_empty-true b right h = ground arith

  pub count_eq :
      (right : ℕ)
      → distance cap (index_of cap base done) right < cap
      → add_size (range_distance cap (record { left = index_of cap base done; right = right })) 1
        ≡ distance cap (index_of cap base done) right + 1
  unfolding range_distance
  count_eq right h = omega (arith, w.small)

  pub chain_range : receive_chunk cap l ≡ record {
    left = index_of cap base done;
    right =
        receive_loop cap
          (index_of cap base done)
          (index_of cap base done)
          (index_of cap base done)
          l.ranges;
  }
  unfolding receive_chunk
  chain_range = ap (λ b. record { left = b; right = receive_loop cap b b b l.ranges }) t.begins

  -- The rest of the stream that the chain hands on, and where it ends.
  abbrev pub Advanced : Receiver → Type 0
  Advanced s' = (n : ℕ) × (l' : ReceiveChunkList) × Tracks cap base source (done + n) s' l'

  pub unmoved :
      {s' : Receiver} {l' : ReceiveChunkList} → Tracks cap base source done s' l' → Advanced s'
  unmoved {s'} {l'} t' = (0, l', subst (λ d. Tracks cap base source d s' l') (omega arith) t')

  handle_chain-Advanced : Advanced (handle_chain cap s l (receive_chunk cap l))
  unfolding handle_chain
  handle_chain-Advanced =
      let b = index_of cap base done in
      let right = receive_loop cap b b b l.ranges in
      let range : RingRange = record { left = b; right = right } in
      let reach = receive_from_begin w b (index_of-lt w base done) 0 l.ranges t.chain in
      rw chain_range (elim (Bool-cases (is_empty range)) [
        | inl none_yet ↦ rw (none_yet, handle_chain) (unmoved enqueue_missing-Tracks)
        | inr more ↦
            let (inside, all, _) = reach.0 (is_empty-false b right more) in
            let count : add_size (range_distance cap range) 1 ≡ distance cap b right + 1 =
              count_eq right
                (omega (arith, distance-lt w b right (index_of-lt w base done) inside)) in
            rw (more, handle_chain)
              (
                distance cap b right + 1,
                acknowledged w t right inside all,
                emit_chain-Tracks w t right inside all _
                    (ap (λ n. shown (read cap s.buffer b n)) count ∙ read_ok w t right inside all),
              )
      ])

  pub handle_completed_chains-Advanced : Advanced (handle_completed_chains cap s)
  unfolding handle_completed_chains
  handle_completed_chains-Advanced =
      subst Advanced (sym completed_lem) (elim (Bool-cases (empty l)) [
        | inl nothing ↦ rw nothing (unmoved t)
        | inr some_chunks ↦ rw some_chunks handle_chain-Advanced
      ])
    where
      completed_lem :
          handle_completed_chains cap s
          ≡ (if empty l then s else handle_chain cap s l (receive_chunk cap l))
      completed_lem = ground (arith, t.current)
