-- ===== src/Stream/Receiver/Deliver.antt =====
-- safe_stream_recv_action.h: packets that come in keep the receiver on the stream.
use aether_client_cpp.Prelude.{
  ℕ, ◌+◌, ◌-◌, ◌≤◌, ◌<◌, ◌≡◌, inl, inr, refl, arith, ap, ◌∙◌, ltb, true, List, length, drop,
  length-drop, get_or-drop, get_or, Bool-cases,
}
use aether_client_cpp.Ring.{distance, plus, minus}
use aether_client_cpp.Ring.Distance.{IsCapacity, minus-lt, distance_self}
use aether_client_cpp.Chunks.Receiving.{ReceiveChunkList}
use aether_client_cpp.Stream.Positions.{
  index_of, index_of-lt, index_of-plus, distance-index_of, minus-index_of, distance-index_of_behind,
}
use aether_client_cpp.Stream.Receiver.{enqueue_ack, handle_range, handle_data, Receiver}
use aether_client_cpp.Stream.Receiver.Track.{Tracks, Tracks-frame, handle_range-Tracks}

module _ {cap : ℕ} (w : IsCapacity cap) {base : ℕ} {source : ℕ → ℕ} {done : ℕ} {s : Receiver}
    {l : ReceiveChunkList} (t : Tracks cap base source done s l) where
  -- Acknowledging again changes no data.
  pub enqueue_ack-Tracks : Tracks cap base source done (enqueue_ack s) l
  unfolding enqueue_ack
  enqueue_ack-Tracks = Tracks-frame s.recv_enqueued true s.missing_timer s.log refl t

  -- Any piece of the stream may arrive, once or again, early or late, that begins less than the ring
  -- less the window behind what was handed on and ends at most the ring ahead of it.
  module _ (p : ℕ) (bytes : List ℕ) (some_bytes : 0 < length bytes) (one_round : length bytes ≤ cap)
      (not_too_old : done + s.window_size < p + cap) (not_too_new : p + length bytes ≤ done + cap)
      (honest : (i : ℕ) → i < length bytes → get_or bytes i 0 ≡ source (p + i)) where
    last_index :
        minus cap (plus cap (index_of cap base p) (length bytes)) 1
        ≡ index_of cap base (p + length bytes - 1)
    last_index =
        ap (λ i. minus cap i 1)
          (index_of-plus w base p (length bytes) one_round ∙ ap (index_of cap base) (omega arith))
        ∙ minus-index_of w base (p + length bytes - 1)

    last_near :
        distance cap (index_of cap base done) (index_of cap base (p + length bytes - 1))
          ≤ s.window_size
        → (done < p + length bytes)
          × (distance cap (index_of cap base done) (index_of cap base (p + length bytes - 1))
              ≡ p + length bytes - 1 - done)
    last_near h = ground (
      arith,
      t.window,
      distance-index_of w base done (p + length bytes - 1),
      distance-index_of_behind w base done (p + length bytes - 1),
    )

    module _
        (near : distance cap s.buffer.begin
            (minus cap (plus cap (index_of cap base p) (length bytes)) 1)
          ≤ s.window_size) where
      right_eq :
          distance cap
            (index_of cap base done)
            (minus cap (plus cap (index_of cap base p) (length bytes)) 1)
          ≡ p + length bytes - 1 - done
      right_eq =
          ap (distance cap (index_of cap base done)) last_index
          ∙ (last_near (rw (← t.position, ← last_index) near)).1

      last_held : done < p + length bytes
      last_held = (last_near (rw (← t.position, ← last_index) near)).0

      handle_within :
          (n : ℕ)
          → distance cap s.buffer.begin (index_of cap base p) ≤ s.window_size
          → (l' : ReceiveChunkList) × Tracks cap base source done
              (handle_range cap s l
                (record {
                  left = index_of cap base p;
                  right = minus cap (plus cap (index_of cap base p) (length bytes)) 1;
                })
                n
                bytes)
              l'
      handle_within n h =
          let b = index_of cap base done in
          let i = index_of cap base p in
          let left_eq : distance cap s.buffer.begin i ≡ distance cap b i =
            ap (λ x. distance cap x i) t.position in
          let ahead : (done ≤ p) × (distance cap b i ≡ p - done) = ground (
            arith,
            t.window,
            left_eq,
            last_held,
            distance-index_of w base done p,
            distance-index_of_behind w base done p,
          ) in
          handle_range-Tracks w t
            (record { left = i; right = minus cap (plus cap i (length bytes)) 1 }) bytes
            (index_of-lt w base p) (minus-lt w _ 1) some_bytes
            (omega (arith, right_eq, last_held, ahead))
            (omega (
              arith,
              near,
              ap (λ x. distance cap x (minus cap (plus cap i (length bytes)) 1)) t.position,
            ))
            (λ k hk. ground (
              arith,
              honest k hk,
              ahead,
              ap source {x = p + k} {y = done + (distance cap b i + k)},
            ))
            n

      handle_early :
          (n : ℕ)
          → s.window_size < distance cap s.buffer.begin (index_of cap base p)
          → (l' : ReceiveChunkList) × Tracks cap base source done
              (handle_range cap s l
                (record {
                  left = s.buffer.begin;
                  right = minus cap (plus cap (index_of cap base p) (length bytes)) 1;
                })
                n
                (drop (distance cap (index_of cap base p) s.buffer.begin) bytes))
              l'
      handle_early n h =
          let b = index_of cap base done in
          let i = index_of cap base p in
          let right = minus cap (plus cap i (length bytes)) 1 in
          let left_eq : distance cap s.buffer.begin i ≡ distance cap b i =
            ap (λ x. distance cap x i) t.position in
          let near_eq : distance cap s.buffer.begin right ≡ distance cap b right =
            ap (λ x. distance cap x right) t.position in
          let behind : p < done = ground (
            arith,
            t.window,
            left_eq,
            near_eq,
            right_eq,
            last_held,
            distance-index_of w base done p,
          ) in
          let cut_eq : distance cap i s.buffer.begin ≡ done - p =
            ap (distance cap i) t.position
            ∙ distance-index_of w base p done (omega arith) (omega (arith, t.window)) in
          let zero_eq : distance cap b s.buffer.begin ≡ 0 =
            ap (distance cap b) t.position
            ∙ distance_self w b b (index_of-lt w base done) (index_of-lt w base done) in
          let cut = drop (distance cap i s.buffer.begin) bytes in
          let sizes : length cut ≡ length bytes - (done - p) =
            length-drop (distance cap i s.buffer.begin) bytes
            ∙ ap (λ (k : ℕ). length bytes - k) cut_eq in
          handle_range-Tracks w t (record { left = s.buffer.begin; right = right }) cut
            t.valid.begin_in (minus-lt w _ 1) (omega (arith, last_held))
            (omega (arith, right_eq, last_held)) (omega arith)
            (λ k hk. ground (
              arith,
              get_or-drop (distance cap i s.buffer.begin) bytes k 0,
              honest (distance cap i s.buffer.begin + k),
              ap source {x = p + (distance cap i s.buffer.begin + k)}
                  {y = done + (distance cap b s.buffer.begin + k)},
            ))
            n

    -- A piece of the stream that arrives keeps the receiver on the stream, whatever came before it.
    pub handle_data-Tracks :
        (n : ℕ)
        → (l' : ReceiveChunkList) × Tracks cap base source done
            (handle_data cap s l (index_of cap base p) n bytes)
            l'
    unfolding handle_data
    handle_data-Tracks n =
        let i = index_of cap base p in
        let right = minus cap (plus cap i (length bytes)) 1 in
        elim (Bool-cases (ltb s.window_size (distance cap s.buffer.begin right))) [
          | inl old ↦ rw (handle_data, old) (l, enqueue_ack-Tracks)
          | inr new ↦ elim (Bool-cases (ltb s.window_size (distance cap s.buffer.begin i))) [
            | inl early ↦
                rw (handle_data, new, early) (handle_early (ground arith) n (ground arith))
            | inr within ↦
                rw (handle_data, new, within) (handle_within (ground arith) n (ground arith))
          ]
        ]
