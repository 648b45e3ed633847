-- ===== src/Stream/Receiver/Session.antt =====
-- safe_stream_recv_action.h: the receiver over a session, whatever the link does to the packets.
use aether_client_cpp.Prelude.{
  ℕ, ◌+◌, ◌/◌, ◌%◌, ◌≤◌, ◌<◌, subst, ◌≡◌, refl, arith, ap, sym, ◌∙◌, ◌==◌, Bool, true, false, not,
  ◌&&◌, if◌then◌else◌, Option, none, some, length, get_or,
}
use aether_client_cpp.Ring.{RingRange, make}
use aether_client_cpp.Ring.Distance.{IsCapacity, distance_self, make-lt}
use aether_client_cpp.Circular.{CircularBuffer, DSpan, Result, ok, err, size, read, erase}
use aether_client_cpp.Chunks.Receiving.{
  ReceiveChunkList, empty, acknowledge, set_buffer_begin, acknowledge_ranges, receive_chunk,
  receive_loop,
}
use aether_client_cpp.Stream.Positions.{segment, index_of, length-segment}
use aether_client_cpp.Stream.Message.{DataMessage, SafeStreamConfig}
use aether_client_cpp.Chunks.Receiving as ReceivingList
use aether_client_cpp.Chunks.Receiving.{find_missed_chunk}
use aether_client_cpp.Prelude.Sizes.{to_uint16}
use aether_client_cpp.Circular
use aether_client_cpp.Circular.{Bytes}
use aether_client_cpp.Stream.Receiver.{
  enqueue_missing, emit, received_index, push_data, reset_session, start_session, on_recv_task,
  on_ack_timer, on_missing_timer, handle_missing, handle_data, init, enqueue_missing, Receiver,
  sent_repeat_request,
}
use aether_client_cpp.Stream.Receiver.Track.{
  Tracks, Tracks-frame, emitted-sent_ack, emitted-sent_repeat_request, emitted,
}
use aether_client_cpp.Stream.Receiver.Run.{handle_completed_chains-Advanced}
use aether_client_cpp.Stream.Receiver.Deliver.{handle_data-Tracks}

-- A packet that carries the piece of `source` from position `p` on. Its begin is less than the ring
-- less the window behind the end of what the receiver has handed on, and its end is at most the ring
-- ahead of that.
pub record IsPiece (cap base : ℕ) (source : ℕ → ℕ) (s : Receiver) (index : ℕ) (m : DataMessage)
    (p : ℕ) : Type 0 where
  pub same_session : (m.reset && not (s.session_offset == index)) ≡ false
  pub place : received_index cap index m.delta_offset ≡ index_of cap base p
  pub some_bytes : 0 < length m.bytes
  pub one_round : length m.bytes ≤ cap
  pub not_too_old : length (emitted s.log) + s.window_size < p + cap
  pub not_too_new : p + length m.bytes ≤ length (emitted s.log) + cap
  pub honest : (i : ℕ) → i < length m.bytes → get_or m.bytes i 0 ≡ source (p + i)

-- What can happen to a receiver in a session: a packet arrives, or one of its tasks runs.
pub data Step (cap base : ℕ) (source : ℕ → ℕ) : Receiver → Receiver → Type 0 where
  packet :
      (s : Receiver) (index : ℕ) (m : DataMessage) (p : ℕ)
      → IsPiece cap base source s index m p
      → Step cap base source s (push_data cap s index m)
  receive : (s : Receiver) → Step cap base source s (on_recv_task cap s)
  ack : (s : Receiver) → Step cap base source s (on_ack_timer s)
  missing : (s : Receiver) → Step cap base source s (on_missing_timer cap s)

pub data Reach (cap base : ℕ) (source : ℕ → ℕ) (s : Receiver) : Receiver → Type 0 where
  here : Reach cap base source s s
  next :
      {t u : Receiver}
      → Reach cap base source s t
      → Step cap base source t u
      → Reach cap base source s u

-- The receiver is on the stream.
abbrev pub OnStream : ℕ → ℕ → (ℕ → ℕ) → Receiver → Type 0
OnStream cap base source s = (done : ℕ) × (l : ReceiveChunkList) × Tracks cap base source done s l

OnStream-if :
    {cap base : ℕ} {source : ℕ → ℕ} {s u : Receiver} (b : Bool)
    → OnStream cap base source s
    → OnStream cap base source u
    → OnStream cap base source (if b then s else u)
OnStream-if true x y = x
OnStream-if false x y = y

module _ {cap : ℕ} (w : IsCapacity cap) {base : ℕ} {source : ℕ → ℕ} where
  done_lem :
      {done : ℕ} {s : Receiver} {l : ReceiveChunkList}
      → Tracks cap base source done s l
      → length (emitted s.log) ≡ done
  done_lem {done} t = ap length t.prefix ∙ length-segment source 0 done

  module _ {done : ℕ} {s : Receiver} {l : ReceiveChunkList}
      (t : Tracks cap base source done s l) where
    packet-OnStream :
        (index : ℕ) (m : DataMessage) (p : ℕ)
        → IsPiece cap base source s index m p
        → OnStream cap base source (push_data cap s index m)
    unfolding push_data
    packet-OnStream index m p v =
        let after =
          handle_data-Tracks w t p m.bytes v.some_bytes v.one_round
            (omega (arith, done_lem t, v.not_too_old)) (omega (arith, done_lem t, v.not_too_new))
            v.honest m.repeat_count in
        (
          done,
          after.0,
          subst (λ r. Tracks cap base source done r after.0) (sym (delivered ∙ there)) after.1,
        )
      where
        delivered :
            push_data cap s index m
            ≡ handle_data cap s l (received_index cap index m.delta_offset) m.repeat_count m.bytes
        delivered = ground (arith, t.current, v.same_session)

        there :
            handle_data cap s l (received_index cap index m.delta_offset) m.repeat_count m.bytes
            ≡ handle_data cap s l (index_of cap base p) m.repeat_count m.bytes
        there = ap (λ i. handle_data cap s l i m.repeat_count m.bytes) v.place

    receive-OnStream : OnStream cap base source (on_recv_task cap s)
    unfolding on_recv_task
    receive-OnStream =
        OnStream-if s.recv_enqueued
          (let (n, l', t') =
              handle_completed_chains-Advanced w
                (Tracks-frame false s.ack_timer s.missing_timer s.log refl t) in
            (done + n, l', t'))
          (done, l, t)

    ack-OnStream : OnStream cap base source (on_ack_timer s)
    unfolding on_ack_timer emit
    ack-OnStream =
        OnStream-if s.ack_timer
          (
            done,
            l,
            Tracks-frame s.recv_enqueued false s.missing_timer _ (emitted-sent_ack s.log _) t,
          )
          (done, l, t)

    handle_missing-OnStream : OnStream cap base source (handle_missing cap s)
    unfolding handle_missing enqueue_missing emit
    handle_missing-OnStream =
        subst (OnStream cap base source) (sym handled) (asked (find_missed_chunk cap l))
      where
        answer : Option RingRange → Receiver
        answer none = s
        answer (some missed) =
            enqueue_missing (emit s (sent_repeat_request (to_uint16 missed.left)))

        handled : handle_missing cap s ≡ answer (find_missed_chunk cap l)
        handled = ground (arith, t.current)

        asked : (o : Option RingRange) → OnStream cap base source (answer o)
        asked none = (done, l, t)
        asked (some missed) = (
          done,
          l,
          Tracks-frame s.recv_enqueued s.ack_timer true _ (emitted-sent_repeat_request s.log _) t,
        )

  module _ {done : ℕ} {s : Receiver} {l : ReceiveChunkList}
      (t : Tracks cap base source done s l) where
    missing-OnStream : OnStream cap base source (on_missing_timer cap s)
    unfolding on_missing_timer
    missing-OnStream =
        OnStream-if s.missing_timer
          (handle_missing-OnStream (Tracks-frame s.recv_enqueued s.ack_timer false s.log refl t))
          (done, l, t)

  Step-OnStream :
      {s u : Receiver}
      → Step cap base source s u
      → OnStream cap base source s
      → OnStream cap base source u
  Step-OnStream (packet s index m p v) (done, l, t) = packet-OnStream t index m p v
  Step-OnStream (receive s) (done, l, t) = receive-OnStream t
  Step-OnStream (ack s) (done, l, t) = ack-OnStream t
  Step-OnStream (missing s) (done, l, t) = missing-OnStream t

  pub Reach-OnStream :
      {s u : Receiver}
      → Reach cap base source s u
      → OnStream cap base source s
      → OnStream cap base source u
  Reach-OnStream here o = o
  Reach-OnStream (next r st) o = Step-OnStream st (Reach-OnStream r o)

-- A receiver that has not heard from its peer, with the session that the first packet starts.
module _ {cap : ℕ} (w : IsCapacity cap) (source : ℕ → ℕ) (config : SafeStreamConfig)
    (memory : Bytes) (window : config.window_size < cap / 2) (index : ℕ) where
  reset_session-Tracks :
      Tracks cap index source 0
        (reset_session cap (init config memory) index)
        (ReceivingList.init (reset_session cap (init config memory) index).buffer.begin)
  unfolding reset_session init ReceivingList.init Circular.reset index_of make emitted segment
  reset_session-Tracks =
      let start_lt : index % cap < cap = make-lt w index in
      let nothing : size cap (record { begin = index % cap; end = index % cap; buffer = memory })
          ≡ 0 =
        unfold size in distance_self w (index % cap) (index % cap) start_lt start_lt in
      let here : index % cap ≡ (index + 0) % cap = ap (λ (k : ℕ). k % cap) (omega arith) in
      record {
        window = window;
        valid = record { begin_in = start_lt; end_in = start_lt };
        current = refl;
        position = here;
        begins = here;
        chain = tt;
        held = λ k h. cc;
        small = omega arith;
        agrees = λ k h. cc;
        prefix = refl;
      }

  -- Start a receiver whose window is less than half of the ring, with a first packet that carries
  -- at least one byte of a stream, within one ring of the stream's begin. Let then any packets that
  -- carry pieces of the same stream arrive, repeated and in any order, each of which begins less
  -- than the ring less the window behind the end of what has been handed on when it comes, and ends
  -- at most the ring ahead of that, and let the receive, ack and missing tasks run in any order.
  -- What has been handed on is a prefix of the stream: nothing is lost, repeated or out of order.
  pub session_prefix :
      (m : DataMessage) (p : ℕ) {s : Receiver}
      → received_index cap index m.delta_offset ≡ index_of cap index p
      → 0 < length m.bytes
      → p + length m.bytes ≤ cap
      → ((i : ℕ) → i < length m.bytes → get_or m.bytes i 0 ≡ source (p + i))
      → Reach cap index source (push_data cap (init config memory) index m) s
      → emitted s.log ≡ segment source 0 (length (emitted s.log))
  unfolding push_data start_session init
  session_prefix m p place some_bytes fits honest r =
      let t = reset_session-Tracks in
      let first =
        handle_data-Tracks w t p m.bytes some_bytes (omega arith) (omega arith) (omega arith) honest
          m.repeat_count in
      let s1 = reset_session cap (init config memory) index in
      let l1 = ReceivingList.init s1.buffer.begin in
      let there : handle_data cap s1 l1 (index_of cap index p) m.repeat_count m.bytes
          ≡ push_data cap (init config memory) index m =
        ap (λ i. handle_data cap s1 l1 i m.repeat_count m.bytes) (sym place) in
      let (done, l, t') =
        Reach-OnStream w r (subst (OnStream cap index source) there (0, first.0, first.1)) in
      t'.prefix ∙ ap (segment source 0) (sym (done_lem w t'))
