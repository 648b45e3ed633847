-- ===== src/Stream/Sender/Ack.antt =====
-- safe_stream_send_action.h: `Acknowledge`, for the index of a byte that the buffer holds.
use aether_client_cpp.Prelude.{
  ℕ, ◌+◌, ◌-◌, ◌<◌, ◌≡◌, ◌≢◌, inl, inr, refl, arith, ap, sym, ◌∙◌, true, false, if◌then◌else◌, List,
  [], ◌∷◌, ◌++◌, Option, none, drop, Option-cases,
}
use aether_client_cpp.Ring.{make, distance, plus, is_before}
use aether_client_cpp.Ring.Distance.{
  IsCapacity, make-lt, plus-lt, distance-lt, distance_self, distance-plus, distance_chain,
  distance-injective, distance_flip, distance-plus_self,
}
use aether_client_cpp.Ring.Order.{is_before_lem, in_range_lem}
use aether_client_cpp.Circular
use aether_client_cpp.Circular.{CircularBuffer, DSpan, dspan_size, empty_buffer, size}
use aether_client_cpp.Circular.Contents.{contents, size-lt}
use aether_client_cpp.Circular.Erase.{erase_held, erase_lem}
use aether_client_cpp.Chunks.Sending
use aether_client_cpp.Stream.Sender.{
  Sender, RepeatTimer, emit, enqueue_send, is_current, forget_up_to, add_response, accept_ack,
  acknowledge, acknowledged,
}
use aether_client_cpp.Stream.Sender.Invariant.{
  IsWell, on_the_go, pending, enqueue_repeat_timeout_lem,
}

-- A sample of the response time changes nothing else.
add_response_lem :
    (cap : ℕ) (wait : List ℕ → ℕ → ℕ) (s : Sender) (now : ℕ)
    → (stats : List ℕ) × (add_response cap wait s now ≡ record s { response_statistics = stats })
unfolding add_response
add_response_lem capacity wait s now = elim (Option-cases (Sending.front s.sending_chunks)) [
  | inl no_chunk ↦ (s.response_statistics, ground (arith, no_chunk))
  | inr (c, chunk) ↦ (s.response_statistics ++ (now - c.send_time) ∷ [], ground (arith, chunk))
]

-- The sender after the acknowledgement of everything up to `index`, but for what measures time.
settled : ℕ → Sender → ℕ → List ℕ → Option RepeatTimer → Sender
settled cap s index stats timer = record s {
  sending_buffer = record (s.sending_buffer) { begin = plus cap index 1 };
  sending_chunks =
      Sending.set_buffer_begin (Sending.remove_up_to cap s.sending_chunks index) (plus cap index 1);
  last_sent =
      if is_before cap s.sending_buffer.begin s.last_sent index
      then plus cap index 1
      else s.last_sent;
  init_state = false;
  response_statistics = stats;
  repeat_timer = timer;
  send_enqueued = true;
  log = s.log ++ acknowledged s.sending_buffer.begin index ∷ [];
}

module _ {cap : ℕ} (w : IsCapacity cap) (wait : List ℕ → ℕ → ℕ) {s : Sender} (i : IsWell cap s)
    (now offset : ℕ)
    (held : distance cap s.sending_buffer.begin (make cap offset) < size cap s.sending_buffer) where
  index_in : make cap offset < cap
  index_in = make-lt w offset

  is_current_held : is_current cap s (make cap offset) ≡ true
  unfolding is_current size
  is_current_held = ground (
    arith,
    in_range_lem w s.sending_buffer.begin (make cap offset)
        (record { left = s.sending_buffer.begin; right = s.sending_buffer.end }) i.valid.begin_in
        index_in i.valid.begin_in i.valid.end_in,
    distance_self w s.sending_buffer.begin s.sending_buffer.begin i.valid.begin_in i.valid.begin_in,
  )

  after_eq :
      distance cap s.sending_buffer.begin (plus cap (make cap offset) 1)
      ≡ distance cap s.sending_buffer.begin (make cap offset) + 1
  after_eq =
      distance-plus w s.sending_buffer.begin (make cap offset) 1 i.valid.begin_in index_in
        (omega (arith, size-lt w i.valid))

  erased :
      Circular.erase cap s.sending_buffer (plus cap (make cap offset) 1)
      ≡ record (s.sending_buffer) { begin = plus cap (make cap offset) 1 }
  erased =
      erase_held w i.valid (plus cap (make cap offset) 1) (plus-lt w (make cap offset) 1)
        (omega (arith, after_eq))

  accepted :
      (stats : List ℕ) × (timer : Option RepeatTimer) × (acknowledge cap wait s now offset
        ≡ (settled cap s (make cap offset) stats timer, true))
  unfolding acknowledge accept_ack forget_up_to emit enqueue_send settled
  accepted =
      let (stats, e) = add_response_lem cap wait (record s { init_state = false }) now in
      let (timer, e') =
        enqueue_repeat_timeout_lem cap wait (settled cap s (make cap offset) stats none) in
      (stats, timer, rw is_current_held (rw e (rw erased (ap (λ t. (t, true)) e'))))

  abbrev acked : ℕ
  acked = distance cap s.sending_buffer.begin (make cap offset) + 1

  pending-settled :
      (stats : List ℕ) (timer : Option RepeatTimer)
      → pending cap (settled cap s (make cap offset) stats timer) ≡ drop acked (pending cap s)
  unfolding settled
  pending-settled stats timer =
      ap (contents cap) (sym erased)
      ∙ ground (
        arith,
        erase_lem w i.valid (plus cap (make cap offset) 1) (plus-lt w (make cap offset) 1),
        after_eq,
      )

  settled-IsWell :
      make cap offset ≢ s.last_sent
      → (stats : List ℕ) (timer : Option RepeatTimer)
      → IsWell cap (settled cap s (make cap offset) stats timer)
        × (on_the_go cap (settled cap s (make cap offset) stats timer) ≡ on_the_go cap s - acked)
  unfolding settled size Sending.set_buffer_begin
  settled-IsWell other stats timer =
      let index = make cap offset in
      let next = plus cap index 1 in
      let next_in : next < cap = plus-lt w index 1 in
      let moves =
        is_before_lem w s.sending_buffer.begin s.last_sent index i.valid.begin_in i.sent_in
          index_in in
      let still =
        distance_chain w s.sending_buffer.begin next s.last_sent i.valid.begin_in next_in
          i.sent_in in
      let apart =
        distance-injective w s.sending_buffer.begin index s.last_sent i.valid.begin_in index_in
          i.sent_in in
      let rest =
        distance_chain w s.sending_buffer.begin next s.sending_buffer.end i.valid.begin_in next_in
          i.valid.end_in in
      let here = distance_self w next next next_in next_in in
      let go : distance cap next
            (if is_before cap s.sending_buffer.begin s.last_sent index then next else s.last_sent)
          ≡ on_the_go cap s - acked =
        ground (arith, moves, still, apart, after_eq, here) in
      (
        record {
          window = i.window;
          valid = record { begin_in = next_in; end_in = i.valid.end_in };
          sent_in = ground arith;
          sent_held = omega (arith, go, rest, i.sent_held, after_eq, held);
          sent_window = omega (arith, go, i.sent_window);
          begins = refl;
        },
        go,
      )

  -- For a well-formed sender and an index that the buffer holds, other than the one to be sent
  -- next, `Acknowledge` answers true and keeps the sender well-formed. It drops the bytes up to
  -- that index from what is pending and from what is on the way, tells the upper layer, and ends
  -- the initial state.
  pub acknowledge_lem :
      make cap offset ≢ s.last_sent
      → let (s', accepted_now) = acknowledge cap wait s now offset in
        (accepted_now ≡ true)
        × IsWell cap s'
        × (pending cap s' ≡ drop acked (pending cap s))
        × (on_the_go cap s' ≡ on_the_go cap s - acked)
        × (s'.log ≡ s.log ++ acknowledged s.sending_buffer.begin (make cap offset) ∷ [])
        × (s'.init_state ≡ false)
  unfolding settled
  acknowledge_lem other =
      let (stats, timer, e) = accepted in
      let (well, go) = settled-IsWell other stats timer in
      rw e (refl, well, pending-settled stats timer, go, refl, refl)

  -- For a well-formed sender, an acknowledgement of the index that is to be sent next, if the
  -- buffer holds it, is accepted and drops the bytes up to it, but leaves the next index one behind
  -- the buffer's begin: all but one of the ring's indices then count as on the way.
  pub acknowledge_at_last_sent :
      make cap offset ≡ s.last_sent
      → let (s', accepted_now) = acknowledge cap wait s now offset in
        (accepted_now ≡ true)
        × (on_the_go cap s' ≡ cap - 1)
        × (pending cap s' ≡ drop (on_the_go cap s + 1) (pending cap s))
  unfolding settled size
  acknowledge_at_last_sent same =
      let (stats, timer, e) = accepted in
      let index = make cap offset in
      let next = plus cap index 1 in
      let next_in : next < cap = plus-lt w index 1 in
      let two : 1 < cap = omega (
        arith,
        held,
        distance-lt w s.sending_buffer.begin s.sending_buffer.end i.valid.begin_in i.valid.end_in,
      ) in
      let still : is_before cap s.sending_buffer.begin s.last_sent index ≡ false = ground (
        arith,
        is_before_lem w s.sending_buffer.begin s.last_sent index i.valid.begin_in i.sent_in
            index_in,
      ) in
      let behind : distance cap next index ≡ cap - 1 = ground (
        arith,
        distance_flip w next index next_in index_in,
        distance-plus_self w index 1 index_in two,
        distance_self w index index index_in index_in,
      ) in
      rw e (
        refl,
        rw still (ap (distance cap next) (sym same) ∙ behind),
        pending-settled stats timer
            ∙ ap (λ x. drop (distance cap s.sending_buffer.begin x + 1) (pending cap s)) same,
      )
