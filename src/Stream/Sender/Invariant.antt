-- ===== src/Stream/Sender/Invariant.antt =====
-- safe_stream_send_action.h: what the sender keeps true of its indices.
use aether_client_cpp.Prelude.{
  ℕ, ◌+◌, ◌/◌, ◌≤◌, ◌<◌, ◌≡◌, inl, inr, refl, arith, ap, sym, ◌∙◌, Bool, List, Option, none, some,
  drop, Option-cases,
}
use aether_client_cpp.Ring.{RingRange, distance, plus, minus}
use aether_client_cpp.Ring.Distance.{IsCapacity, distance_self, plus-minus}
use aether_client_cpp.Ring.Order.{is_after_lem}
use aether_client_cpp.Circular
use aether_client_cpp.Circular.{CircularBuffer, DSpan, size}
use aether_client_cpp.Circular.Contents.{IsValid, contents}
use aether_client_cpp.Circular.Push.{begin-push, size-push-le, push-IsValid}
use aether_client_cpp.Circular.Erase.{erase_held, erase_lem}
use aether_client_cpp.Chunks.Sending
use aether_client_cpp.Stream.Message.{WriteStatus, success, fail, stop}
use aether_client_cpp.Stream.Sender.{
  Sender, RepeatTimer, Event, emit, enqueue_send, finish_send_data, send_data, forget_up_to,
  reject_send, on_write_status, enqueue_repeat_timeout,
}

-- What is on the way is held by the buffer and fits the window, and the chunk list measures from
-- the buffer's begin.
pub record IsWell (cap : ℕ) (s : Sender) : Type 0 where
  pub window : s.window_size < cap / 2
  pub valid : IsValid cap s.sending_buffer
  pub sent_in : s.last_sent < cap
  pub sent_held : distance cap s.sending_buffer.begin s.last_sent ≤ size cap s.sending_buffer
  pub sent_window : distance cap s.sending_buffer.begin s.last_sent ≤ s.window_size
  pub begins : s.sending_chunks.buffer_begin ≡ s.sending_buffer.begin

-- The bytes on the way.
abbrev pub on_the_go : ℕ → Sender → ℕ
on_the_go cap s = distance cap s.sending_buffer.begin s.last_sent

-- The bytes that wait for an acknowledgement or for being sent.
abbrev pub pending : ℕ → Sender → List ℕ
pending cap s = contents cap s.sending_buffer

pub IsWell-frame :
    {cap : ℕ} {s : Sender} (payload : ℕ) (fresh : Bool) (stats : List ℕ)
    (timer : Option RepeatTimer) (due : Bool) (log : List Event)
    → IsWell cap s
    → IsWell cap (record s {
      max_payload_size = payload;
      init_state = fresh;
      response_statistics = stats;
      repeat_timer = timer;
      send_enqueued = due;
      log = log;
    })
IsWell-frame payload fresh stats timer due log i = record {
  window = i.window;
  valid = i.valid;
  sent_in = i.sent_in;
  sent_held = i.sent_held;
  sent_window = i.sent_window;
  begins = i.begins;
}

-- `EnqueueRepeatTimeout` sets the timer and nothing else.
pub enqueue_repeat_timeout_lem :
    (cap : ℕ) (wait : List ℕ → ℕ → ℕ) (s : Sender)
    → (timer : Option RepeatTimer) × (enqueue_repeat_timeout cap wait s
        ≡ record s { repeat_timer = timer })
unfolding enqueue_repeat_timeout
enqueue_repeat_timeout_lem capacity wait s = elim (Option-cases s.repeat_timer) [
  | inr (t, set) ↦ (some t, ground (arith, set))
  | inl unset ↦ elim (Option-cases (Sending.front s.sending_chunks)) [
    | inl no_chunk ↦ (none, ground (arith, unset, no_chunk))
    | inr (c, chunk) ↦ (
      some (record {
        range = c.range;
        due = c.send_time + wait s.response_statistics c.repeat_count;
      }),
      ground (arith, unset, chunk),
    )
  ]
]

module _ {cap : ℕ} (w : IsCapacity cap) {s : Sender} (i : IsWell cap s) where
  grown :
      (r : CircularBuffer × Circular.Result RingRange)
      → r.0.begin ≡ s.sending_buffer.begin
      → size cap s.sending_buffer ≤ size cap r.0
      → IsValid cap r.0
      → IsWell cap (finish_send_data cap s r).0
  unfolding finish_send_data enqueue_send
  grown (c, Circular.ok range) e h v = record {
    window = i.window;
    valid = v;
    sent_in = i.sent_in;
    sent_held = ground (arith, i.sent_held, ap (λ b. distance cap b s.last_sent) e);
    sent_window = ground (arith, i.sent_window, ap (λ b. distance cap b s.last_sent) e);
    begins = i.begins ∙ sym e;
  }
  grown (c, Circular.err e') e h v = record {
    window = i.window;
    valid = v;
    sent_in = i.sent_in;
    sent_held = ground (arith, i.sent_held, ap (λ b. distance cap b s.last_sent) e);
    sent_window = ground (arith, i.sent_window, ap (λ b. distance cap b s.last_sent) e);
    begins = i.begins ∙ sym e;
  }

  -- `SendData` keeps a well-formed sender well-formed, whether the data fits or not.
  pub send_data-IsWell : (bytes : List ℕ) → IsWell cap (send_data cap s bytes).0
  unfolding send_data
  send_data-IsWell bytes =
      grown (Circular.push cap s.sending_buffer bytes) (begin-push w i.valid bytes)
        (size-push-le w i.valid bytes) (push-IsValid w i.valid bytes)

  -- Each status of a pushed chunk, whose last byte is at an index of the ring, keeps a well-formed
  -- sender well-formed.
  pub on_write_status-IsWell :
      (end_index : ℕ) (status : WriteStatus)
      → end_index < cap
      → IsWell cap (on_write_status cap s end_index status)
  unfolding on_write_status enqueue_send
  on_write_status-IsWell end_index success h = i
  on_write_status-IsWell end_index fail h = ground (
    arith,
    i,
    is_after_lem w s.sending_buffer.begin s.last_sent end_index i.valid.begin_in i.sent_in h,
  )
  on_write_status-IsWell end_index stop h = ground (
    arith,
    i,
    is_after_lem w s.sending_buffer.begin s.last_sent end_index i.valid.begin_in i.sent_in h,
  )

  -- `RejectSend` of everything before the index to be sent next keeps a well-formed sender well-
  -- formed, drops just what was on the way from what is pending, and leaves nothing on the way.
  pub reject_send-IsWell :
      let s' = reject_send cap s (minus cap s.last_sent 1) in
      IsWell cap s'
      × (pending cap s' ≡ drop (on_the_go cap s) (pending cap s))
      × (on_the_go cap s' ≡ 0)
  unfolding reject_send forget_up_to emit enqueue_send Sending.set_buffer_begin
  reject_send-IsWell =
      let here : plus cap (minus cap s.last_sent 1) 1 ≡ s.last_sent =
        plus-minus w s.last_sent 1 i.sent_in w.positive in
      let erased : Circular.erase cap s.sending_buffer (plus cap (minus cap s.last_sent 1) 1)
          ≡ record (s.sending_buffer) { begin = s.last_sent } =
        ap (Circular.erase cap s.sending_buffer) here
        ∙ erase_held w i.valid s.last_sent i.sent_in i.sent_held in
      let at_begin : distance cap s.last_sent s.last_sent ≡ 0 =
        distance_self w s.last_sent s.last_sent i.sent_in i.sent_in in
      rw erased (
        record {
          window = i.window;
          valid = record { begin_in = i.sent_in; end_in = i.valid.end_in };
          sent_in = i.sent_in;
          sent_held = omega (arith, at_begin);
          sent_window = omega (arith, at_begin);
          begins = refl;
        },
        ground (
          arith,
          erase_lem w i.valid s.last_sent i.sent_in,
          i.sent_held,
          ap (contents cap) (erase_held w i.valid s.last_sent i.sent_in i.sent_held),
        ),
        at_begin,
      )
