-- ===== src/Stream/Sender.antt =====
-- aether/safe_stream/details/safe_stream_send_action.h: the sending side. Each callback is an
-- operation of its own; `log` holds what the action emitted and pushed, oldest first.
pub mod Invariant
pub mod Send
pub mod Full
pub mod Ack
use aether_client_cpp.Prelude.{
  ℕ, zero, suc, ◌+◌, ◌-◌, ◌%◌, ◌==◌, ltb, min, Bool, true, false, if◌then◌else◌, List, [], ◌∷◌,
  ◌++◌, Option, none, some,
}
use aether_client_cpp.Prelude.Sizes.{sub_size, to_uint16, to_uint8}
use aether_client_cpp.Ring.{
  RingIndex, RingRange, make, distance, plus, minus, is_before, is_after, in_range,
}
use aether_client_cpp.Circular
use aether_client_cpp.Circular.{
  Bytes, CircularBuffer, CircularBufferError, DSpan, empty_buffer, index_out_of_range,
  data_overflow, dspan_size,
}
use aether_client_cpp.Chunks.Sending
use aether_client_cpp.Chunks.Sending.{Chunk, SendingChunkList}
use aether_client_cpp.Stream.Message.{
  DataMessage, SafeStreamConfig, CodeResult, done, failed, WriteStatus, success, fail, stop,
}

pub data Event : Type 0 where
  acknowledged send_failed stopped : RingIndex → RingIndex → Event
  pushed : ℕ → DataMessage → Event

-- `repeat_timer_`, while its task waits: the range that the task repeats and when it is due.
pub record RepeatTimer : Type 0 where
  pub range : RingRange
  pub due : ℕ

-- `response_statistics_` is kept as the list of all durations added, oldest first.
pub record Sender : Type 0 where
  pub max_repeat_count : ℕ
  pub window_size : ℕ
  pub max_payload_size : ℕ
  pub sending_buffer : CircularBuffer
  pub sending_chunks : SendingChunkList
  pub last_sent : RingIndex
  pub init_state : Bool
  pub response_statistics : List ℕ
  pub repeat_timer : Option RepeatTimer
  pub send_enqueued : Bool
  pub log : List Event

unfoldable pub emit : Sender → Event → Sender
emit s e = record s { log = s.log ++ e ∷ [] }

unfoldable pub enqueue_send : Sender → Sender
enqueue_send s = record s { send_enqueued = true }

pub count_repeat : Chunk → Chunk
count_repeat c = record c { repeat_count = to_uint8 (c.repeat_count + 1) }

module _ (cap : ℕ) where
  -- The constructor; `offset` is what `RandomOffset` drew.
  pub init : SafeStreamConfig → ℕ → Bytes → Sender
  init config offset memory = record {
    max_repeat_count = config.max_repeat_count;
    window_size = config.window_size;
    max_payload_size = 0;
    sending_buffer = record { begin = make cap offset; end = make cap offset; buffer = memory };
    sending_chunks = Sending.init (make cap offset);
    last_sent = make cap offset;
    init_state = true;
    response_statistics = config.wait_ack_timeout ∷ [];
    repeat_timer = none;
    send_enqueued = false;
    log = [];
  }

  pub finish_send_data :
      Sender → CircularBuffer × Circular.Result RingRange → Sender × CodeResult RingRange
  finish_send_data s (buffer, Circular.ok range) =
      (enqueue_send (record s { sending_buffer = buffer }), done range)
  finish_send_data s (buffer, Circular.err e) = (record s { sending_buffer = buffer }, failed 1)

  pub send_data : Sender → List ℕ → Sender × CodeResult RingRange
  send_data s bytes = finish_send_data s (Circular.push cap s.sending_buffer bytes)

  unfoldable pub stop_range : Sender → RingRange → Sender
  stop_range s range = elim (Sending.select cap s.sending_chunks range) [
    | some chunk ↦ s
    | none ↦
        let s1 = emit s (stopped s.sending_buffer.begin range.right) in
        record s1 { sending_buffer = Circular.erase_from cap s1.sending_buffer range.left }
  ]

  -- The test of `Acknowledge` and `RequestRepeat`; the range's right end is the buffer's end index.
  pub is_current : Sender → RingIndex → Bool
  is_current s index =
      in_range cap (record { left = s.sending_buffer.begin; right = s.sending_buffer.end }) index
        s.sending_buffer.begin

  pub request_repeat : Sender → ℕ → Sender
  request_repeat s request_offset =
      let index = make cap request_offset in
      if is_current s index then enqueue_send (record s { last_sent = index }) else s

  unfoldable pub set_max_payload : Sender → ℕ → Sender
  set_max_payload s max_payload_size =
      enqueue_send (record s { max_payload_size = max_payload_size })

  -- `RejectSend`, and the tail that it shares with `Acknowledge`: forget everything up to an index.
  pub forget_up_to : Sender → RingIndex → Sender
  forget_up_to s index =
      let buffer = Circular.erase cap s.sending_buffer (plus cap index 1) in
      record s {
        sending_buffer = buffer;
        sending_chunks =
            Sending.set_buffer_begin (Sending.remove_up_to cap s.sending_chunks index) buffer.begin;
      }

  pub reject_send : Sender → RingIndex → Sender
  reject_send s end_index =
      let s1 = forget_up_to (emit s (send_failed s.sending_buffer.begin end_index)) end_index in
      enqueue_send (record s1 { last_sent = s1.sending_buffer.begin })

  pub process_repeat : Sender → RingRange → Sender
  process_repeat s range =
      if Sending.empty s.sending_chunks
      then s
      else enqueue_send (record s {
        last_sent =
            if ltb s.window_size (distance cap s.sending_buffer.begin range.left)
            then s.sending_buffer.begin
            else range.left;
      })

  pub payload_size : Sender → ℕ
  payload_size s =
      min s.max_payload_size
        (sub_size s.window_size (distance cap s.sending_buffer.begin s.last_sent))

  pub read_result : Circular.Result DSpan → CodeResult DSpan
  read_result (Circular.ok d) = done d
  read_result (Circular.err empty_buffer) = failed 0
  read_result (Circular.err data_overflow) = failed 1
  read_result (Circular.err index_out_of_range) = failed 1

  -- A full window is an empty span, not an error.
  pub get_next_chunk : Sender → CodeResult DSpan
  get_next_chunk s =
      if payload_size s == 0
      then done (record { first = []; second = [] })
      else read_result (Circular.read cap s.sending_buffer s.last_sent (payload_size s))

  abbrev pub chunk_range : Sender → DSpan → RingRange
  chunk_range s d = record {
    left = s.last_sent;
    right = minus cap (plus cap s.last_sent (dspan_size d)) 1;
  }

  -- The chunk as `RegisterChunk` leaves it.
  pub next_chunk : Sender → DSpan → ℕ → Chunk
  next_chunk s d now = count_repeat (Sending.registered s.sending_chunks (chunk_range s d) now)

  -- The continuation of `GetNextChunk` in `SendChunk`: the new index, and the registered chunk.
  pub register_chunk : Sender → DSpan → ℕ → Sender
  register_chunk s d now = record s {
    last_sent = plus cap s.last_sent (dspan_size d);
    sending_chunks = Sending.register s.sending_chunks (chunk_range s d) now count_repeat;
  }

  pub push_data : Sender → DSpan → RingIndex → ℕ → Sender
  push_data s d data_index repeat_count = emit s (
      pushed (to_uint16 s.sending_buffer.begin) (record {
        reset = s.init_state;
        repeat_count = repeat_count;
        delta_offset = to_uint16 (distance cap s.sending_buffer.begin data_index);
        bytes = d.first ++ d.second;
      }))

  -- The callback on the status of a pushed chunk, whose last byte is at `end_index`.
  pub on_write_status : Sender → RingIndex → WriteStatus → Sender
  on_write_status s end_index success = s
  on_write_status s end_index fail = enqueue_send (
      if is_after cap s.sending_buffer.begin s.last_sent end_index
      then record s { last_sent = end_index }
      else s)
  on_write_status s end_index stop = enqueue_send (
      if is_after cap s.sending_buffer.begin s.last_sent end_index
      then record s { last_sent = end_index }
      else s)

  -- `wait_timeout` stands for the 99th percentile of the durations in the statistics' window, grown
  -- with the repeat count, in floating point.
  module _ (wait_timeout : List ℕ → ℕ → ℕ) where
    pub enqueue_repeat_timeout : Sender → Sender
    enqueue_repeat_timeout s = elim s.repeat_timer [
      | some t ↦ s
      | none ↦ elim (Sending.front s.sending_chunks) [
        | none ↦ s
        | some c ↦ record s {
          repeat_timer = some (record {
            range = c.range;
            due = c.send_time + wait_timeout s.response_statistics c.repeat_count;
          });
        }
      ]
    ]

    -- The task of `repeat_timer_`.
    pub on_repeat_timer : Sender → Sender
    on_repeat_timer s = elim s.repeat_timer [
      | none ↦ s
      | some t ↦ process_repeat (record s { repeat_timer = none }) t.range
    ]

    pub add_response : Sender → ℕ → Sender
    add_response s now = elim (Sending.front s.sending_chunks) [
      | none ↦ s
      | some c ↦ record s {
        response_statistics = s.response_statistics ++ (now - c.send_time) ∷ [];
      }
    ]

    pub accept_ack : Sender → ℕ → RingIndex → Sender
    accept_ack s now index =
        let s1 = add_response (record s { init_state = false }) now in
        let s2 = record s1 {
          last_sent =
              if is_before cap s1.sending_buffer.begin s1.last_sent index
              then plus cap index 1
              else s1.last_sent;
        } in
        let s3 = forget_up_to (emit s2 (acknowledged s2.sending_buffer.begin index)) index in
        enqueue_repeat_timeout (record (enqueue_send s3) { repeat_timer = none })

    pub acknowledge : Sender → ℕ → ℕ → Sender × Bool
    acknowledge s now confirm_offset =
        let index = make cap confirm_offset in
        if is_current s index then (accept_ack s now index, true) else (s, false)

    -- `SendChunk` once the chunk is registered.
    pub send_registered : Sender → DSpan → Chunk → Sender
    send_registered s d chunk =
        if ltb s.max_repeat_count chunk.repeat_count
        then reject_send s (minus cap s.last_sent 1)
        else if dspan_size d == 0
        then s
        else enqueue_repeat_timeout
            (enqueue_send (push_data s d chunk.range.left (to_uint8 (chunk.repeat_count + 255))))

    pub send_next : Sender → ℕ → CodeResult DSpan → Sender
    send_next s now (done d) = send_registered (register_chunk s d now) d (next_chunk s d now)
    send_next s now (failed zero) = s
    send_next s now (failed (suc code)) = reject_send s (minus cap s.last_sent 1)

    pub send_chunk : Sender → ℕ → Sender
    send_chunk s now = if s.max_payload_size == 0 then s else send_next s now (get_next_chunk s)

    -- The task of `send_enqueued_`.
    pub on_send_task : Sender → ℕ → Sender
    on_send_task s now =
        if s.send_enqueued then send_chunk (record s { send_enqueued = false }) now else s
