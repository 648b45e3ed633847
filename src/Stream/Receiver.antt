-- ===== src/Stream/Receiver.antt =====
-- aether/safe_stream/details/safe_stream_recv_action.h: the receiving side. Each callback is an
-- operation of its own; `log` holds what the action emitted and sent, oldest first.
pub mod Track
pub mod Deliver
pub mod Emit
pub mod Run
pub mod Progress
pub mod Session
use aether_client_cpp.Prelude.{
  ℕ, zero, suc, ◌+◌, ◌-◌, ◌%◌, ◌==◌, ltb, not, ◌&&◌, ◌||◌, Bool, true, false, if◌then◌else◌, List,
  [], ◌∷◌, ◌++◌, Option, none, some, length, drop,
}
use aether_client_cpp.Prelude.Sizes.{add_size, to_uint16}
use aether_client_cpp.Ring.{
  RingIndex, RingRange, make, distance, plus, minus, is_empty, range_distance,
}
use aether_client_cpp.Circular
use aether_client_cpp.Circular.{Bytes, CircularBuffer, DSpan}
use aether_client_cpp.Chunks.Receiving
use aether_client_cpp.Chunks.Receiving.{
  ReceiveChunkList, ChunkAddResult, invalid, duplicate, added, add_repeated,
}
use aether_client_cpp.Stream.Message.{DataMessage, SafeStreamConfig}

pub data Event : Type 0 where
  received : List ℕ → Event
  sent_ack sent_repeat_request : ℕ → Event

-- The three task subscriptions are kept as whether their task waits.
pub record Receiver : Type 0 where
  pub window_size : ℕ
  pub buffer : CircularBuffer
  pub chunks : Option ReceiveChunkList
  pub session_offset : ℕ
  pub last_emitted : RingIndex
  pub recv_enqueued : Bool
  pub ack_timer : Bool
  pub missing_timer : Bool
  pub log : List Event

pub emit : Receiver → Event → Receiver
emit s e = record s { log = s.log ++ e ∷ [] }

pub enqueue_recv : Receiver → Receiver
enqueue_recv s = record s { recv_enqueued = true }

pub enqueue_ack : Receiver → Receiver
enqueue_ack s = record s { ack_timer = true }

pub enqueue_missing : Receiver → Receiver
enqueue_missing s = record s { missing_timer = true }

pub init : SafeStreamConfig → Bytes → Receiver
init config memory = record {
  window_size = config.window_size;
  buffer = record { begin = 0; end = 0; buffer = memory };
  chunks = none;
  session_offset = 0;
  last_emitted = 0;
  recv_enqueued = false;
  ack_timer = false;
  missing_timer = false;
  log = [];
}

-- The task of `ack_timer_`.
pub on_ack_timer : Receiver → Receiver
on_ack_timer s =
    if s.ack_timer
    then record (emit s (sent_ack (to_uint16 s.last_emitted))) { ack_timer = false }
    else s

module _ (cap : ℕ) where
  -- The part of `HandleData` on the result of `AddChunk`. A failed `Insert` is only logged.
  pub handle_added : Receiver → RingIndex → List ℕ → ChunkAddResult → Receiver
  handle_added s left bytes duplicate = s
  handle_added s left bytes add_repeated = enqueue_ack s
  handle_added s left bytes invalid =
      enqueue_recv (record s { buffer = (Circular.insert cap s.buffer left bytes).0 })
  handle_added s left bytes added =
      enqueue_recv (record s { buffer = (Circular.insert cap s.buffer left bytes).0 })

  pub handle_range : Receiver → ReceiveChunkList → RingRange → ℕ → List ℕ → Receiver
  handle_range s chunks range repeat_count bytes =
      let (chunks', result) = Receiving.add_chunk cap chunks range repeat_count in
      handle_added (record s { chunks = some chunks' }) range.left bytes result

  -- Data that begins before the buffer does is cut to begin with it; old data is acknowledged again.
  pub handle_data : Receiver → ReceiveChunkList → RingIndex → ℕ → List ℕ → Receiver
  handle_data s chunks index repeat_count bytes =
      let right = minus cap (plus cap index (length bytes)) 1 in
      if ltb s.window_size (distance cap s.buffer.begin right)
      then enqueue_ack s
      else if ltb s.window_size (distance cap s.buffer.begin index)
      then handle_range s chunks (record { left = s.buffer.begin; right = right }) repeat_count
          (drop (distance cap index s.buffer.begin) bytes)
      else handle_range s chunks (record { left = index; right = right }) repeat_count bytes

  -- A new session starts at the sender's index with an empty buffer.
  pub reset_session : Receiver → ℕ → Receiver
  reset_session s index =
      let buffer = Circular.reset cap s.buffer index in
      record s {
        session_offset = index;
        buffer = buffer;
        chunks = some (Receiving.init buffer.begin);
      }

  unfoldable pub received_index : ℕ → ℕ → RingIndex
  received_index index delta_offset = make cap (add_size index delta_offset)

  pub start_session : Receiver → ℕ → DataMessage → Receiver
  start_session s index m =
      let s1 = reset_session s index in
      handle_data s1 (Receiving.init s1.buffer.begin) (received_index index m.delta_offset)
        m.repeat_count m.bytes

  pub push_data : Receiver → ℕ → DataMessage → Receiver
  push_data s index m = elim s.chunks [
    | none ↦ start_session s index m
    | some chunks ↦
        if m.reset && not (s.session_offset == index)
        then start_session s index m
        else handle_data s chunks (received_index index m.delta_offset) m.repeat_count m.bytes
  ]

  -- The two outcomes of the `Read` in `HandleCompletedChains`.
  pub emit_chain : Receiver → ReceiveChunkList → RingRange → Circular.Result DSpan → Receiver
  emit_chain s chunks range (Circular.ok d) =
      let s1 = emit (record s { last_emitted = range.right }) (received (d.first ++ d.second)) in
      let buffer = Circular.erase cap s1.buffer (plus cap range.right 1) in
      enqueue_ack (record s1 {
        buffer = buffer;
        chunks = some (
            Receiving.set_buffer_begin (Receiving.acknowledge cap chunks range.right) buffer.begin);
      })
  emit_chain s chunks range (Circular.err e) = enqueue_missing s

  pub handle_chain : Receiver → ReceiveChunkList → RingRange → Receiver
  handle_chain s chunks range =
      if is_empty range
      then enqueue_missing s
      else emit_chain s chunks range
          (Circular.read cap s.buffer range.left (add_size (range_distance cap range) 1))

  pub handle_completed_chains : Receiver → Receiver
  handle_completed_chains s = elim s.chunks [
    | none ↦ s
    | some chunks ↦
        if Receiving.empty chunks
        then s
        else handle_chain s chunks (Receiving.receive_chunk cap chunks)
  ]

  -- The task of `recv_enqueued_`.
  pub on_recv_task : Receiver → Receiver
  on_recv_task s =
      if s.recv_enqueued then handle_completed_chains (record s { recv_enqueued = false }) else s

  pub handle_missing : Receiver → Receiver
  handle_missing s = elim s.chunks [
    | none ↦ s
    | some chunks ↦ elim (Receiving.find_missed_chunk cap chunks) [
      | none ↦ s
      | some missed ↦ enqueue_missing (emit s (sent_repeat_request (to_uint16 missed.left)))
    ]
  ]

  -- The task of `missing_timer_`, which is reset before it may be set again.
  pub on_missing_timer : Receiver → Receiver
  on_missing_timer s =
      if s.missing_timer then handle_missing (record s { missing_timer = false }) else s
