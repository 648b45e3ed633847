-- ===== src/Stream/Safe.antt =====
-- aether/safe_stream/safe_stream.h: the stream that joins a sender and a receiver with the calls of
-- safe_stream_api.h. `outputs` holds the calls made on the stream below, `out_data` what is handed
-- to the user, `statuses` what the writes reported, each oldest first.
pub mod Writes
use aether_client_cpp.Prelude.{
  ℕ, ◌+◌, ltb, Bool, true, false, not, if◌then◌else◌, List, [], ◌∷◌, ◌++◌, Option, none, some, map,
  erase_if,
}
use aether_client_cpp.Prelude.Sizes.{sub_size}
use aether_client_cpp.Ring.{RingIndex, RingRange, before_or_at}
use aether_client_cpp.Circular.{Bytes}
use aether_client_cpp.Stream.Message.{
  DataMessage, SafeStreamConfig, CodeResult, done, failed, WriteStatus, success, fail, stop,
}
use aether_client_cpp.Stream.Sender
use aether_client_cpp.Stream.Sender.{Sender}
use aether_client_cpp.Stream.Receiver
use aether_client_cpp.Stream.Receiver.{Receiver}

pub data LinkState : Type 0 where
  unlinked linked link_error : LinkState

pub record StreamInfo : Type 0 where
  pub rec_element_size : ℕ
  pub max_element_size : ℕ
  pub is_reliable : Bool
  pub link_state : LinkState
  pub is_writable : Bool

-- The four methods of `SafeStreamApi` with their arguments.
pub data ApiCall : Type 0 where
  ack_call request_repeat_call : ℕ → ApiCall
  send_reset_call send_call : ℕ → ℕ → ℕ → List ℕ → ApiCall

-- An entry of `sswas_`; `id` stands for the identity of the `SSWriteAction`.
pub record Write : Type 0 where
  pub index : RingIndex
  pub id : ℕ
  pub index_range : RingRange

pub record SafeStream : Type 0 where
  pub config : SafeStreamConfig
  pub sender : Sender
  pub receiver : Receiver
  pub sswas : List Write
  pub next_id : ℕ
  pub stream_info : StreamInfo
  pub outputs : List ApiCall
  pub out_data : List (List ℕ)
  pub statuses : List (ℕ × WriteStatus)

unfoldable pub api_call : ApiCall → SafeStream → SafeStream
api_call c s = record s { outputs = s.outputs ++ c ∷ [] }

-- `PushData` of the stream: which call carries a message.
unfoldable pub data_call : ℕ → DataMessage → ApiCall
data_call begin_offset m =
    if m.reset
    then send_reset_call begin_offset m.delta_offset m.repeat_count m.bytes
    else send_call begin_offset m.delta_offset m.repeat_count m.bytes

-- `WriteOut`, `SendAck` and `SendRepeatRequest`.
pub on_receiver_event : SafeStream → Receiver.Event → SafeStream
on_receiver_event s (Receiver.received bytes) = record s { out_data = s.out_data ++ bytes ∷ [] }
on_receiver_event s (Receiver.sent_ack index) = api_call (ack_call index) s
on_receiver_event s (Receiver.sent_repeat_request index) = api_call (request_repeat_call index) s

pub on_receiver_events : SafeStream → List Receiver.Event → SafeStream
on_receiver_events s [] = s
on_receiver_events s (e ∷ es) = on_receiver_events (on_receiver_event s e) es

-- An operation of the receiver, with the handlers of what it emits.
pub with_receiver : SafeStream → Receiver → SafeStream
with_receiver s receiver =
    on_receiver_events (record s { receiver = record receiver { log = [] } }) receiver.log

pub status_of : WriteStatus → Write → ℕ × WriteStatus
status_of status w = (w.id, status)

-- The payload that `OnStreamUpdate` sets: the overhead of a call is 8 bytes.
unfoldable pub payload_of : ℕ → ℕ
payload_of rec_element_size = if ltb 0 rec_element_size then sub_size rec_element_size 8 else 0

pub run_ack : SafeStream → SafeStream
run_ack s = with_receiver s (Receiver.on_ack_timer s.receiver)

module _ (cap : ℕ) where
  -- The constructor; `memory` and `recv_memory` are what the buffers' arrays hold at first.
  pub init : SafeStreamConfig → ℕ → Bytes → Bytes → SafeStream
  init config offset memory recv_memory = record {
    config = config;
    sender = Sender.init cap config offset memory;
    receiver = Receiver.init config recv_memory;
    sswas = [];
    next_id = 0;
    stream_info = record {
      rec_element_size = config.max_packet_size;
      max_element_size = config.max_packet_size;
      is_reliable = false;
      link_state = unlinked;
      is_writable = false;
    };
    outputs = [];
    out_data = [];
    statuses = [];
  }

  -- Whether `WriteAcknowledged` and `WriteFailed` finish a write.
  abbrev pub is_up_to : RingIndex → RingIndex → Write → Bool
  is_up_to begin to w = before_or_at cap begin w.index to

  -- `WriteAcknowledged` and `WriteFailed`: what comes up to an index gets its status and is removed.
  pub finish_writes : WriteStatus → RingIndex → RingIndex → SafeStream → SafeStream
  finish_writes status begin to s = record s {
    statuses =
        s.statuses ++ map (status_of status) (erase_if (λ w. not (is_up_to begin to w)) s.sswas);
    sswas = erase_if (is_up_to begin to) s.sswas;
  }

  -- Nothing is subscribed to `stopped_event`.
  pub on_sender_event : SafeStream → Sender.Event → SafeStream
  on_sender_event s (Sender.acknowledged begin to) = finish_writes success begin to s
  on_sender_event s (Sender.send_failed begin to) = finish_writes fail begin to s
  on_sender_event s (Sender.stopped begin to) = s
  on_sender_event s (Sender.pushed begin_offset m) = api_call (data_call begin_offset m) s

  pub on_sender_events : SafeStream → List Sender.Event → SafeStream
  on_sender_events s [] = s
  on_sender_events s (e ∷ es) = on_sender_events (on_sender_event s e) es

  -- An operation of the sender, with the handlers of what it emits.
  pub with_sender : SafeStream → Sender → SafeStream
  with_sender s sender =
      on_sender_events (record s { sender = record sender { log = [] } }) sender.log

  -- `Write`: the identity of the new write, or none for the failed one.
  pub finish_write : SafeStream → Sender × CodeResult RingRange → SafeStream × Option ℕ
  finish_write s (sender, failed code) = (with_sender s sender, none)
  finish_write s (sender, done range) =
      let s1 = with_sender s sender in
      (
        record s1 {
          sswas =
              s1.sswas ++ record { index = range.right; id = s1.next_id; index_range = range } ∷ [];
          next_id = s1.next_id + 1;
        },
        some s1.next_id,
      )

  pub write : SafeStream → List ℕ → SafeStream × Option ℕ
  write s bytes = finish_write s (Sender.send_data cap s.sender bytes)

  unfoldable pub on_stream_update : SafeStream → StreamInfo → SafeStream
  on_stream_update s out_info = record s {
    stream_info = record {
      rec_element_size = out_info.rec_element_size;
      max_element_size = s.config.max_packet_size;
      is_reliable = true;
      link_state = out_info.link_state;
      is_writable = out_info.is_writable;
    };
    sender = Sender.set_max_payload cap s.sender (payload_of out_info.rec_element_size);
  }

  -- `SSWriteAction::Stop`
  pub stop_write : SafeStream → RingRange → SafeStream
  stop_write s range = with_sender s (Sender.stop_range cap s.sender range)

  -- A call that has been parsed: `AckImpl`, `RequestRepeatImpl`, `SendResetImpl` and `SendImpl`.
  module _ (wait_timeout : List ℕ → ℕ → ℕ) where
    pub on_call : SafeStream → ℕ → ApiCall → SafeStream
    on_call s now (ack_call index) =
        with_sender s (Sender.acknowledge cap wait_timeout s.sender now index).0
    on_call s now (request_repeat_call index) =
        with_sender s (Sender.request_repeat cap s.sender index)
    on_call s now (send_reset_call begin_offset delta_offset repeat_count bytes) = with_receiver s (
        Receiver.push_data cap s.receiver begin_offset (record {
          reset = true;
          repeat_count = repeat_count;
          delta_offset = delta_offset;
          bytes = bytes;
        }))
    on_call s now (send_call begin_offset delta_offset repeat_count bytes) = with_receiver s (
        Receiver.push_data cap s.receiver begin_offset (record {
          reset = false;
          repeat_count = repeat_count;
          delta_offset = delta_offset;
          bytes = bytes;
        }))

    -- The tasks of the two ends.
    pub run_send : SafeStream → ℕ → SafeStream
    run_send s now = with_sender s (Sender.on_send_task cap wait_timeout s.sender now)

    pub run_repeat : SafeStream → SafeStream
    run_repeat s = with_sender s (Sender.on_repeat_timer cap wait_timeout s.sender)

  pub run_recv : SafeStream → SafeStream
  run_recv s = with_receiver s (Receiver.on_recv_task cap s.receiver)

  pub run_missing : SafeStream → SafeStream
  run_missing s = with_receiver s (Receiver.on_missing_timer cap s.receiver)
