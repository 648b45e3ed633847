-- ===== src/Tests/Safe.antt =====
-- safe_stream.h on concrete streams over a ring of 16 indices.
use aether_client_cpp.Prelude.{◌+◌, ◌≡◌, refl, arith, ltb, true, if◌then◌else◌, [], ◌∷◌}
use aether_client_cpp.Ring.{distance, make, before_or_at, is_before}
use aether_client_cpp.Circular.{size}
use aether_client_cpp.Stream.Message.{SafeStreamConfig, success}
use aether_client_cpp.Stream.Receiver
use aether_client_cpp.Stream.Safe.{SafeStream, linked, ack_call, init, write, on_call, run_send}
use aether_client_cpp.Stream.Safe.Writes.{
  waiting_count, reported_count, here, next, writes, sends, writes_once, on_call-ack,
}
use aether_client_cpp.Tests.Sender.{sixteen, sixteen-IsCapacity, wait, sender, sender-IsWell}

abbrev config : SafeStreamConfig
config = record {
  window_size = 7;
  max_packet_size = 5;
  max_repeat_count = 3;
  wait_ack_timeout = 100;
  send_ack_timeout = 10;
  send_repeat_timeout = 20;
}

abbrev fresh : SafeStream
fresh = init sixteen config 14 (λ i. 0) (λ i. 0)

-- A stream with a write of two bytes, which are on the way, and one of four, which are not.
abbrev stream : SafeStream
stream = record {
  config = config;
  sender = sender;
  receiver = Receiver.init config (λ i. 0);
  sswas =
      record { index = 15; id = 0; index_range = record { left = 14; right = 15 } }
      ∷ record { index = 3; id = 1; index_range = record { left = 0; right = 3 } }
      ∷ [];
  next_id = 2;
  stream_info = record {
    rec_element_size = 11;
    max_element_size = 5;
    is_reliable = true;
    link_state = linked;
    is_writable = true;
  };
  outputs = [];
  out_data = [];
  statuses = [];
}

writes_once_example :
    let s = run_send sixteen wait (write sixteen fresh (1 ∷ 2 ∷ 3 ∷ [])).0 9 in
    waiting_count 0 s.sswas + reported_count 0 s.statuses ≡ (if ltb 0 s.next_id then 1 else 0)
writes_once_example =
    writes_once sixteen wait config 14 (λ i. 0) (λ i. 0) 0
      (next (next here (writes _ (1 ∷ 2 ∷ 3 ∷ []))) (sends _ 9))

on_call-ack_example :
    let s' = on_call sixteen wait stream 9 (ack_call 15) in
    (s'.statuses ≡ (0, success) ∷ [])
    × (s'.sswas ≡ record { index = 3; id = 1; index_range = record { left = 0; right = 3 } } ∷ [])
unfolding distance size make before_or_at is_before
on_call-ack_example =
    on_call-ack sixteen-IsCapacity wait stream sender-IsWell 9 15 refl (omega arith)
      (λ e. omega arith)
