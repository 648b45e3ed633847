-- ===== src/Tests/Sender.antt =====
-- safe_stream_send_action.h on concrete senders over a ring of 16 indices.
use aether_client_cpp.Prelude.{ℕ, ◌+◌, ◌<◌, ◌≡◌, refl, arith, true, false, List, [], ◌∷◌, none}
use aether_client_cpp.Ring.{distance, make, plus, minus}
use aether_client_cpp.Ring.Distance.{IsCapacity}
use aether_client_cpp.Circular.{size}
use aether_client_cpp.Chunks.Sending
use aether_client_cpp.Circular.Contents.{contents, window}
use aether_client_cpp.Stream.Sender.{Sender, send_chunk, acknowledge, acknowledged, pushed}
use aether_client_cpp.Stream.Sender.Invariant.{IsWell, on_the_go, pending}
use aether_client_cpp.Stream.Sender.Send.{send_chunk_pushes, send_chunk-IsWell}
use aether_client_cpp.Stream.Sender.Ack.{acknowledge_lem}

abbrev pub sixteen : ℕ
sixteen = 16

pub sixteen-IsCapacity : IsCapacity sixteen
sixteen-IsCapacity = record { positive = omega arith; small = omega arith }

abbrev pub wait : List ℕ → ℕ → ℕ
wait stats repeat_count = 100

-- Six bytes are held from index 14 on, and the first two are on the way.
abbrev pub sender : Sender
sender = record {
  max_repeat_count = 3;
  window_size = 7;
  max_payload_size = 3;
  sending_buffer = record { begin = 14; end = 4; buffer = λ i. i + 1 };
  sending_chunks = record {
    buffer_begin = 14;
    chunks =
        record { range = record { left = 14; right = 15 }; send_time = 1; repeat_count = 1 } ∷ [];
  };
  last_sent = 0;
  init_state = true;
  response_statistics = 100 ∷ [];
  repeat_timer = none;
  send_enqueued = true;
  log = [];
}

pub sender-IsWell : IsWell sixteen sender
unfolding distance size
sender-IsWell = record {
  window = omega arith;
  valid = record { begin_in = omega arith; end_in = omega arith };
  sent_in = omega arith;
  sent_held = omega arith;
  sent_window = omega arith;
  begins = refl;
}

send_chunk_pushes_example :
    let s' = send_chunk sixteen wait sender 5 in
    (s'.log
      ≡ pushed 14
          (record { reset = true; repeat_count = 0; delta_offset = 2; bytes = 1 ∷ 2 ∷ 3 ∷ [] })
        ∷ [])
    × (on_the_go sixteen s' ≡ 5)
    × (0 < 3)
    × (pending sixteen s' ≡ 15 ∷ 16 ∷ 1 ∷ 2 ∷ 3 ∷ 4 ∷ [])
unfolding distance size contents window plus minus Sending.registered Sending.erase_first
send_chunk_pushes_example =
    send_chunk_pushes sixteen-IsCapacity wait sender-IsWell 5 (omega arith) (omega arith)
      (omega arith) (omega arith)

send_chunk-IsWell_example : IsWell sixteen (send_chunk sixteen wait sender 5)
send_chunk-IsWell_example = send_chunk-IsWell sixteen-IsCapacity wait sender-IsWell 5

acknowledge_lem_example :
    let (s', accepted_now) = acknowledge sixteen wait sender 9 14 in
    (accepted_now ≡ true)
    × IsWell sixteen s'
    × (pending sixteen s' ≡ 16 ∷ 1 ∷ 2 ∷ 3 ∷ 4 ∷ [])
    × (on_the_go sixteen s' ≡ 1)
    × (s'.log ≡ acknowledged 14 14 ∷ [])
    × (s'.init_state ≡ false)
unfolding distance size contents window plus make
acknowledge_lem_example =
    acknowledge_lem sixteen-IsCapacity wait sender-IsWell 9 14 (omega arith) (λ e. omega arith)
