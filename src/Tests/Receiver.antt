-- ===== src/Tests/Receiver.antt =====
-- safe_stream_recv_action.h on concrete receivers over a ring of 16 indices.
use aether_client_cpp.Prelude.{
  ℕ, zero, suc, ◌+◌, ◌<◌, ◌≡◌, refl, arith, true, false, [], ◌∷◌, some, length, get_or,
}
use aether_client_cpp.Ring.{distance, make}
use aether_client_cpp.Ring.Distance.{IsCapacity}
use aether_client_cpp.Circular.{size}
use aether_client_cpp.Chunks.Receiving.{ReceiveChunkList, empty}
use aether_client_cpp.Stream.Message.{DataMessage, SafeStreamConfig}
use aether_client_cpp.Stream.Positions.{segment, index_of}
use aether_client_cpp.Stream.Receiver.{
  Receiver, received_index, init, push_data, on_recv_task, on_ack_timer,
}
use aether_client_cpp.Stream.Receiver.Track.{Tracks, emitted}
use aether_client_cpp.Stream.Receiver.Progress.{run_length, gapless, chain_length, receive_progress}
use aether_client_cpp.Stream.Receiver.Session.{here, next, receive, ack, session_prefix}

abbrev sixteen : ℕ
sixteen = 16

sixteen-IsCapacity : IsCapacity sixteen
sixteen-IsCapacity = record { positive = omega arith; small = omega arith }

abbrev source : ℕ → ℕ
source i = i + 1

abbrev config : SafeStreamConfig
config = record {
  window_size = 7;
  max_packet_size = 5;
  max_repeat_count = 3;
  wait_ack_timeout = 100;
  send_ack_timeout = 10;
  send_repeat_timeout = 20;
}

abbrev first_message : DataMessage
first_message = record { reset = true; repeat_count = 0; delta_offset = 0; bytes = 1 ∷ 2 ∷ 3 ∷ [] }

honest : (i : ℕ) → i < 3 → get_or (1 ∷ 2 ∷ 3 ∷ []) i 0 ≡ source (0 + i)
honest zero h = refl
honest (suc zero) h = refl
honest (suc (suc zero)) h = refl
honest (suc (suc (suc i))) h = absurd (omega arith)

abbrev after_first : Receiver
after_first =
    on_ack_timer (on_recv_task sixteen (push_data sixteen (init config (λ i. 0)) 14 first_message))

session_prefix_example :
    emitted after_first.log ≡ segment source 0 (length (emitted after_first.log))
unfolding received_index make index_of
session_prefix_example =
    session_prefix sixteen-IsCapacity source config (λ i. 0) (omega arith) 14 first_message 0 refl
      (omega arith) (omega arith) honest (next (next here (receive _)) (ack _))

-- The bytes at the indices 14, 15 and 0 have arrived, and the byte at 3.
abbrev chunks : ReceiveChunkList
chunks = record {
  buffer_begin = 14;
  chunks =
      record {
        key = 14;
        chunk = record { range = record { left = 14; right = 0 }; repeat_count = 0 };
      }
      ∷ record {
        key = 3;
        chunk = record { range = record { left = 3; right = 3 }; repeat_count = 0 };
      }
      ∷ [];
  ranges = record { left = 14; right = 0 } ∷ record { left = 3; right = 3 } ∷ [];
}

abbrev receiver : Receiver
receiver = record {
  window_size = 7;
  buffer = record { begin = 14; end = 4; buffer = λ i. 7 };
  chunks = some chunks;
  session_offset = 14;
  last_emitted = 13;
  recv_enqueued = true;
  ack_timer = false;
  missing_timer = false;
  log = [];
}

receiver-Tracks : Tracks sixteen 14 (λ i. 7) 0 receiver chunks
unfolding distance size index_of emitted segment
receiver-Tracks = record {
  window = omega arith;
  valid = record { begin_in = omega arith; end_in = omega arith };
  current = refl;
  position = refl;
  begins = refl;
  chain = (
    omega arith,
    (omega arith, omega arith, omega arith, omega arith),
    (omega arith, (omega arith, omega arith, omega arith, omega arith), tt),
  );
  held = λ k h. ground arith;
  small = omega arith;
  agrees = λ k h. refl;
  prefix = refl;
}

receive_progress_example : emitted (on_recv_task sixteen receiver).log ≡ segment (λ i. 7) 0 (0 + 3)
unfolding chain_length gapless run_length distance empty
receive_progress_example = receive_progress sixteen-IsCapacity receiver-Tracks refl refl
