-- ===== src/PacketGate.antt =====
-- aether/stream_api/sized_packet_gate.h and sized_packet_gate.cpp: a gate that writes each packet
-- behind its size, and collects the packets that come.
pub mod Passing
pub mod Returning
use aether_client_cpp.Prelude.{ℕ, zero, suc, List, [], ◌∷◌, ◌++◌, length, Bool, Option, none, some}
use aether_client_cpp.Collector.{Packet, Collector, add_data, pop_packet}

-- `header` is how a size is printed.
unfoldable pub write_in : (ℕ → List ℕ) → List ℕ → List ℕ
write_in header buffer = header (length buffer) ++ buffer

-- One more packet before the rest, unless it is empty.
unfoldable pub emit_next :
    List ℕ → Collector → List (List ℕ) × Collector → List (List ℕ) × Collector
emit_next [] c1 rest = ([], c1)
emit_next (b ∷ bs) c1 (packets, c2) = ((b ∷ bs) ∷ packets, c2)

-- The loop of `WriteOut`, with the packets that it emits, up to the first empty answer.
unfoldable pub emit_packets : ℕ → Collector → List (List ℕ) × Collector
emit_packets zero c = ([], c)
emit_packets (suc fuel) c =
    let (packet, c1) = pop_packet c in emit_next packet c1 (emit_packets fuel c1)

-- What `WriteOut` does after `AddData`.
unfoldable pub emit_added :
    Option (Collector × List ℕ) → Option (List (List ℕ) × Collector × List ℕ)
emit_added none = none
emit_added (some (c1, rest)) =
    let (packets, c2) = emit_packets (suc (length c1.packets)) c1 in some (packets, c2, rest)

-- What is emitted, the collector, and the bytes that `AddData` left unread. None is an `AddData` that
-- has not ended after one round for each byte.
unfoldable pub write_out :
    (List ℕ → Option (ℕ × ℕ))
    → (List Packet → ℕ → Bool)
    → Collector
    → List ℕ
    → Option (List (List ℕ) × Collector × List ℕ)
write_out read_size gets_memory c buffer =
    emit_added (add_data read_size gets_memory (length buffer) c buffer)
