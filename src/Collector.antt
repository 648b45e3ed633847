-- ===== src/Collector.antt =====
-- aether/transport/data_packet_collector.h and data_packet_collector.cpp: packets, each behind its
-- size, are collected from a byte stream that comes in pieces.
pub mod Printed
pub mod Reading
pub mod Refused
pub mod Rounds
pub mod Lossless
use aether_client_cpp.Prelude.{
  ℕ, zero, suc, ◌+◌, ◌-◌, ltb, ◌==◌, ◌&&◌, ◌^◌, Bool, true, false, if◌then◌else◌, List, [], ◌∷◌,
  ◌++◌, length, take, drop, Option, none, some,
}
use aether_client_cpp.Prelude.Sizes.{sub_size}

-- `capacity` is that of the memory buffer, 0 where it was given no memory.
pub record Packet : Type 0 where
  pub expected_packet_size : ℕ
  pub capacity : ℕ
  pub mem_buffer : List ℕ

pub record Collector : Type 0 where
  pub packets : List Packet
  pub temp_data_buffer : List ℕ

abbrev pub init : Collector
init = record { packets = []; temp_data_buffer = [] }

unfoldable pub is_packet_complete : Packet → Bool
is_packet_complete p = length p.mem_buffer == p.expected_packet_size

-- Whether the next bytes begin with a size.
unfoldable pub needs_packet : List Packet → Bool
needs_packet [] = true
needs_packet (p ∷ []) = is_packet_complete p
needs_packet (p ∷ q ∷ ps) = needs_packet (q ∷ ps)

-- How much of some data `WriteToPacket` takes.
unfoldable pub write_size : Packet → ℕ → ℕ
write_size p size =
    let available = p.capacity - length p.mem_buffer in
    if ltb size available then size else available

unfoldable pub write_to_packet : Packet → List ℕ → Packet
write_to_packet p bytes = record p {
  mem_buffer = p.mem_buffer ++ take (write_size p (length bytes)) bytes;
}

-- The last packet, and what is left of the data.
unfoldable pub write_to_back : List Packet → List ℕ → List Packet × List ℕ
write_to_back [] bytes = ([], bytes)
write_to_back (p ∷ []) bytes =
    (write_to_packet p bytes ∷ [], drop (write_size p (length bytes)) bytes)
write_to_back (p ∷ q ∷ ps) bytes =
    let (packets, rest) = write_to_back (q ∷ ps) bytes in (p ∷ packets, rest)

-- One round of `AddData`: the bytes left, and whether the loop goes on.
pub record Round : Type 0 where
  pub collector : Collector
  pub bytes : List ℕ
  pub goes_on : Bool

unfoldable pub write_round : Collector → List ℕ → Round
write_round c bytes =
    let (packets, rest) = write_to_back c.packets bytes in
    record { collector = record c { packets = packets }; bytes = rest; goes_on = true }

-- The memory buffer of a new packet; `gets_memory` is whether `realloc` gives it that many bytes. The
-- size is cast to a signed number, of which none that is negative is asked for.
unfoldable pub new_packet : (List Packet → ℕ → Bool) → List Packet → ℕ → Packet
new_packet gets_memory packets packet_size = record {
  expected_packet_size = packet_size;
  capacity =
      (if ltb packet_size (2 ^ 63) && gets_memory packets packet_size then packet_size else 0);
  mem_buffer = [];
}

-- The round after `GetPacketSize`, by what was read from `temp`: no size yet, the size 0, or a new
-- packet.
unfoldable pub got_size :
    (List Packet → ℕ → Bool) → Collector → List ℕ → List ℕ → Option (ℕ × ℕ) → Round
got_size gets_memory c temp bytes none = record {
  collector = record c { temp_data_buffer = temp };
  bytes = [];
  goes_on = false;
}
got_size gets_memory c temp bytes (some (packet_size, offset)) =
    let rest = drop (sub_size offset (length c.temp_data_buffer)) bytes in
    if packet_size == 0
    then record { collector = record c { temp_data_buffer = [] }; bytes = rest; goes_on = false }
    else write_round
        (record {
          packets = c.packets ++ new_packet gets_memory c.packets packet_size ∷ [];
          temp_data_buffer = [];
        })
        rest

-- `read_size` reads a size from the front of some bytes: it and how many bytes it took.
module _ (read_size : List ℕ → Option (ℕ × ℕ)) (gets_memory : List Packet → ℕ → Bool) where
  unfoldable pub size_round : Collector → List ℕ → Round
  size_round c bytes =
      let temp =
        c.temp_data_buffer ++ take (if ltb 8 (length bytes) then 8 else length bytes) bytes in
      got_size gets_memory c temp bytes (read_size temp)

  unfoldable pub add_round : Collector → List ℕ → Round
  add_round c bytes = if needs_packet c.packets then size_round c bytes else write_round c bytes

  -- The loop, with the bytes that it leaves unread. None is a loop that has not ended after `fuel`
  -- rounds.
  unfoldable pub add_data : ℕ → Collector → List ℕ → Option (Collector × List ℕ)
  add_data fuel c [] = some (c, [])
  add_data zero c (b ∷ bs) = none
  add_data (suc fuel) c (b ∷ bs) =
      let r = add_round c (b ∷ bs) in
      let rest = add_data fuel r.collector r.bytes in
      if r.goes_on then rest else some (r.collector, r.bytes)

unfoldable pub pop_packet : Collector → List ℕ × Collector
pop_packet c = elim c.packets [
  | [] ↦ ([], c)
  | p ∷ ps ↦ if is_packet_complete p then (p.mem_buffer, record c { packets = ps }) else ([], c)
]
