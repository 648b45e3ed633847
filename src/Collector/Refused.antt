-- ===== src/Collector/Refused.antt =====
-- data_packet_collector.cpp: what `AddData` does where the last packet was given no memory.
use aether_client_cpp.Prelude.{
  ℕ, zero, suc, ◌-◌, ◌≤◌, ◌≡◌, refl, arith, ap, ltb, Bool, false, if◌then◌else◌, List, [], ◌∷◌,
  ◌++◌, length, Option, none, some,
}
use aether_client_cpp.Collector.{
  Packet, Collector, is_packet_complete, needs_packet, write_to_packet, write_size, write_to_back,
  write_round, add_round, add_data,
}

-- The last packet was given no memory.
abbrev pub refused : List Packet → ℕ → Collector
refused before packet_size = record {
  packets =
      before ++ record { expected_packet_size = packet_size; capacity = 0; mem_buffer = [] } ∷ [];
  temp_data_buffer = [];
}

pub write_to_back-refused :
    (before : List Packet) (v : ℕ) (bytes : List ℕ)
    → write_to_back (refused before v).packets bytes ≡ ((refused before v).packets, bytes)
unfolding write_to_back write_to_packet write_size
write_to_back-refused [] v bytes =
    let size : (if ltb (length bytes) (0 - 0) then length bytes else 0 - 0) ≡ 0 = ground arith in
    rw size refl
write_to_back-refused (p ∷ []) v bytes =
    ap (λ (r : List Packet × List ℕ). (p ∷ r.0, r.1)) (write_to_back-refused [] v bytes)
write_to_back-refused (p ∷ q ∷ before) v bytes =
    ap (λ (r : List Packet × List ℕ). (p ∷ r.0, r.1)) (write_to_back-refused (q ∷ before) v bytes)

pub needs_packet-refused :
    (before : List Packet) (v : ℕ) → 1 ≤ v → needs_packet (refused before v).packets ≡ false
unfolding needs_packet is_packet_complete
needs_packet-refused [] v h = ground (arith, h)
needs_packet-refused (p ∷ []) v h = needs_packet-refused [] v h
needs_packet-refused (p ∷ q ∷ before) v h = needs_packet-refused (q ∷ before) v h

-- How `AddData` ends where the last packet got no memory: at once with no bytes, else not.
abbrev pub stalled : Collector → List ℕ → Option (Collector × List ℕ)
stalled c [] = some (c, [])
stalled c (b ∷ bs) = none

pub add_data-refused :
    (read_size : List ℕ → Option (ℕ × ℕ)) (gets_memory : List Packet → ℕ → Bool) (fuel : ℕ)
    (before : List Packet) (v : ℕ) (bytes : List ℕ)
    → 1 ≤ v
    → add_data read_size gets_memory fuel (refused before v) bytes
      ≡ stalled (refused before v) bytes
unfolding add_data add_round write_round
add_data-refused read_size gets_memory fuel before v [] h = refl
add_data-refused read_size gets_memory zero before v (b ∷ bs) h = refl
add_data-refused read_size gets_memory (suc fuel) before v (b ∷ bs) h =
    rw (needs_packet-refused before v h, write_to_back-refused before v (b ∷ bs))
      (add_data-refused read_size gets_memory fuel before v (b ∷ bs) h)
