-- ===== src/Tests/Collecting.antt =====
-- The packet collector on concrete inputs, with sizes of one byte.
use aether_client_cpp.Prelude.{
  ℕ, zero, suc, ◌≤◌, ◌<◌, ◌≡◌, refl, arith, ap, ap₂, sym, Bool, ltb, List, [], ◌∷◌, ◌++◌, length,
  take, drop, Option, none, some,
}
use aether_client_cpp.Collector.{
  Packet, Collector, new_packet, needs_packet, is_packet_complete, write_size, write_to_packet,
  write_to_back, write_round, got_size, size_round, add_round, add_data,
}
use aether_client_cpp.Collector.{init}
use aether_client_cpp.PacketGate.{write_in, write_out}
use aether_client_cpp.PacketGate.Returning.{write_out-write_in}
use aether_client_cpp.Collector.Reading.{IsReader}

abbrev one_byte : ℕ → List ℕ
one_byte v = v ∷ []

abbrev read_one_byte : List ℕ → Option (ℕ × ℕ)
read_one_byte [] = none
read_one_byte (v ∷ bytes) = some (v, 1)

one_byte-IsReader : IsReader one_byte read_one_byte
one_byte-IsReader = record {
  reads = λ bytes v n e. at_front bytes v n e;
  nothing = refl;
  near = λ bytes m v n e h. from_front bytes m v n e h;
  short = λ bytes e. small bytes e;
}
  where
    at_front :
        (bytes : List ℕ) (v n : ℕ)
        → read_one_byte bytes ≡ some (v, n)
        → (n ≤ length bytes) × (one_byte v ++ drop n bytes ≡ bytes)
    at_front [] v n e = absurd (cc)
    at_front (b ∷ bytes) v n e =
        let size : b ≡ v = ap (λ o. elim o [ none ↦ 0 | some r ↦ r.0 ]) e in
        let taken : 1 ≡ n = ap (λ o. elim o [ none ↦ 1 | some r ↦ r.1 ]) e in
        (omega (arith, taken), ap₂ (λ x k. x ∷ drop k (b ∷ bytes)) (sym size) (sym taken))

    from_front :
        (bytes : List ℕ) (m v n : ℕ)
        → read_one_byte bytes ≡ some (v, n)
        → n ≤ m
        → read_one_byte (take m bytes) ≡ some (v, n)
    from_front [] m v n e h = absurd (cc)
    from_front (b ∷ bytes) zero v n e h =
        let taken : 1 ≡ n = ap (λ o. elim o [ none ↦ 1 | some r ↦ r.1 ]) e in
        absurd (omega (arith, taken, h))
    from_front (b ∷ bytes) (suc m) v n e h = e

    small : (bytes : List ℕ) → read_one_byte bytes ≡ none → length bytes < 8
    small [] e = omega arith
    small (b ∷ bytes) e = absurd (cc)

-- A packet of three bytes of which one came.
abbrev partly_come : Collector
partly_come = record {
  packets = record { expected_packet_size = 3; capacity = 3; mem_buffer = 7 ∷ [] } ∷ [];
  temp_data_buffer = [];
}

-- There is memory for a packet of less than 6 bytes.
abbrev some_memory : List Packet → ℕ → Bool
some_memory packets v = ltb v 6

-- The size 0 ends the loop, and the byte after it is not read.
add_data_run :
    add_data read_one_byte some_memory 7 partly_come (8 ∷ 9 ∷ 2 ∷ 5 ∷ 6 ∷ 0 ∷ 4 ∷ [])
    ≡ some (
      record {
        packets =
            record { expected_packet_size = 3; capacity = 3; mem_buffer = 7 ∷ 8 ∷ 9 ∷ [] }
            ∷ record { expected_packet_size = 2; capacity = 2; mem_buffer = 5 ∷ 6 ∷ [] }
            ∷ [];
        temp_data_buffer = [];
      },
      4 ∷ [],
    )
unfolding add_data add_round size_round got_size new_packet write_round write_to_back
    write_to_packet write_size needs_packet is_packet_complete
add_data_run = refl

-- There is no memory for 6 bytes, and the loop does not end.
add_data_stalls : add_data read_one_byte some_memory 100 partly_come (8 ∷ 9 ∷ 6 ∷ 5 ∷ []) ≡ none
unfolding add_data add_round size_round got_size new_packet write_round write_to_back
    write_to_packet write_size needs_packet is_packet_complete
add_data_stalls = refl

write_out-write_in_example :
    write_out read_one_byte some_memory init (write_in one_byte (5 ∷ 6 ∷ []))
    ≡ some ((5 ∷ 6 ∷ []) ∷ [], init, [])
write_out-write_in_example =
    write_out-write_in some_memory one_byte-IsReader (λ v rest. refl) (5 ∷ 6 ∷ []) (omega arith)
      (omega arith) (omega arith) refl
