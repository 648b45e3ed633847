-- ===== src/PacketGate/Returning.antt =====
-- sized_packet_gate.cpp: a packet written by one gate is handed on by another.
use aether_client_cpp.Prelude.{
  ℕ, suc, ◌-◌, ◌^◌, ◌≤◌, ◌<◌, ◌≡◌, ◌&&◌, Bool, refl, arith, ap, ap₂, ◌∙◌, ltb, ◌==◌, true, false,
  if◌then◌else◌, List, [], ◌∷◌, ◌++◌, length, take, drop, Option, some, length-append,
  drop-append_left, drop-length,
}
use aether_client_cpp.Prelude.Sizes.{sub_size}
use aether_client_cpp.Collector.{
  Packet, Collector, init, new_packet, is_packet_complete, needs_packet, write_size,
  write_to_packet, write_to_back, write_round, got_size, size_round, add_round, add_data,
  pop_packet,
}
use aether_client_cpp.Collector.Printed.{take-all}
use aether_client_cpp.Collector.Reading.{IsReader, take_within}
use aether_client_cpp.PacketGate.{write_in, emit_next, emit_packets, emit_added, write_out}

-- A collector with one packet, all of it.
abbrev whole : List ℕ → Collector
whole buffer = record {
  packets =
      record { expected_packet_size = length buffer; capacity = length buffer; mem_buffer = buffer }
      ∷ [];
  temp_data_buffer = [];
}

write_round-whole :
    (buffer : List ℕ)
    → write_round
        (record {
          packets =
              record {
                expected_packet_size = length buffer;
                capacity = length buffer;
                mem_buffer = [];
              }
              ∷ [];
          temp_data_buffer = [];
        })
        buffer
      ≡ record { collector = whole buffer; bytes = []; goes_on = true }
unfolding write_round write_to_back write_to_packet write_size
write_round-whole buffer =
    let n = length buffer in
    let size : (if ltb n (n - 0) then n else n - 0) ≡ n = ground arith in
    ap₂
      (λ bytes rest. record {
        collector = record {
          packets = record { expected_packet_size = n; capacity = n; mem_buffer = bytes } ∷ [];
          temp_data_buffer = [];
        };
        bytes = rest;
        goes_on = true;
      })
      (ap (λ m. take m buffer) size ∙ take-all n buffer (omega arith))
      (ap (λ m. drop m buffer) size ∙ drop-length n buffer (omega arith))

emit_packets-whole :
    (buffer : List ℕ) → 1 ≤ length buffer → emit_packets 2 (whole buffer) ≡ (buffer ∷ [], init)
unfolding emit_packets emit_next pop_packet is_packet_complete
emit_packets-whole [] h = absurd (omega (arith, h))
emit_packets-whole (b ∷ bs) h =
    let full : (suc (length bs) == suc (length bs)) ≡ true = ground arith in rw full refl

module _ {header : ℕ → List ℕ} {read_size : List ℕ → Option (ℕ × ℕ)}
    (gets_memory : List Packet → ℕ → Bool) (laws : IsReader header read_size)
    (writes : (v : ℕ) (rest : List ℕ)
      → read_size (header v ++ rest) ≡ some (v, length (header v))) where
  size_round-whole :
      (buffer : List ℕ)
      → 1 ≤ length buffer
      → length (header (length buffer)) ≤ 8
      → length buffer < 2 ^ 63
      → gets_memory [] (length buffer) ≡ true
      → size_round read_size gets_memory init (write_in header buffer)
        ≡ record { collector = whole buffer; bytes = []; goes_on = true }
  unfolding size_round got_size new_packet write_in
  size_round-whole buffer some_bytes fits small got =
      let n = length buffer in
      let k = length (header n) in
      let all = header n ++ buffer in
      let read : read_size (take 8 all) ≡ some (n, k) =
        laws.near all 8 n k (writes n buffer) fits in
      let filled : (n == 0) ≡ false = ground (arith, some_bytes) in
      let offset : sub_size k 0 ≡ k = omega (arith, fits) in
      let memory : (ltb n (2 ^ 63) && gets_memory [] n) ≡ true = ground (arith, small, got) in
      ap (λ t. got_size gets_memory init t all (read_size t)) (take_within all)
      ∙ ap (got_size gets_memory init (take 8 all) all) read
      ∙ rw (filled, offset, memory, drop-append_left (header n) buffer) (write_round-whole buffer)

  add_data-whole :
      (buffer : List ℕ)
      → 1 ≤ length buffer
      → length (header (length buffer)) ≤ 8
      → length buffer < 2 ^ 63
      → gets_memory [] (length buffer) ≡ true
      → add_data read_size gets_memory
          (length (write_in header buffer))
          init
          (write_in header buffer)
        ≡ some (whole buffer, [])
  unfolding add_data add_round needs_packet write_in
  add_data-whole buffer some_bytes fits small got =
      one_round (write_in header buffer)
        (omega (arith, some_bytes, length-append (header (length buffer)) buffer))
        (size_round-whole buffer some_bytes fits small got)
    where
      one_round :
          (bytes : List ℕ)
          → 1 ≤ length bytes
          → size_round read_size gets_memory init bytes
            ≡ record { collector = whole buffer; bytes = []; goes_on = true }
          → add_data read_size gets_memory (length bytes) init bytes ≡ some (whole buffer, [])
      one_round [] h e = absurd (omega (arith, h))
      one_round (b ∷ bs) h e =
          ap
            (λ r.
              if r.goes_on
              then add_data read_size gets_memory (length bs) r.collector r.bytes
              else some (r.collector, r.bytes))
            e

  -- Let sizes be read from what they are printed as and from no more. A packet that is not empty
  -- and whose size is less than 2 ^ 63 and printed in at most 8 bytes, written by `WriteIn` and
  -- given to the `WriteOut` of a new gate, where it gets memory, is emitted as it was, alone, and
  -- leaves the gate as new.
  pub write_out-write_in :
      (buffer : List ℕ)
      → 1 ≤ length buffer
      → length (header (length buffer)) ≤ 8
      → length buffer < 2 ^ 63
      → gets_memory [] (length buffer) ≡ true
      → write_out read_size gets_memory init (write_in header buffer) ≡ some (buffer ∷ [], init, [])
  unfolding write_out emit_added
  write_out-write_in buffer some_bytes fits small got =
      rw (add_data-whole buffer some_bytes fits small got, emit_packets-whole buffer some_bytes)
        refl
