-- ===== src/PacketGate/Passing.antt =====
-- sized_packet_gate.cpp: what a gate hands on, and what it keeps, is what came.
use aether_client_cpp.Prelude.{
  ℕ, zero, suc, ◌≤◌, ◌≡◌, ◌⊎◌, inl, inr, refl, arith, ap, sym, ◌∙◌, ◌==◌, true, false, List, [],
  ◌∷◌, ◌++◌, length, Option, some, Bool, ltb, ◌&&◌, ◌^◌, append_assoc, Bool-cases,
}
use aether_client_cpp.Collector.{Packet, Collector, is_packet_complete, add_data, pop_packet}
use aether_client_cpp.Collector.Printed.{print_packets, printed, IsFit}
use aether_client_cpp.Collector.Reading.{IsReader}
use aether_client_cpp.Collector.Lossless.{Outcome, add_data-printed}
use aether_client_cpp.Collector.Refused.{refused, stalled}
use aether_client_cpp.Collector.Rounds.{IsWell}
use aether_client_cpp.PacketGate.{emit_next, emit_packets, emit_added, write_out}

module _ (header : ℕ → List ℕ) where
  -- Packets as the gate at the other end writes them.
  abbrev pub write_all : List (List ℕ) → List ℕ
  write_all [] = []
  write_all (p ∷ ps) = header (length p) ++ p ++ write_all ps

  emit_packets-printed :
      (fuel : ℕ) (ps : List Packet) (temp : List ℕ)
      → IsFit ps
      → let c : Collector = record { packets = ps; temp_data_buffer = temp } in
        write_all (emit_packets fuel c).0 ++ printed header (emit_packets fuel c).1
        ≡ printed header c
  unfolding emit_packets emit_next pop_packet is_packet_complete
  emit_packets-printed zero ps temp f = refl
  emit_packets-printed (suc fuel) [] temp f = refl
  emit_packets-printed (suc fuel) (p ∷ ps) temp f =
      emitted p.expected_packet_size p.capacity p.mem_buffer f.0
        (emit_packets-printed fuel ps temp f.1)
    where
      after : List ℕ × Collector → List ℕ
      after r =
          let e = emit_next r.0 r.1 (emit_packets fuel r.1) in write_all e.0 ++ printed header e.1

      kept : Collector
      kept = record { packets = ps; temp_data_buffer = temp }

      at : ℕ → ℕ → List ℕ → Collector
      at n k bytes = record {
        packets = record { expected_packet_size = n; capacity = k; mem_buffer = bytes } ∷ ps;
        temp_data_buffer = temp;
      }

      popped :
          (n k : ℕ) (bytes : List ℕ)
          → (length bytes == n) ≡ true
          → pop_packet (at n k bytes) ≡ (bytes, kept)
      popped n k bytes whole = rw whole refl

      none_popped :
          (n k : ℕ) (bytes : List ℕ)
          → (length bytes == n) ≡ false
          → pop_packet (at n k bytes) ≡ ([], at n k bytes)
      none_popped n k bytes partly = rw partly refl

      emitted :
          (n k : ℕ) (bytes : List ℕ)
          → (length bytes ≤ n) × (1 ≤ n) × (k ≡ n)
          → write_all (emit_packets fuel kept).0 ++ printed header (emit_packets fuel kept).1
            ≡ printed header kept
          → after (pop_packet (at n k bytes)) ≡ printed header (at n k bytes)
      emitted n k [] f rest = ap after (none_popped n k [] (ground (arith, f)))
      emitted n k (b ∷ bs) f rest = elim (Bool-cases (suc (length bs) == n)) [
        | inr partly ↦ ap after (none_popped n k (b ∷ bs) partly)
        | inl whole ↦
            let head = header (suc (length bs)) ++ b ∷ bs in
            ap after (popped n k (b ∷ bs) whole)
            ∙ append_assoc head (write_all (emit_packets fuel kept).0)
                (printed header (emit_packets fuel kept).1)
            ∙ ap (◌++◌ head) rest
            ∙ sym (append_assoc head (print_packets header ps) temp)
            ∙ ap (λ m. ((header m ++ b ∷ bs) ++ print_packets header ps) ++ temp)
                {x = suc (length bs)} {y = n} (ground (arith, whole))
      ]

module _ {header : ℕ → List ℕ} {read_size : List ℕ → Option (ℕ × ℕ)}
    (gets_memory : List Packet → ℕ → Bool) (laws : IsReader header read_size) where
  -- Under the same conditions on sizes, whatever bytes come to a gate with a well-formed collector:
  -- either `WriteOut` ends, and the packets that it emits, written again, and then what it keeps are
  -- what it kept before and the new bytes; or else a size 0 came, and these, that size and the bytes
  -- left unread are. Or a size came for which there was no memory, and `AddData` stalls there.
  pub write_out-printed :
      (c : Collector) (bytes : List ℕ)
      → IsWell read_size c
      → ((packets : List (List ℕ)) × (c' : Collector) × (rest : List ℕ) × (write_out read_size
              gets_memory c bytes
            ≡ some (packets, c', rest))
          × ((write_all header packets ++ printed header c' ≡ printed header c ++ bytes)
              ⊎ ((write_all header packets ++ printed header c') ++ header 0 ++ rest
                  ≡ printed header c ++ bytes)))
        ⊎ ((before : List Packet) × (v : ℕ) × (rest : List ℕ) × (1 ≤ v)
            × ((ltb v (2 ^ 63) && gets_memory before v) ≡ false)
            × (write_out read_size gets_memory c bytes
                ≡ emit_added (stalled (refused before v) rest))
            × (printed header (refused before v) ++ rest ≡ printed header c ++ bytes))
  unfolding write_out emit_added
  write_out-printed c bytes w =
      passed (add_data-printed gets_memory laws (length bytes) c bytes (omega arith) w)
    where
      emitted : Collector → List (List ℕ) × Collector
      emitted c1 = emit_packets (suc (length c1.packets)) c1

      same :
          (c1 : Collector)
          → IsFit c1.packets
          → write_all header (emitted c1).0 ++ printed header (emitted c1).1 ≡ printed header c1
      same c1 f =
          emit_packets-printed header (suc (length c1.packets)) c1.packets c1.temp_data_buffer f

      passed :
          Outcome gets_memory laws c bytes (add_data read_size gets_memory (length bytes) c bytes)
          → ((packets : List (List ℕ)) × (c' : Collector) × (rest : List ℕ) × (write_out read_size
                  gets_memory c bytes
                ≡ some (packets, c', rest))
              × ((write_all header packets ++ printed header c' ≡ printed header c ++ bytes)
                  ⊎ ((write_all header packets ++ printed header c') ++ header 0 ++ rest
                      ≡ printed header c ++ bytes)))
            ⊎ ((before : List Packet) × (v : ℕ) × (rest : List ℕ) × (1 ≤ v)
                × ((ltb v (2 ^ 63) && gets_memory before v) ≡ false)
                × (write_out read_size gets_memory c bytes
                    ≡ emit_added (stalled (refused before v) rest))
                × (printed header (refused before v) ++ rest ≡ printed header c ++ bytes))
      passed (inl (c1, rest, e, well, inl p)) =
          inl ((emitted c1).0, (emitted c1).1, rest, ap emit_added e, inl (same c1 well.fit ∙ p))
      passed (inl (c1, rest, e, well, inr p)) = inl (
        (emitted c1).0,
        (emitted c1).1,
        rest,
        ap emit_added e,
        inr (ap (λ l. l ++ header 0 ++ rest) (same c1 well.fit) ∙ p),
      )
      passed (inr (before, v, rest, positive, none_got, e, p)) =
          inr (before, v, rest, positive, none_got, ap emit_added e, p)
