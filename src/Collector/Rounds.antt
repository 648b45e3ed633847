-- ===== src/Collector/Rounds.antt =====
-- data_packet_collector.cpp: what one round of `AddData` does with the bytes and the packets.
use aether_client_cpp.Prelude.{
  ℕ, ◌≤◌, ◌<◌, ◌≡◌, ◌≢◌, ◌⊎◌, inl, inr, refl, arith, ap, sym, ◌∙◌, ◌^◌, ◌&&◌, ltb, Bool, true,
  false, if◌then◌else◌, List, [], ◌∷◌, ◌++◌, length, take, Option, none, append-nil, append_assoc,
  length-append, length-take, Bool-cases,
}
use aether_client_cpp.Collector.{
  Packet, Collector, needs_packet, write_to_back, Round, write_round, new_packet,
}
use aether_client_cpp.Collector.Printed.{
  take-all, print_packets, printed, print_packets-append, print_packets-write_to_back, IsFit,
  write_to_back-IsFit, length-write_to_back, IsFit-append-one,
}
use aether_client_cpp.Collector.Refused.{refused, write_to_back-refused}
use aether_client_cpp.Collector.Reading.{IsReader}

-- Bytes wait for the rest of a size only where a packet begins.
pub record IsWell (read_size : List ℕ → Option (ℕ × ℕ)) (c : Collector) : Type 0 where
  pub unread : read_size c.temp_data_buffer ≡ none
  pub aligned : (if needs_packet c.packets then 0 else length c.temp_data_buffer) ≡ 0
  pub fit : IsFit c.packets

module _ {header : ℕ → List ℕ} {read_size : List ℕ → Option (ℕ × ℕ)}
    (gets_memory : List Packet → ℕ → Bool) (laws : IsReader header read_size) where
  -- What is printed and what is left make up the stream, up to a size 0 that ended the loop.
  abbrev pub Lossless : Collector → List ℕ → Collector → List ℕ → Type 0
  Lossless c bytes c' rest =
      (printed header c' ≡ printed header c ++ bytes)
      ⊎ (printed header c' ++ header 0 ++ rest ≡ printed header c ++ bytes)

  pub write_round-IsWell :
      (c : Collector) (bytes : List ℕ)
      → c.packets ≢ []
      → c.temp_data_buffer ≡ []
      → IsFit c.packets
      → (printed header (write_round c bytes).collector ++ (write_round c bytes).bytes
          ≡ printed header c ++ bytes)
        × IsWell read_size (write_round c bytes).collector
  unfolding write_round
  write_round-IsWell c bytes some_packet empty fit =
      let ps = (write_to_back c.packets bytes).0 in
      let rest = (write_to_back c.packets bytes).1 in
      (
        rw empty (
            ap (λ l. l ++ rest) (append-nil (print_packets header ps))
            ∙ print_packets-write_to_back header c.packets bytes some_packet
            ∙ ap (λ l. l ++ bytes) (sym (append-nil (print_packets header c.packets)))),
        record {
          unread = ap read_size empty ∙ laws.nothing;
          aligned = ground (arith, ap length empty);
          fit = write_to_back-IsFit c.packets bytes fit;
        },
      )

  abbrev pub KeepsOn : Collector → List ℕ → Round → Type 0
  KeepsOn c bytes r =
      (printed header r.collector ++ r.bytes ≡ printed header c ++ bytes)
      × (length r.bytes < length bytes)

  -- A round that goes on keeps the stream and leaves less of it.
  abbrev pub Good : Collector → List ℕ → Round → Type 0
  Good c bytes r =
      (if r.goes_on then KeepsOn c bytes r else Lossless c bytes r.collector r.bytes)
      × IsWell read_size r.collector

  -- A round after which the last packet has no memory.
  abbrev pub Refused : Collector → List ℕ → Round → Type 0
  Refused c bytes r =
      (before : List Packet) × (v : ℕ) × (1 ≤ v)
      × ((ltb v (2 ^ 63) && gets_memory before v) ≡ false)
      × (r ≡ record { collector = refused before v; bytes = r.bytes; goes_on = true })
      × (printed header r.collector ++ r.bytes ≡ printed header c ++ bytes)

  pub unread-Good :
      (c : Collector) (bytes : List ℕ)
      → IsWell read_size c
      → needs_packet c.packets ≡ true
      → read_size (c.temp_data_buffer ++ take 8 bytes) ≡ none
      → Good c bytes (record {
        collector = record c { temp_data_buffer = c.temp_data_buffer ++ take 8 bytes };
        bytes = [];
        goes_on = false;
      })
  unread-Good c bytes w needs unread =
      let temp = c.temp_data_buffer in
      let few : length bytes ≤ 8 = omega (
        arith,
        laws.short (temp ++ take 8 bytes) unread,
        length-append temp (take 8 bytes),
        length-take 8 bytes,
      ) in
      (
        inl (
            sym (append_assoc (print_packets header c.packets) temp (take 8 bytes))
            ∙ ap (◌++◌ (printed header c)) (take-all 8 bytes few)),
        record { unread = unread; aligned = ground (arith, needs); fit = w.fit },
      )

  pub zero-Good :
      (c : Collector) (bytes rest : List ℕ)
      → IsWell read_size c
      → c.temp_data_buffer ++ bytes ≡ header 0 ++ rest
      → Good c bytes
          (record { collector = record c { temp_data_buffer = [] }; bytes = rest; goes_on = false })
  zero-Good c bytes rest w front =
      let ps = print_packets header c.packets in
      (
        inr (
            ap (λ l. l ++ header 0 ++ rest) (append-nil ps)
            ∙ append_assoc ps (header 0) rest
            ∙ ap (◌++◌ ps) (sym front)
            ∙ sym (append_assoc ps c.temp_data_buffer bytes)),
        record { unread = laws.nothing; aligned = ground arith; fit = w.fit },
      )

  -- A new packet and what is left, printed.
  printed-new :
      (c : Collector) (bytes rest : List ℕ) (v capacity : ℕ)
      → c.temp_data_buffer ++ bytes ≡ header v ++ rest
      → printed header (record {
        packets =
            c.packets
            ++ record { expected_packet_size = v; capacity = capacity; mem_buffer = [] } ∷ [];
        temp_data_buffer = [];
      })
          ++ rest
        ≡ printed header c ++ bytes
  printed-new c bytes rest v capacity front =
      let ps = print_packets header c.packets in
      let new : Packet = record {
        expected_packet_size = v;
        capacity = capacity;
        mem_buffer = [];
      } in
      ap (λ l. l ++ rest)
        (append-nil _
          ∙ print_packets-append header c.packets (new ∷ [])
          ∙ ap (◌++◌ ps) (append-nil _ ∙ append-nil _))
      ∙ append_assoc ps (header v) rest
      ∙ ap (◌++◌ ps) (sym front)
      ∙ sym (append_assoc ps c.temp_data_buffer bytes)

  packet-Refused :
      (c : Collector) (bytes rest : List ℕ) (v : ℕ)
      → (ltb v (2 ^ 63) && gets_memory c.packets v) ≡ false
      → c.temp_data_buffer ++ bytes ≡ header v ++ rest
      → 1 ≤ v
      → Refused c bytes (write_round (refused c.packets v) rest)
  unfolding write_round
  packet-Refused c bytes rest v none_got front positive =
      rw (write_to_back-refused c.packets v rest)
        (c.packets, v, positive, none_got, refl, printed-new c bytes rest v 0 front)

  packet-Good :
      (c : Collector) (bytes rest : List ℕ) (v : ℕ)
      → IsWell read_size c
      → c.temp_data_buffer ++ bytes ≡ header v ++ rest
      → length rest < length bytes
      → 1 ≤ v
      → Good c bytes (
          write_round
            (record {
              packets =
                  c.packets
                  ++ record { expected_packet_size = v; capacity = v; mem_buffer = [] } ∷ [];
              temp_data_buffer = [];
            })
            rest)
  unfolding write_round
  packet-Good c bytes rest v w front less positive =
      let ps = print_packets header c.packets in
      let new : Packet = record { expected_packet_size = v; capacity = v; mem_buffer = [] } in
      let c1 : Collector = record { packets = c.packets ++ new ∷ []; temp_data_buffer = [] } in
      let (same, well) =
        write_round-IsWell c1 rest (nonempty c.packets new) refl
          (IsFit-append-one c.packets new w.fit (omega arith) positive refl) in
      (
        (
          unfold write_round in (same ∙ printed-new c bytes rest v v front),
          omega (arith, less, length-write_to_back c1.packets rest),
        ),
        well,
      )
    where
      nonempty : (qs : List Packet) (p : Packet) → qs ++ p ∷ [] ≢ []
      nonempty [] p e = absurd (cc)
      nonempty (q ∷ qs) p e = absurd (cc)

  -- What `got_size` does with a size that is not 0.
  pub packet-ends :
      (c : Collector) (bytes rest : List ℕ) (v : ℕ)
      → IsWell read_size c
      → c.temp_data_buffer ++ bytes ≡ header v ++ rest
      → length rest < length bytes
      → 1 ≤ v
      → let r =
          write_round
            (record {
              packets = c.packets ++ new_packet gets_memory c.packets v ∷ [];
              temp_data_buffer = [];
            })
            rest in
        Good c bytes r ⊎ Refused c bytes r
  unfolding new_packet
  packet-ends c bytes rest v w front less positive =
      elim (Bool-cases (ltb v (2 ^ 63) && gets_memory c.packets v)) [
        | inl got ↦ inl (rw got (packet-Good c bytes rest v w front less positive))
        | inr not_got ↦ inr (rw not_got (packet-Refused c bytes rest v not_got front positive))
      ]

  abbrev pub Ends : Collector → List ℕ → Round → Type 0
  Ends c bytes r = Good c bytes r ⊎ Refused c bytes r
