-- ===== src/Collector/Lossless.antt =====
-- data_packet_collector.cpp: what the collector holds, printed, is the stream that it was given.
use aether_client_cpp.Prelude.{
  ℕ, zero, suc, ◌-◌, ◌≤◌, ◌<◌, ◌≡◌, ◌≢◌, ◌⊎◌, inl, inr, refl, arith, ap, sym, ◌∙◌, subst, ◌==◌, ◌^◌,
  ◌&&◌, ltb, Bool, true, false, if◌then◌else◌, List, [], ◌∷◌, ◌++◌, length, take, drop, Option,
  some, append-nil, append_assoc, length-drop, Bool-cases, Option-cases,
}
use aether_client_cpp.Prelude.Sizes.{sub_size}
use aether_client_cpp.Collector.{
  Packet, Collector, is_packet_complete, needs_packet, Round, write_round, new_packet, got_size,
  size_round, add_round, add_data, pop_packet,
}
use aether_client_cpp.Collector.Printed.{print_packets, printed, write_to_back-takes}
use aether_client_cpp.Collector.Refused.{refused, stalled, add_data-refused}
use aether_client_cpp.Collector.Rounds.{
  IsWell, Ends, KeepsOn, Lossless, unread-Good, zero-Good, packet-ends, write_round-IsWell,
}
use aether_client_cpp.Collector.Reading.{IsReader, take_within, size_read}

module _ {header : ℕ → List ℕ} {read_size : List ℕ → Option (ℕ × ℕ)}
    (gets_memory : List Packet → ℕ → Bool) (laws : IsReader header read_size) where
  size_round-Ends :
      (c : Collector) (bytes : List ℕ)
      → IsWell read_size c
      → needs_packet c.packets ≡ true
      → 1 ≤ length bytes
      → Ends gets_memory laws c bytes (size_round read_size gets_memory c bytes)
  unfolding size_round got_size
  size_round-Ends c bytes w needs some_bytes =
      let temp = c.temp_data_buffer in
      subst
        (λ t.
          Ends gets_memory laws c bytes
            (got_size gets_memory c (temp ++ t) bytes (read_size (temp ++ t))))
        (sym (take_within bytes))
        (elim (Option-cases (read_size (temp ++ take 8 bytes))) [
          | inl unread ↦
              subst
                (λ r.
                  Ends gets_memory laws c bytes
                    (got_size gets_memory c (temp ++ take 8 bytes) bytes r))
                (sym unread) (inl (unread-Good gets_memory laws c bytes w needs unread))
          | inr ((v, k), read) ↦
              subst
                (λ r.
                  Ends gets_memory laws c bytes
                    (got_size gets_memory c (temp ++ take 8 bytes) bytes r))
                (sym read) (sized v k read)
        ])
    where
      sized :
          (v k : ℕ)
          → read_size (c.temp_data_buffer ++ take 8 bytes) ≡ some (v, k)
          → Ends gets_memory laws c bytes
              (got_size gets_memory c (c.temp_data_buffer ++ take 8 bytes) bytes (some (v, k)))
      sized v k read =
          let temp = c.temp_data_buffer in
          let (front, past, near) = size_read laws temp bytes 8 v k w.unread read in
          let taken : sub_size k (length temp) ≡ k - length temp =
            omega (arith, past, near, laws.short temp w.unread) in
          let less : length (drop (k - length temp) bytes) < length bytes =
            omega (arith, length-drop (k - length temp) bytes, past, some_bytes) in
          subst
            (λ n. Ends gets_memory laws c bytes (
              if v == 0
              then record {
                collector = record c { temp_data_buffer = [] };
                bytes = drop n bytes;
                goes_on = false;
              }
              else write_round
                  (record {
                    packets = c.packets ++ new_packet gets_memory c.packets v ∷ [];
                    temp_data_buffer = [];
                  })
                  (drop n bytes)))
            (sym taken)
            (elim (Bool-cases (v == 0)) [
              | inl empty ↦ rw empty (
                  inl (
                    zero-Good gets_memory laws c bytes (drop (k - length temp) bytes) w (
                      front
                      ∙ ap (λ n. header n ++ drop (k - length temp) bytes)
                          (ground (arith, empty)))))
              | inr packet ↦ rw packet (
                  packet-ends gets_memory laws c bytes (drop (k - length temp) bytes) v w front less
                    (ground (arith, packet)))
            ])

  add_round-Ends :
      (c : Collector) (b : ℕ) (bs : List ℕ)
      → IsWell read_size c
      → Ends gets_memory laws c (b ∷ bs) (add_round read_size gets_memory c (b ∷ bs))
  unfolding add_round write_round needs_packet
  add_round-Ends c b bs w = elim (Bool-cases (needs_packet c.packets)) [
    | inl needs ↦ rw needs (size_round-Ends c (b ∷ bs) w needs (omega arith))
    | inr within ↦ rw within (
        let empty : c.temp_data_buffer ≡ [] =
          nothing_left c.temp_data_buffer
            (sym (ap (λ t. if t then 0 else length c.temp_data_buffer) within) ∙ w.aligned) in
        let (same, well) =
          write_round-IsWell gets_memory laws c (b ∷ bs) (λ e. absurd (some_packet e within)) empty
            w.fit in
        inl ((same, ground (arith, write_to_back-takes c.packets b bs within w.fit)), well))
  ]
    where
      nothing_left : (l : List ℕ) → length l ≡ 0 → l ≡ []
      nothing_left [] e = refl
      nothing_left (x ∷ xs) e = absurd (omega (arith, e))

      some_packet : c.packets ≡ [] → needs_packet c.packets ≢ false
      some_packet none_there n =
          let e : true ≡ false = sym (ap needs_packet none_there) ∙ n in absurd (ground (arith, e))

  -- Where `AddData` ends, or does not.
  abbrev pub Outcome : Collector → List ℕ → Option (Collector × List ℕ) → Type 0
  Outcome c bytes o =
      ((c' : Collector) × (rest : List ℕ) × (o ≡ some (c', rest))
        × IsWell read_size c'
        × ((printed header c' ≡ printed header c ++ bytes)
            ⊎ (printed header c' ++ header 0 ++ rest ≡ printed header c ++ bytes)))
      ⊎ ((before : List Packet) × (v : ℕ) × (rest : List ℕ) × (1 ≤ v)
          × ((ltb v (2 ^ 63) && gets_memory before v) ≡ false)
          × (o ≡ stalled (refused before v) rest)
          × (printed header (refused before v) ++ rest ≡ printed header c ++ bytes))

  Outcome-after :
      (c c1 : Collector) (bytes bytes1 : List ℕ) (o : Option (Collector × List ℕ))
      → printed header c1 ++ bytes1 ≡ printed header c ++ bytes
      → Outcome c1 bytes1 o
      → Outcome c bytes o
  Outcome-after c c1 bytes bytes1 o same (inl (c', rest, e, w, inl p)) =
      inl (c', rest, e, w, inl (p ∙ same))
  Outcome-after c c1 bytes bytes1 o same (inl (c', rest, e, w, inr p)) =
      inl (c', rest, e, w, inr (p ∙ same))
  Outcome-after c c1 bytes bytes1 o same (inr (before, v, rest, positive, none_got, e, p)) =
      inr (before, v, rest, positive, none_got, e, p ∙ same)

  pub add_data-printed :
      (fuel : ℕ) (c : Collector) (bytes : List ℕ)
      → length bytes ≤ fuel
      → IsWell read_size c
      → Outcome c bytes (add_data read_size gets_memory fuel c bytes)
  unfolding add_data
  add_data-printed fuel c [] h w = inl (c, [], refl, w, inl (sym (append-nil _)))
  add_data-printed zero c (b ∷ bs) h w = absurd (omega (arith, h))
  add_data-printed (suc fuel) c (b ∷ bs) h w =
      let r = add_round read_size gets_memory c (b ∷ bs) in
      after_round r (add_round-Ends c b bs w)
        (λ few well. add_data-printed fuel r.collector r.bytes few well)
    where
      after_round :
          (r : Round)
          → Ends gets_memory laws c (b ∷ bs) r
          → (length r.bytes ≤ fuel
              → IsWell read_size r.collector
              → Outcome r.collector r.bytes
                  (add_data read_size gets_memory fuel r.collector r.bytes))
          → Outcome c (b ∷ bs) (
              if r.goes_on
              then add_data read_size gets_memory fuel r.collector r.bytes
              else some (r.collector, r.bytes))
      after_round r (inl (kept, well)) rest = elim (Bool-cases r.goes_on) [
        | inl on ↦
            let (same, less) =
              subst
                (λ t.
                  if t
                  then KeepsOn gets_memory laws c (b ∷ bs) r
                  else Lossless gets_memory laws c (b ∷ bs) r.collector r.bytes)
                on kept in
            rw on (
              Outcome-after c r.collector (b ∷ bs) r.bytes _ same
                (rest (omega (arith, h, less)) well))
        | inr off ↦ rw off (
            inl (
              r.collector,
              r.bytes,
              refl,
              well,
              subst
                  (λ t.
                    if t
                    then KeepsOn gets_memory laws c (b ∷ bs) r
                    else Lossless gets_memory laws c (b ∷ bs) r.collector r.bytes)
                  off kept,
            ))
      ]
      after_round r (inr (before, v, positive, none_got, e, same)) rest = inr (
        before,
        v,
        r.bytes,
        positive,
        none_got,
        ap
              (λ (x : Round).
                if x.goes_on
                then add_data read_size gets_memory fuel x.collector x.bytes
                else some (x.collector, x.bytes))
              e
            ∙ add_data-refused read_size gets_memory fuel before v r.bytes positive,
        ap (λ (x : Round). printed header x.collector ++ r.bytes) (sym e) ∙ same,
      )

-- `PopPacket` either answers no data and leaves the collector as it is, or answers data which,
-- printed behind its size and before what is left, is what the collector held.
pub pop_packet-printed :
    (header : ℕ → List ℕ) (c : Collector)
    → (pop_packet c ≡ ([], c))
      ⊎ (printed header c
          ≡ header (length (pop_packet c).0) ++ (pop_packet c).0 ++ printed header (pop_packet c).1)
unfolding pop_packet is_packet_complete
pop_packet-printed header c = popped c.packets
  where
    Popped : Collector → Type 0
    Popped c =
        (pop_packet c ≡ ([], c))
        ⊎ (printed header c
            ≡ header (length (pop_packet c).0)
              ++ (pop_packet c).0
              ++ printed header (pop_packet c).1)

    popped : (ps : List Packet) → Popped (record c { packets = ps })
    popped [] = inl refl
    popped (p ∷ ps) = elim (Bool-cases (length p.mem_buffer == p.expected_packet_size)) [
      | inr partly ↦ inl (rw partly refl)
      | inl whole ↦ inr (
          rw whole (
            append_assoc (header p.expected_packet_size ++ p.mem_buffer) (print_packets header ps)
              c.temp_data_buffer
            ∙ ap (λ n. header n ++ p.mem_buffer ++ (print_packets header ps ++ c.temp_data_buffer))
                {x = p.expected_packet_size} {y = length p.mem_buffer} (ground (arith, whole))))
    ]
