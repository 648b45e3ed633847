-- ===== src/Collector/Printed.antt =====
-- data_packet_collector.cpp: packets printed behind their sizes, and what a write to the last one does.
use aether_client_cpp.Prelude.{
  ℕ, zero, suc, ◌-◌, ◌≤◌, ◌≡◌, ◌≢◌, refl, arith, ap, sym, ◌∙◌, false, List, [], ◌∷◌, ◌++◌, length,
  take, drop, All, append-nil, append_assoc, length-append, length-take, length-drop,
  take-append-drop,
}
use aether_client_cpp.Collector.{
  Packet, Collector, is_packet_complete, needs_packet, write_size, write_to_packet, write_to_back,
}

pub take-all : {A : Type 0} (n : ℕ) (xs : List A) → length xs ≤ n → take n xs ≡ xs
take-all zero [] h = refl
take-all zero (x ∷ xs) h = absurd (omega arith)
take-all (suc n) [] h = refl
take-all (suc n) (x ∷ xs) h = ap (◌∷◌ x) (take-all n xs (omega arith))

pub drop-append_le :
    {A : Type 0} (n : ℕ) (xs ys : List A) → n ≤ length xs → drop n (xs ++ ys) ≡ drop n xs ++ ys
drop-append_le zero xs ys h = refl
drop-append_le (suc n) [] ys h = absurd (omega arith)
drop-append_le (suc n) (x ∷ xs) ys h = drop-append_le n xs ys (omega arith)

pub drop-append_ge :
    {A : Type 0} (n : ℕ) (xs ys : List A)
    → length xs ≤ n
    → drop n (xs ++ ys) ≡ drop (n - length xs) ys
drop-append_ge n [] ys h = ap (λ m. drop m ys) (omega arith)
drop-append_ge zero (x ∷ xs) ys h = absurd (omega arith)
drop-append_ge (suc n) (x ∷ xs) ys h =
    drop-append_ge n xs ys (omega arith) ∙ ap (λ m. drop m ys) (omega arith)

module _ (header : ℕ → List ℕ) where
  -- Packets as they came, each behind its size.
  abbrev pub print_packets : List Packet → List ℕ
  print_packets [] = []
  print_packets (p ∷ ps) = (header p.expected_packet_size ++ p.mem_buffer) ++ print_packets ps

  abbrev pub printed : Collector → List ℕ
  printed c = print_packets c.packets ++ c.temp_data_buffer

  pub print_packets-append :
      (ps qs : List Packet) → print_packets (ps ++ qs) ≡ print_packets ps ++ print_packets qs
  print_packets-append [] qs = refl
  print_packets-append (p ∷ ps) qs =
      ap (◌++◌ (header p.expected_packet_size ++ p.mem_buffer)) (print_packets-append ps qs)
      ∙ sym (
          append_assoc (header p.expected_packet_size ++ p.mem_buffer) (print_packets ps)
            (print_packets qs))

  print_packets-written :
      (p : Packet) (bytes : List ℕ)
      → print_packets (write_to_packet p bytes ∷ []) ++ drop (write_size p (length bytes)) bytes
        ≡ print_packets (p ∷ []) ++ bytes
  unfolding write_to_packet
  print_packets-written p bytes =
      let head = header p.expected_packet_size in
      let n = write_size p (length bytes) in
      ap (λ l. l ++ drop n bytes)
        (append-nil _ ∙ sym (append_assoc head p.mem_buffer (take n bytes)))
      ∙ append_assoc (head ++ p.mem_buffer) (take n bytes) (drop n bytes)
      ∙ ap (◌++◌ (head ++ p.mem_buffer)) (take-append-drop n bytes)
      ∙ ap (λ l. l ++ bytes) (sym (append-nil (head ++ p.mem_buffer)))

  pub print_packets-write_to_back :
      (ps : List Packet) (bytes : List ℕ)
      → ps ≢ []
      → print_packets (write_to_back ps bytes).0 ++ (write_to_back ps bytes).1
        ≡ print_packets ps ++ bytes
  unfolding write_to_back
  print_packets-write_to_back [] bytes some_packet = absurd (some_packet refl)
  print_packets-write_to_back (p ∷ []) bytes some_packet = print_packets-written p bytes
  print_packets-write_to_back (p ∷ q ∷ ps) bytes some_packet =
      let head = header p.expected_packet_size ++ p.mem_buffer in
      append_assoc head (print_packets (write_to_back (q ∷ ps) bytes).0)
        (write_to_back (q ∷ ps) bytes).1
      ∙ ap (◌++◌ head) (print_packets-write_to_back (q ∷ ps) bytes (λ e. absurd (cc)))
      ∙ sym (append_assoc head (print_packets (q ∷ ps)) bytes)

abbrev pub IsFit : List Packet → Type 0
IsFit ps =
    All
      (λ p.
        (length p.mem_buffer ≤ p.expected_packet_size)
        × (1 ≤ p.expected_packet_size)
        × (p.capacity ≡ p.expected_packet_size))
      ps

pub write_to_back-IsFit :
    (ps : List Packet) (bytes : List ℕ) → IsFit ps → IsFit (write_to_back ps bytes).0
unfolding write_to_back write_to_packet write_size
write_to_back-IsFit [] bytes f = tt
write_to_back-IsFit (p ∷ []) bytes f = (
  ground (
    arith,
    f.0.0,
    f.0.1,
    f.0.2,
    length-append p.mem_buffer (take (write_size p (length bytes)) bytes),
    length-take (write_size p (length bytes)) bytes,
  ),
  tt,
)
write_to_back-IsFit (p ∷ q ∷ ps) bytes f = (f.0, write_to_back-IsFit (q ∷ ps) bytes f.1)

pub length-write_to_back :
    (ps : List Packet) (bytes : List ℕ) → length (write_to_back ps bytes).1 ≤ length bytes
unfolding write_to_back
length-write_to_back [] bytes = omega arith
length-write_to_back (p ∷ []) bytes = omega (arith, length-drop (write_size p (length bytes)) bytes)
length-write_to_back (p ∷ q ∷ ps) bytes = length-write_to_back (q ∷ ps) bytes

-- A packet that is not complete takes at least one byte.
pub write_to_back-takes :
    (ps : List Packet) (b : ℕ) (bs : List ℕ)
    → needs_packet ps ≡ false
    → IsFit ps
    → length (write_to_back ps (b ∷ bs)).1 ≤ length bs
unfolding write_to_back needs_packet is_packet_complete write_size
write_to_back-takes [] b bs n f = absurd (ground (arith, n))
write_to_back-takes (p ∷ []) b bs n f =
    ground (arith, n, f.0.0, f.0.2, length-drop (write_size p (length (b ∷ bs))) (b ∷ bs))
write_to_back-takes (p ∷ q ∷ ps) b bs n f = write_to_back-takes (q ∷ ps) b bs n f.1

pub IsFit-append-one :
    (ps : List Packet) (p : Packet)
    → IsFit ps
    → length p.mem_buffer ≤ p.expected_packet_size
    → 1 ≤ p.expected_packet_size
    → p.capacity ≡ p.expected_packet_size
    → IsFit (ps ++ p ∷ [])
IsFit-append-one [] p f h k m = ((h, k, m), tt)
IsFit-append-one (q ∷ ps) p f h k m = (f.0, IsFit-append-one ps p f.1 h k m)
