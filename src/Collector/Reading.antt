-- ===== src/Collector/Reading.antt =====
-- data_packet_collector.cpp: how the size of a packet is read from what came earlier and what came now.
use aether_client_cpp.Prelude.{
  ℕ, zero, ◌+◌, ◌-◌, ◌≤◌, ◌<◌, ◌≡◌, arith, ap, sym, ◌∙◌, ltb, if◌then◌else◌, List, [], ◌++◌, length,
  take, drop, Option, none, some, append_assoc, length-append, length-take, take-append-drop,
  take-append_left, dec_lt,
}
use aether_client_cpp.Collector.Printed.{take-all, drop-append_le, drop-append_ge}

-- What the code relies on in the reading of sizes: from the front, what was printed; from no more bytes
-- than it says; and that 8 bytes are enough.
pub record IsReader (header : ℕ → List ℕ) (read_size : List ℕ → Option (ℕ × ℕ)) : Type 0 where
  pub reads :
      (bytes : List ℕ) (v n : ℕ)
      → read_size bytes ≡ some (v, n)
      → (n ≤ length bytes) × (header v ++ drop n bytes ≡ bytes)
  pub nothing : read_size [] ≡ none
  pub near :
      (bytes : List ℕ) (m v n : ℕ)
      → read_size bytes ≡ some (v, n)
      → n ≤ m
      → read_size (take m bytes) ≡ some (v, n)
  pub short : (bytes : List ℕ) → read_size bytes ≡ none → length bytes < 8

pub take_within :
    (bytes : List ℕ) → take (if ltb 8 (length bytes) then 8 else length bytes) bytes ≡ take 8 bytes
take_within bytes = elim (dec_lt 8 (length bytes)) [
  | yes lt ↦ ap (λ n. take n bytes) {y = 8} (ground (arith, lt))
  | no ge ↦
      ap (λ n. take n bytes) {y = length bytes} (ground (arith, ge))
      ∙ take-all (length bytes) bytes (omega arith)
      ∙ sym (take-all 8 bytes (omega (arith, ge)))
]

module _ {header : ℕ → List ℕ} {read_size : List ℕ → Option (ℕ × ℕ)}
    (laws : IsReader header read_size) where
  -- What a size that is read takes of the new bytes.
  pub size_read :
      (temp bytes : List ℕ) (n v k : ℕ)
      → read_size temp ≡ none
      → read_size (temp ++ take n bytes) ≡ some (v, k)
      → (temp ++ bytes ≡ header v ++ drop (k - length temp) bytes)
        × (length temp < k)
        × (k ≤ length temp + n)
  size_read temp bytes n v k unread read =
      let (most, front) = laws.reads (temp ++ take n bytes) v k read in
      let whole : (temp ++ take n bytes) ++ drop n bytes ≡ temp ++ bytes =
        append_assoc temp (take n bytes) (drop n bytes)
        ∙ ap (◌++◌ temp) (take-append-drop n bytes) in
      let past : length temp < k = elim (dec_lt (length temp) k) [
        | yes lt ↦ lt
        | no ge ↦ absurd (
            omega (
              arith,
              clash (v, k)
                  (sym unread
                    ∙ sym (ap read_size (take-append_left temp (take n bytes)))
                    ∙ laws.near (temp ++ take n bytes) (length temp) v k read (omega (arith, ge))),
            ))
      ] in
      (
        sym whole
            ∙ ap (λ l. l ++ drop n bytes) (sym front)
            ∙ append_assoc (header v) (drop k (temp ++ take n bytes)) (drop n bytes)
            ∙ ap (◌++◌ (header v)) (
                sym (drop-append_le k (temp ++ take n bytes) (drop n bytes) most)
                ∙ ap (drop k) whole
                ∙ drop-append_ge k temp bytes (omega (arith, past))),
        past,
        omega (arith, most, length-append temp (take n bytes), length-take n bytes),
      )
    where
      clash : (r : ℕ × ℕ) → ◌≡◌ {A = Option (ℕ × ℕ)} none (some r) → zero ≡ 1
      clash r e = absurd (cc)
