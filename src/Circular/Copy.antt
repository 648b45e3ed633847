-- ===== src/Circular/Copy.antt =====
-- circular_buffer.h: what the copying loop of `Insert` writes, and where.
use aether_client_cpp.Prelude.{
  ℕ, zero, suc, ◌+◌, ◌-◌, ◌≤◌, ◌<◌, ◌≡◌, ◌≢◌, refl, arith, ap, ltb, leb, ◌==◌, if◌then◌else◌, List,
  [], ◌∷◌, length, take, drop, get_or, get_or-take, get_or-drop, length-take, length-drop, dec_lt,
  min,
}
use aether_client_cpp.Ring.{distance, plus}
use aether_client_cpp.Ring.Distance.{IsCapacity, distance_lem, plus_lem, plus-lt, plus-plus}
use aether_client_cpp.Circular.{Bytes, copied, copy_n, copy_size, insert_loop}

get_or-cons : (x : ℕ) (xs : List ℕ) (k : ℕ) → k ≢ 0 → get_or (x ∷ xs) k 0 ≡ get_or xs (k - 1) 0
get_or-cons x xs zero h = absurd (h refl)
get_or-cons x xs (suc k) h = ap (λ j. get_or xs j 0) (omega arith)

-- `copy_n` writes the list, and nothing else.
copy_n_lem :
    (xs : List ℕ) (pos : ℕ) (buffer : Bytes) (i : ℕ)
    → copy_n xs pos buffer i ≡ (
        if leb pos i
        then if ltb i (pos + length xs) then get_or xs (i - pos) 0 else buffer i
        else buffer i)
unfolding copy_n
copy_n_lem [] pos buffer i = ground arith
copy_n_lem (x ∷ xs) pos buffer i = ground (
  arith,
  copy_n_lem xs (pos + 1) (λ j. if j == pos then x else buffer j) i,
  get_or-cons x xs (i - pos),
)

-- What the loop has done when it stops, started at `pos` with `bytes` to write.
pub record Copied (cap pos : ℕ) (buffer : Bytes) (bytes : List ℕ) (buffer' : Bytes) : Type 0 where
  pub written : (k : ℕ) → k < length bytes → buffer' (plus cap pos k) ≡ get_or bytes k 0
  pub kept : (i : ℕ) → i < cap → length bytes ≤ distance cap pos i → buffer' i ≡ buffer i
  pub outside : (i : ℕ) → cap ≤ i → buffer' i ≡ buffer i

module _ {cap : ℕ} (w : IsCapacity cap) where
  copy_size_lem :
      (pos : ℕ) (bytes : List ℕ)
      → pos < cap
      → copy_size cap pos bytes ≡ min (cap - pos) (length bytes)
  unfolding copy_size
  copy_size_lem pos bytes h = ground arith

  -- The rounds put together: the first writes `n` bytes in front of those that the others write.
  module _ (pos n : ℕ) (buffer buffer' : Bytes) (bytes : List ℕ) (hp : pos < cap)
      (hn : n ≤ length bytes) (hi : pos + n ≤ cap) (hl : length bytes ≤ cap)
      (c : Copied cap
        (plus cap pos n)
        (copy_n (take n bytes) pos buffer)
        (drop n bytes)
        buffer') where
    round_head : (k : ℕ) → k < n → buffer' (plus cap pos k) ≡ get_or bytes k 0
    round_head k hk = ground (
      arith,
      c.kept (plus cap pos k) (plus-lt w pos k),
      plus_lem w pos n hp,
      plus_lem w pos k hp,
      distance_lem w (plus cap pos n) (plus cap pos k) (plus-lt w pos n) (plus-lt w pos k),
      length-drop n bytes,
      length-take n bytes,
      copy_n_lem (take n bytes) pos buffer (plus cap pos k),
      ap (λ (j : ℕ). get_or (take n bytes) j 0) {x = plus cap pos k - pos} {y = k},
      get_or-take n bytes k 0,
    )

    round_tail : (k : ℕ) → n ≤ k → k < length bytes → buffer' (plus cap pos k) ≡ get_or bytes k 0
    round_tail k hn' hk = ground (
      arith,
      c.written (k - n),
      length-drop n bytes,
      plus-plus w pos n (k - n),
      ap (plus cap pos) {x = n + (k - n)} {y = k},
      get_or-drop n bytes (k - n) 0,
      ap (λ (j : ℕ). get_or bytes j 0) {x = n + (k - n)} {y = k},
    )

    round_kept : (i : ℕ) → i < cap → length bytes ≤ distance cap pos i → buffer' i ≡ buffer i
    round_kept i hi' far = ground (
      arith,
      c.kept i hi',
      plus_lem w pos n hp,
      distance_lem w pos i hp hi',
      distance_lem w (plus cap pos n) i (plus-lt w pos n) hi',
      length-drop n bytes,
      length-take n bytes,
      copy_n_lem (take n bytes) pos buffer i,
    )

    Copied-round : Copied cap pos buffer bytes buffer'
    Copied-round = record {
      written = λ k hk. elim (dec_lt k n) [
        | yes p ↦ round_head k p
        | no p ↦ round_tail k (omega arith) hk
      ];
      kept = round_kept;
      outside = λ i far.
          ground
            (arith, c.outside i far, length-take n bytes, copy_n_lem (take n bytes) pos buffer i);
    }

  Copied-nil : (pos : ℕ) (buffer : Bytes) → Copied cap pos buffer [] buffer
  Copied-nil pos buffer = record {
    written = λ k h. absurd (omega arith);
    kept = λ i _ _. refl;
    outside = λ i _. refl;
  }

  -- The loop ends with all bytes written, `Copied` of the array, and its position past the bytes.
  pub insert_loop-Copied :
      (fuel pos : ℕ) (buffer : Bytes) (bytes : List ℕ)
      → pos < cap
      → length bytes ≤ fuel
      → length bytes ≤ cap
      → (buffer' : Bytes) × (insert_loop cap fuel pos buffer bytes
          ≡ copied (plus cap pos (length bytes)) buffer' [])
        × Copied cap pos buffer bytes buffer'
  unfolding insert_loop
  insert_loop-Copied zero pos buffer [] hp hf hl =
      (buffer, ground (arith, plus_lem w pos 0 hp), Copied-nil pos buffer)
  insert_loop-Copied zero pos buffer (x ∷ xs) hp hf hl = absurd (omega arith)
  insert_loop-Copied (suc fuel) pos buffer [] hp hf hl =
      (buffer, ground (arith, plus_lem w pos 0 hp), Copied-nil pos buffer)
  insert_loop-Copied (suc fuel) pos buffer (x ∷ xs) hp hf hl =
      let n = copy_size cap pos (x ∷ xs) in
      let size : n ≡ min (cap - pos) (length (x ∷ xs)) = copy_size_lem pos (x ∷ xs) hp in
      let rest =
        insert_loop-Copied fuel (plus cap pos n) (copy_n (take n (x ∷ xs)) pos buffer)
          (drop n (x ∷ xs)) (plus-lt w pos n) (omega (arith, length-drop n (x ∷ xs)))
          (omega (arith, length-drop n (x ∷ xs))) in
      (
        rest.0,
        ground (
          arith,
          rest.1,
          plus-plus w pos n (length (x ∷ xs) - n),
          length-drop n (x ∷ xs),
          ap (plus cap pos) {x = n + (length (x ∷ xs) - n)} {y = length (x ∷ xs)},
        ),
        Copied-round pos n buffer rest.0 (x ∷ xs) hp (omega arith) (omega arith) hl rest.2,
      )
