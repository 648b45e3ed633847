-- ===== src/Circular/Contents.antt =====
-- circular_buffer.h: the bytes that a buffer holds, read off the ring.
use aether_client_cpp.Prelude.{
  ℕ, zero, suc, ◌+◌, ◌-◌, ◌≤◌, ◌<◌, ◌≡◌, refl, arith, ap, List, [], ◌∷◌, ◌++◌, length, take, drop,
  get_or, get_or-take, get_or-drop, length-take, length-drop, min, eq_of_get_or, take-append-drop,
  ◌∙◌, ap₂, sym,
}
use aether_client_cpp.Ring.{RingIndex, plus}
use aether_client_cpp.Ring.Distance.{IsCapacity, plus_lem, plus-lt, plus-plus, distance-lt}
use aether_client_cpp.Circular.{Bytes, CircularBuffer, span, size}

pub record IsValid (cap : ℕ) (c : CircularBuffer) : Type 0 where
  pub begin_in : c.begin < cap
  pub end_in : c.end < cap

module _ (cap : ℕ) where
  -- The `n` bytes from index `pos` on, going round at the capacity.
  unfoldable pub window : Bytes → RingIndex → ℕ → List ℕ
  window buffer pos zero = []
  window buffer pos (suc n) = buffer pos ∷ window buffer (plus cap pos 1) n

  -- Oldest first.
  unfoldable pub contents : CircularBuffer → List ℕ
  contents c = window c.buffer c.begin (size cap c)

pub length-window : (cap : ℕ) (buffer : Bytes) (pos n : ℕ) → length (window cap buffer pos n) ≡ n
unfolding window
length-window cap buffer pos zero = refl
length-window cap buffer pos (suc n) = ap suc (length-window cap buffer (plus cap pos 1) n)

module _ {cap : ℕ} (w : IsCapacity cap) where
  pub get_or-window :
      (buffer : Bytes) (pos n k : ℕ)
      → pos < cap
      → n ≤ cap
      → k < n
      → get_or (window cap buffer pos n) k 0 ≡ buffer (plus cap pos k)
  unfolding window
  get_or-window buffer pos zero k hp hn hk = absurd (omega arith)
  get_or-window buffer pos (suc n) zero hp hn hk = ap buffer (ground (arith, plus_lem w pos 0 hp))
  get_or-window buffer pos (suc n) (suc k) hp hn hk =
      get_or-window buffer (plus cap pos 1) n k (plus-lt w pos 1) (omega arith) (omega arith)
      ∙ ap buffer (
          plus-plus w pos 1 k hp (omega arith) (omega arith) (omega arith)
          ∙ ap (plus cap pos) (omega arith))

  -- Where nothing goes round, a window is a span of the array.
  pub window-span :
      (buffer : Bytes) (pos n : ℕ) → pos + n ≤ cap → window cap buffer pos n ≡ span buffer pos n
  unfolding window span
  window-span buffer pos zero h = refl
  window-span buffer pos (suc zero) h = refl
  window-span buffer pos (suc (suc n)) h = ap (◌∷◌ (buffer pos)) (
      ap (λ p. window cap buffer p (suc n)) (ground (arith, plus_lem w pos 1))
      ∙ window-span buffer (pos + 1) (suc n) (omega arith))

  pub take-window :
      (buffer : Bytes) (pos m n : ℕ)
      → pos < cap
      → n ≤ cap
      → take m (window cap buffer pos n) ≡ window cap buffer pos (min m n)
  take-window buffer pos m n hp h =
      let xs = window cap buffer pos n in
      let sizes : length (take m xs) ≡ min m n =
        omega (arith, length-take m xs, length-window cap buffer pos n) in
      eq_of_get_or (take m xs) (window cap buffer pos (min m n)) 0
        (omega (arith, length-window cap buffer pos (min m n)))
        λ k hk. ground (
          arith,
          get_or-take m xs k 0,
          get_or-window buffer pos n k,
          get_or-window buffer pos (min m n) k,
        )

  pub drop-window :
      (buffer : Bytes) (pos m n : ℕ)
      → pos < cap
      → n ≤ cap
      → m ≤ n
      → drop m (window cap buffer pos n) ≡ window cap buffer (plus cap pos m) (n - m)
  drop-window buffer pos m n hp h hm =
      let xs = window cap buffer pos n in
      let sizes : length (drop m xs) ≡ n - m =
        omega (arith, length-drop m xs, length-window cap buffer pos n) in
      eq_of_get_or (drop m xs) (window cap buffer (plus cap pos m) (n - m)) 0
        (omega (arith, length-window cap buffer (plus cap pos m) (n - m)))
        λ k hk. ground (
          arith,
          get_or-drop m xs k 0,
          get_or-window buffer pos n (m + k),
          get_or-window buffer (plus cap pos m) (n - m) k (plus-lt w pos m),
          plus-plus w pos m k,
        )

  pub window-append :
      (buffer : Bytes) (pos m n : ℕ)
      → pos < cap
      → m + n ≤ cap
      → window cap buffer pos m ++ window cap buffer (plus cap pos m) n
        ≡ window cap buffer pos (m + n)
  window-append buffer pos m n hp h =
      ap₂ ◌++◌
        (sym (take-window buffer pos m (m + n) hp h ∙ ap (window cap buffer pos) (omega arith)))
        (sym (
          drop-window buffer pos m (m + n) hp h (omega arith)
          ∙ ap (window cap buffer (plus cap pos m)) (omega arith)))
      ∙ take-append-drop m (window cap buffer pos (m + n))

  pub length-contents : (c : CircularBuffer) → length (contents cap c) ≡ size cap c
  unfolding contents
  length-contents c = length-window cap c.buffer c.begin (size cap c)

  pub size-lt : {c : CircularBuffer} → IsValid cap c → size cap c < cap
  unfolding size
  size-lt {c} v = distance-lt w c.begin c.end v.begin_in v.end_in
