-- ===== src/Circular.antt =====
-- aether/safe_stream/details/circular_buffer.h: the byte ring under both ends of the safe stream.
-- The template argument `Capacity` is the section's parameter.
pub mod Copy
pub mod Contents
pub mod Insert
pub mod Erase
pub mod Push
pub mod Read
use aether_client_cpp.Prelude.{
  ℕ, zero, suc, ◌+◌, ◌-◌, ltb, leb, ◌==◌, Bool, true, false, ◌||◌, if◌then◌else◌, List, [], ◌∷◌,
  ◌++◌, length, take, drop,
}
use aether_client_cpp.Prelude.Sizes.{sub_size}
use aether_client_cpp.Ring.{RingIndex, RingRange, make, distance, plus, minus, is_after}

pub data CircularBufferError : Type 0 where
  data_overflow empty_buffer index_out_of_range : CircularBufferError

-- `Result<T, CircularBufferError>`
pub data Result {ℓ} (A : Type ℓ) : Type ℓ where
  ok : A → Result A
  err : CircularBufferError → Result A

-- `std::array<value_type, kCapacity>`, by the value at each index.
abbrev pub Bytes : Type 0
Bytes = ℕ → ℕ

pub record CircularBuffer : Type 0 where
  pub begin : RingIndex
  pub end : RingIndex
  pub buffer : Bytes

-- `DSpan`: the bytes that the two spans show.
pub record DSpan : Type 0 where
  pub first : List ℕ
  pub second : List ℕ

unfoldable pub dspan_size : DSpan → ℕ
dspan_size d = length d.first + length d.second

-- `std::copy_n` into the array from index `pos` on.
pub copy_n : List ℕ → ℕ → Bytes → Bytes
copy_n [] pos buffer = buffer
copy_n (x ∷ xs) pos buffer = copy_n xs (pos + 1) (λ i. if i == pos then x else buffer i)

-- The `n` bytes of the array from index `pos` on.
pub span : Bytes → ℕ → ℕ → List ℕ
span buffer pos zero = []
span buffer pos (suc n) = buffer pos ∷ span buffer (pos + 1) n

pub data CopyState : Type 0 where
  copied : RingIndex → Bytes → List ℕ → CopyState

module _ (cap : ℕ) where
  -- One round of the loop of `Insert`: how much fits before the end of the array.
  pub copy_size : RingIndex → List ℕ → ℕ
  copy_size pos bytes =
      let remaining = sub_size cap pos in
      if ltb remaining (length bytes) then remaining else length bytes

  -- The loop of `Insert`, on fuel: the position after it, the array, and the bytes that are left.
  pub insert_loop : ℕ → RingIndex → Bytes → List ℕ → CopyState
  insert_loop zero pos buffer bytes = copied pos buffer bytes
  insert_loop (suc fuel) pos buffer [] = copied pos buffer []
  insert_loop (suc fuel) pos buffer (x ∷ xs) =
      let n = copy_size pos (x ∷ xs) in
      insert_loop fuel (plus cap pos n) (copy_n (take n (x ∷ xs)) pos buffer) (drop n (x ∷ xs))

  -- The end of `Insert`: `end_` moves if the data went past it.
  pub insert_done : CircularBuffer → RingIndex → CopyState → CircularBuffer × Result RingRange
  insert_done c start (copied pos buffer rest) = (
    record c { buffer = buffer; end = if is_after cap c.begin pos c.end then pos else c.end },
    ok (record { left = start; right = minus cap pos 1 }),
  )

  pub available : CircularBuffer → RingIndex → ℕ
  available c pos = if c.begin == pos then cap else distance cap pos c.begin

  pub insert : CircularBuffer → RingIndex → List ℕ → CircularBuffer × Result RingRange
  insert c pos bytes =
      if ltb (available c pos) (length bytes)
      then (c, err data_overflow)
      else insert_done c pos (insert_loop (length bytes) pos c.buffer bytes)

  pub push : CircularBuffer → List ℕ → CircularBuffer × Result RingRange
  push c bytes = insert c c.end bytes

  pub read_dspan : CircularBuffer → RingIndex → ℕ → DSpan
  read_dspan c start size =
      let first_max = sub_size cap start in
      let first = if ltb size first_max then size else first_max in
      record {
        first = span c.buffer start first;
        second = if ltb first size then span c.buffer 0 (size - first) else [];
      }

  pub read : CircularBuffer → RingIndex → ℕ → Result DSpan
  read c start size =
      let available = distance cap start c.end in
      if c.begin == c.end || available == 0
      then err empty_buffer
      else if ltb (distance cap c.begin c.end) available
      then err index_out_of_range
      else ok (read_dspan c start (if ltb available size then available else size))

  -- A bad position trips an assert in a debug build and is ignored in a release build.
  pub erase : CircularBuffer → RingIndex → CircularBuffer
  erase c to =
      if ltb (distance cap c.begin c.end) (distance cap to c.end)
      then c
      else record c { begin = to }

  pub erase_from : CircularBuffer → RingIndex → CircularBuffer
  erase_from c from =
      if ltb (distance cap c.begin c.end) (distance cap from c.end)
      then c
      else record c { end = from }

  unfoldable pub reset : CircularBuffer → ℕ → CircularBuffer
  reset c offset = record c { begin = make cap offset; end = make cap offset }

  unfoldable pub size : CircularBuffer → ℕ
  size c = distance cap c.begin c.end
