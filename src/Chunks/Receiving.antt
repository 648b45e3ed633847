-- ===== src/Chunks/Receiving.antt =====
-- aether/safe_stream/details/receiving_chunk_list.h: the chunks that came in, as a map from their
-- left index and as ranges in ring order.
pub mod Ranges
pub mod Chain
pub mod Adding
use aether_client_cpp.Prelude.{
  ℕ, ◌+◌, ◌==◌, leb, Bool, true, false, not, ◌&&◌, if◌then◌else◌, List, [], ◌∷◌, ◌++◌, Option, none,
  some, erase_if, find_if,
}
use aether_client_cpp.Ring.{
  RingIndex, RingRange, plus, minus, is_before, is_after, before_or_at, range_eq,
}

pub data ChunkAddResult : Type 0 where
  invalid duplicate added add_repeated : ChunkAddResult

pub record Chunk : Type 0 where
  pub range : RingRange
  pub repeat_count : ℕ

-- An entry of the `std::map` from left indices.
pub record Entry : Type 0 where
  pub key : RingIndex
  pub chunk : Chunk

pub record ReceiveChunkList : Type 0 where
  pub buffer_begin : RingIndex
  pub chunks : List Entry
  pub ranges : List RingRange

unfoldable pub init : RingIndex → ReceiveChunkList
init buffer_begin = record { buffer_begin = buffer_begin; chunks = []; ranges = [] }

pub set_buffer_begin : ReceiveChunkList → RingIndex → ReceiveChunkList
set_buffer_begin l buffer_begin = record l { buffer_begin = buffer_begin }

unfoldable pub empty : ReceiveChunkList → Bool
empty l = elim l.chunks [ [] ↦ true | e ∷ es ↦ false ]

-- `it->second.repeat_count = repeat_count` through the iterator that `emplace` returned.
abbrev set_repeat_count : RingIndex → ℕ → List Entry → List Entry
set_repeat_count key n [] = []
set_repeat_count key n (e ∷ es) =
    if e.key == key
    then record e { chunk = record (e.chunk) { repeat_count = n } } ∷ es
    else e ∷ set_repeat_count key n es

module _ (cap : ℕ) where
  -- Keys that are equivalent for the map: neither comes before the other.
  pub same_key : RingIndex → RingIndex → RingIndex → Bool
  same_key begin a b = not (is_before cap begin a b) && not (is_before cap begin b a)

  -- `emplace` of a key that is not in the map, in key order.
  pub emplace : RingIndex → Entry → List Entry → List Entry
  emplace begin new [] = new ∷ []
  emplace begin new (e ∷ es) =
      if is_before cap begin new.key e.key then new ∷ e ∷ es else e ∷ emplace begin new es

  -- `std::lower_bound` by the left index, and `insert` there.
  pub insert_range : RingIndex → RingRange → List RingRange → List RingRange
  insert_range begin range [] = range ∷ []
  insert_range begin range (r ∷ rs) =
      if is_before cap begin r.left range.left
      then r ∷ insert_range begin range rs
      else range ∷ r ∷ rs

  pub add_range : ReceiveChunkList → RingRange → ReceiveChunkList
  add_range l range = record l { ranges = insert_range l.buffer_begin range l.ranges }

  -- `AddChunk` where the map has an entry of that key.
  pub add_known : ReceiveChunkList → RingRange → ℕ → Entry → ReceiveChunkList × ChunkAddResult
  add_known l range repeat_count old =
      if range_eq old.chunk.range range
      then (if leb repeat_count old.chunk.repeat_count
          then (l, duplicate)
          else (record l { chunks = set_repeat_count old.key repeat_count l.chunks }, add_repeated))
      else (add_range l range, added)

  pub add_new : ReceiveChunkList → RingRange → ℕ → ReceiveChunkList × ChunkAddResult
  add_new l range repeat_count =
      let entry : Entry = record {
        key = range.left;
        chunk = record { range = range; repeat_count = repeat_count };
      } in
      (add_range (record l { chunks = emplace l.buffer_begin entry l.chunks }) range, added)

  pub add_chunk : ReceiveChunkList → RingRange → ℕ → ReceiveChunkList × ChunkAddResult
  add_chunk l range repeat_count =
      elim (find_if (λ e. same_key l.buffer_begin e.key range.left) l.chunks) [
        | none ↦ add_new l range repeat_count
        | some old ↦ add_known l range repeat_count old
      ]

  -- The loop of `ReceiveChunk`: `right` is `range.right`, `expected` is `expected_index`.
  pub receive_loop : RingIndex → RingIndex → RingIndex → List RingRange → RingIndex
  receive_loop begin right expected [] = right
  receive_loop begin right expected (r ∷ rs) =
      let right' = if is_after cap begin r.right right then r.right else right in
      let rest = receive_loop begin right' (plus cap right' 1) rs in
      if is_after cap begin r.left expected then right else rest

  unfoldable pub receive_chunk : ReceiveChunkList → RingRange
  receive_chunk l = record {
    left = l.buffer_begin;
    right = receive_loop l.buffer_begin l.buffer_begin l.buffer_begin l.ranges;
  }

  -- What `Acknowledge` does with the ranges: it drops, cuts or keeps each.
  pub acknowledge_ranges : RingIndex → RingIndex → List RingRange → List RingRange
  acknowledge_ranges begin to [] = []
  acknowledge_ranges begin to (r ∷ rs) =
      let rest = acknowledge_ranges begin to rs in
      if before_or_at cap begin r.right to
      then rest
      else (if before_or_at cap begin r.left to then record r { left = plus cap to 1 } else r)
        ∷ rest

  pub acknowledge : ReceiveChunkList → RingIndex → ReceiveChunkList
  acknowledge l to = record l {
    chunks = erase_if (λ e. before_or_at cap l.buffer_begin e.key to) l.chunks;
    ranges = acknowledge_ranges l.buffer_begin to l.ranges;
  }

  -- The loop of `FindMissedChunk`.
  pub missed_loop : RingIndex → RingIndex → List RingRange → Option RingRange
  missed_loop begin expected [] = none
  missed_loop begin expected (r ∷ rs) =
      let rest = missed_loop begin (plus cap r.right 1) rs in
      if is_after cap begin r.left expected
      then some (record { left = expected; right = minus cap r.left 1 })
      else rest

  pub find_missed_chunk : ReceiveChunkList → Option RingRange
  find_missed_chunk l = missed_loop l.buffer_begin l.buffer_begin l.ranges
