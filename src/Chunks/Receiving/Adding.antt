-- ===== src/Chunks/Receiving/Adding.antt =====
-- receiving_chunk_list.h: the outcomes of `AddChunk`.
use aether_client_cpp.Prelude.{
  ℕ, ◌≡◌, inl, inr, refl, arith, leb, true, if◌then◌else◌, List, [], ◌∷◌, none, some, find_if,
  Option-cases, Bool-cases,
}
use aether_client_cpp.Ring.{RingRange, is_before, range_eq}
use aether_client_cpp.Chunks.Receiving.{
  Entry, ReceiveChunkList, ChunkAddResult, duplicate, added, add_repeated, same_key, emplace,
  insert_range, add_range, add_known, add_new, add_chunk,
}

-- `AddChunk` either leaves the ranges as they are or puts the new one in its place.
pub data AddOutcome (cap : ℕ) (l : ReceiveChunkList) (range : RingRange) (l' : ReceiveChunkList)
    : ChunkAddResult → Type 0 where
  ignored : l' ≡ l → AddOutcome cap l range l' duplicate
  repeated :
      l'.ranges ≡ l.ranges
      → l'.buffer_begin ≡ l.buffer_begin
      → AddOutcome cap l range l' add_repeated
  placed :
      l'.ranges ≡ insert_range cap l.buffer_begin range l.ranges
      → l'.buffer_begin ≡ l.buffer_begin
      → AddOutcome cap l range l' added

module _ (cap : ℕ) (l : ReceiveChunkList) (range : RingRange) (n : ℕ) where
  add_known-AddOutcome :
      (old : Entry)
      → AddOutcome cap l range (add_known cap l range n old).0 (add_known cap l range n old).1
  unfolding add_known add_range
  add_known-AddOutcome old = elim (Bool-cases (range_eq old.chunk.range range)) [
    | inr other ↦ rw other (placed refl refl)
    | inl same ↦ elim (Bool-cases (leb n old.chunk.repeat_count)) [
      | inl again ↦ rw (same, again) (ignored refl)
      | inr more ↦ rw (same, more) (repeated refl refl)
    ]
  ]

  pub add_chunk-AddOutcome :
      AddOutcome cap l range (add_chunk cap l range n).0 (add_chunk cap l range n).1
  unfolding add_chunk add_new add_range
  add_chunk-AddOutcome =
      elim (Option-cases (find_if (λ e. same_key cap l.buffer_begin e.key range.left) l.chunks)) [
        | inl missing ↦ rw (missing, add_chunk) (placed refl refl)
        | inr (old, found) ↦ rw (found, add_chunk) (add_known-AddOutcome old)
      ]

module _ (cap begin : ℕ) (new : Entry) where
  same_key_self : same_key cap begin new.key new.key ≡ true
  unfolding same_key is_before
  same_key_self = ground arith

  find_if-emplace :
      (es : List Entry)
      → find_if (λ e. same_key cap begin e.key new.key) es ≡ none
      → find_if (λ e. same_key cap begin e.key new.key) (emplace cap begin new es) ≡ some new
  unfolding emplace
  find_if-emplace [] h = ground (arith, same_key_self)
  find_if-emplace (e ∷ es) h = ground (arith, same_key_self, find_if-emplace es)

-- `AddChunk` of a range whose left index is not registered adds it. Of the same range again, it
-- reports a duplicate, or a repeat if the repeat count is higher.
pub add_chunk_again :
    (cap : ℕ) (l : ReceiveChunkList) (range : RingRange) (n m : ℕ)
    → find_if (λ e. same_key cap l.buffer_begin e.key range.left) l.chunks ≡ none
    → let (l', result) = add_chunk cap l range n in
      (result ≡ added)
      × ((add_chunk cap l' range m).1 ≡ (if leb m n then duplicate else add_repeated))
unfolding add_chunk add_new add_known add_range range_eq
add_chunk_again cap l range n m h =
    let entry : Entry = record {
      key = range.left;
      chunk = record { range = range; repeat_count = n };
    } in
    ground (arith, h, find_if-emplace cap l.buffer_begin entry l.chunks h)
