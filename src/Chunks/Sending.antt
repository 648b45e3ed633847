-- ===== src/Chunks/Sending.antt =====
-- aether/safe_stream/details/sending_chunk_list.h: the chunks that are on their way, in the order
-- in which they were last sent.
use aether_client_cpp.Prelude.{
  ℕ, ◌==◌, Bool, true, false, if◌then◌else◌, List, [], ◌∷◌, ◌++◌, Option, none, some, erase_if,
  find_if,
}
use aether_client_cpp.Ring.{RingIndex, RingRange, before_or_at, in_range}

pub record Chunk : Type 0 where
  pub range : RingRange
  pub send_time : ℕ
  pub repeat_count : ℕ

pub record SendingChunkList : Type 0 where
  pub buffer_begin : RingIndex
  pub chunks : List Chunk

unfoldable pub init : RingIndex → SendingChunkList
init buffer_begin = record { buffer_begin = buffer_begin; chunks = [] }

unfoldable pub set_buffer_begin : SendingChunkList → RingIndex → SendingChunkList
set_buffer_begin l buffer_begin = record l { buffer_begin = buffer_begin }

-- The search of `Register`: the first chunk that starts at this index.
abbrev pub starts_at : RingIndex → Chunk → Bool
starts_at left c = c.range.left == left

-- `chunks_.erase(old_it)`: the first chunk that starts at this index goes.
unfoldable pub erase_first : RingIndex → List Chunk → List Chunk
erase_first left [] = []
erase_first left (c ∷ cs) = if starts_at left c then cs else c ∷ erase_first left cs

-- The chunk that `Register` puts last; its repeat count is the old chunk's, if there is one.
unfoldable pub registered : SendingChunkList → RingRange → ℕ → Chunk
registered l range send_time = record {
  range = range;
  send_time = send_time;
  repeat_count = elim (find_if (starts_at range.left) l.chunks) [
    | none ↦ 0
    | some old ↦ old.repeat_count
  ];
}

-- `Register` returns a reference to the last chunk, through which the caller sets the repeat count:
-- `update` is that write.
unfoldable pub register : SendingChunkList → RingRange → ℕ → (Chunk → Chunk) → SendingChunkList
register l range send_time update = record l {
  chunks = erase_first range.left l.chunks ++ update (registered l range send_time) ∷ [];
}

unfoldable pub front : SendingChunkList → Option Chunk
front l = elim l.chunks [ [] ↦ none | c ∷ cs ↦ some c ]

unfoldable pub empty : SendingChunkList → Bool
empty l = elim l.chunks [ [] ↦ true | c ∷ cs ↦ false ]

module _ (cap : ℕ) where
  unfoldable pub remove_up_to : SendingChunkList → RingIndex → SendingChunkList
  remove_up_to l to = record l {
    chunks = erase_if (λ c. before_or_at cap l.buffer_begin c.range.right to) l.chunks;
  }

  unfoldable pub select : SendingChunkList → RingRange → Option Chunk
  select l range = find_if (λ c. in_range cap range c.range.left l.buffer_begin) l.chunks
