-- ===== src/BufferWrite.antt =====
-- aether/write_action/buffer_write.h and buffer_write.cpp: writes are held back in a buffer of
-- `capacity` entries until buffering is turned off, and then written directly in order.
pub mod Order
pub mod Draining
pub mod Numbers
pub mod Keep
pub mod Fifo
pub mod Dropping
use aether_client_cpp.Prelude.{
  ℕ, suc, ◌+◌, ◌==◌, Bool, true, false, not, ◌||◌, if◌then◌else◌, List, [], ◌∷◌, ◌++◌, length, drop,
  find_if, Option, none, some,
}
use aether_client_cpp.Stream.Message.{WriteStatus, success, fail, stop}

-- `subscribed` is whether the action still follows the status of the write that was made for it.
pub record BufferEntry : Type 0 where
  pub id : ℕ
  pub payload : ℕ
  pub sent : Bool
  pub subscribed : Bool
  pub finished : Bool

-- What a direct write answers: the write action or none, and whether buffering was turned on in it.
pub record DirectResult : Type 0 where
  pub action : Option ℕ
  pub turns_on : Bool

-- `calls` counts the direct writes that were tried. `written` holds what was written, and `log` the
-- statuses that the actions of the buffer emitted, oldest first. A write that is accepted is given
-- the number `next_id`.
pub record BufferWrite : Type 0 where
  pub buffer_on : Bool
  pub buffer : List BufferEntry
  pub next_id : ℕ
  pub calls : ℕ
  pub written : List (ℕ × ℕ)
  pub log : List (ℕ × WriteStatus)

pub data WriteResult : Type 0 where
  buffered : ℕ → WriteResult
  direct : ℕ → WriteResult
  failed_write : WriteResult

abbrev pub init : BufferWrite
init = record { buffer_on = true; buffer = []; next_id = 0; calls = 0; written = []; log = [] }

unfoldable pub called : BufferWrite → DirectResult → BufferWrite
called s r = record s { calls = s.calls + 1; buffer_on = s.buffer_on || r.turns_on }

unfoldable pub turn_on : BufferWrite → BufferWrite
turn_on s = record s { buffer_on = true }

-- The action of a write in the buffer, by its number.
unfoldable pub find_entry : ℕ → List BufferEntry → Option BufferEntry
find_entry id l = find_if (λ e. e.id == id) l

unfoldable pub set_finished : ℕ → List BufferEntry → List BufferEntry
set_finished id [] = []
set_finished id (e ∷ es) =
    (if e.id == id then record e { finished = true } else e) ∷ set_finished id es

unfoldable pub unsubscribe : ℕ → List BufferEntry → List BufferEntry
unsubscribe id [] = []
unsubscribe id (e ∷ es) =
    (if e.id == id then record e { subscribed = false } else e) ∷ unsubscribe id es

abbrev pub entry_ids : List BufferEntry → List ℕ
entry_ids [] = []
entry_ids (e ∷ es) = e.id ∷ entry_ids es

-- Where the loop of `DrainBuffer` stands: the entries behind it that the buffer still holds.
pub record Drain : Type 0 where
  pub owner : BufferWrite
  pub front : List BufferEntry
  pub runs : Bool

unfoldable pub pass : Drain → BufferEntry → Drain
pass d e = record d { front = d.front ++ e ∷ [] }

-- The end of a round, with what the direct write answered.
unfoldable pub offer : Drain → BufferEntry → DirectResult → Drain
offer d e r = elim r.action [
  | none ↦ record { owner = called d.owner r; front = d.front ++ e ∷ []; runs = false }
  | some action ↦ record {
    owner = record (called d.owner r) { written = d.owner.written ++ (e.id, e.payload) ∷ [] };
    front = d.front ++ record e { sent = true; subscribed = true } ∷ [];
    runs = true;
  }
]

module _ (capacity : ℕ) (direct_write : ℕ → ℕ → DirectResult) where
  -- One round; `pop` takes the first entry that the buffer holds. After a `break`, the entries stay.
  unfoldable pub drain_step : Drain → BufferEntry → Drain
  drain_step d e =
      if not d.runs
      then pass d e
      else if e.finished
      then record d { front = drop 1 (d.front ++ e ∷ []) }
      else if e.sent
      then pass d e
      else if d.owner.buffer_on
      then record (pass d e) { runs = false }
      else offer d e (direct_write d.owner.calls e.payload)

  unfoldable pub drain_loop : Drain → List BufferEntry → Drain
  drain_loop d [] = d
  drain_loop d (e ∷ es) = drain_loop (drain_step d e) es

  unfoldable pub drain_buffer : BufferWrite → BufferWrite
  drain_buffer s =
      let d = drain_loop (record { owner = s; front = []; runs = true }) s.buffer in
      record d.owner { buffer = d.front }

  unfoldable pub turn_off : BufferWrite → BufferWrite
  turn_off s = drain_buffer (record s { buffer_on = false })

  -- `SetStatus` of an entry's action: the status is emitted, and the end of the action drains.
  unfoldable pub set_status : BufferWrite → ℕ → WriteStatus → BufferWrite
  set_status s id status =
      let s1 = record s { log = s.log ++ (id, status) ∷ []; buffer = set_finished id s.buffer } in
      if s1.buffer_on then s1 else drain_buffer s1

  -- The status of the write that was made for an entry.
  unfoldable pub on_status : BufferWrite → ℕ → WriteStatus → BufferWrite
  on_status s id status = elim (find_entry id s.buffer) [
    | none ↦ s
    | some e ↦ if e.subscribed then set_status s id status else s
  ]

  -- `BufferedWriteAction::Stop`; where it passes the stop on, the status comes later.
  unfoldable pub stop_entry : BufferWrite → ℕ → BufferWrite
  stop_entry s id = elim (find_entry id s.buffer) [
    | none ↦ s
    | some e ↦ if e.subscribed then s else set_status s id stop
  ]

  unfoldable pub write_to_buffer : BufferWrite → ℕ → BufferWrite × WriteResult
  write_to_buffer s payload = if length s.buffer == capacity then (s, failed_write) else (
    record s {
      buffer =
          s.buffer
          ++ record {
            id = s.next_id;
            payload = payload;
            sent = false;
            subscribed = false;
            finished = false;
          }
            ∷ [];
      next_id = s.next_id + 1;
    },
    buffered s.next_id,
  )

  unfoldable pub direct_written : BufferWrite → ℕ → DirectResult → BufferWrite × WriteResult
  direct_written s payload r = elim r.action [
    | none ↦ (called s r, failed_write)
    | some action ↦ (
      record (called s r) {
        written = s.written ++ (s.next_id, payload) ∷ [];
        next_id = s.next_id + 1;
      },
      direct action,
    )
  ]

  unfoldable pub write : BufferWrite → ℕ → BufferWrite × WriteResult
  write s payload =
      if s.buffer_on || not (length s.buffer == 0)
      then write_to_buffer s payload
      else direct_written s payload (direct_write s.calls payload)

  -- The loop of `Drop` by the numbers of the entries that the buffer held at first; none is an
  -- access to an entry that is gone.
  unfoldable pub drop_entries : BufferWrite → List ℕ → Option BufferWrite
  drop_entries s [] = some s
  drop_entries s (id ∷ ids) = elim (find_entry id s.buffer) [
    | none ↦ none
    | some e ↦ drop_entries (set_status (record s { buffer = unsubscribe id s.buffer }) id fail) ids
  ]

  unfoldable pub drop_all : BufferWrite → Option BufferWrite
  drop_all s = elim (drop_entries s (entry_ids s.buffer)) [
    | none ↦ none
    | some s1 ↦ some (record s1 { buffer = [] })
  ]
