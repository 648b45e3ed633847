-- ===== src/Tests/Buffered.antt =====
-- The write buffer on concrete inputs, with four entries.
use aether_client_cpp.Prelude.{
  ℕ, ◌+◌, ◌≤◌, ◌<◌, ◌≡◌, refl, arith, ◌==◌, true, false, if◌then◌else◌, [], ◌∷◌, ◌++◌, length, All,
  none, some,
}
use aether_client_cpp.Stream.Message.{success}
use aether_client_cpp.BufferWrite.{
  BufferEntry, DirectResult, BufferWrite, init, drain_buffer, turn_off, on_status, write,
}
use aether_client_cpp.BufferWrite.Order.{waiting}
use aether_client_cpp.BufferWrite.Fifo
use aether_client_cpp.BufferWrite.Numbers.{IsIncreasing}
use aether_client_cpp.BufferWrite.Fifo.{written_in_order}
use aether_client_cpp.BufferWrite.Dropping.{drain_buffer-loses}

-- A gate that accepts all, and one that accepts only what was tried first.
abbrev open_gate : ℕ → ℕ → DirectResult
open_gate n payload = record { action = some (n + 10); turns_on = false }

abbrev one_only : ℕ → ℕ → DirectResult
one_only n payload = record { action = (if n == 0 then some 10 else none); turns_on = false }

abbrev unsent_5 : BufferEntry
unsent_5 = record { id = 0; payload = 5; sent = false; subscribed = false; finished = false }

abbrev unsent_6 : BufferEntry
unsent_6 = record { id = 1; payload = 6; sent = false; subscribed = false; finished = false }

-- Two writes, held back.
abbrev two_held : BufferWrite
two_held = record {
  buffer_on = true;
  buffer = unsent_5 ∷ unsent_6 ∷ [];
  next_id = 2;
  calls = 0;
  written = [];
  log = [];
}

written_in_order_example :
    let s =
      (write 4 one_only
        (turn_off 4 one_only (write 4 one_only (write 4 one_only init 5).0 6).0)
        7).0 in
    IsIncreasing (s.written ++ waiting s.buffer)
    × All (λ y. y.0 < s.next_id) (s.written ++ waiting s.buffer)
    × (length s.buffer ≤ 4)
written_in_order_example = written_in_order (
    Fifo.next
      (Fifo.next (Fifo.next (Fifo.next Fifo.here (Fifo.writes init 5)) (Fifo.writes _ 6))
        (Fifo.turns_off _))
      (Fifo.writes _ 7))

-- The first write is under way, and the second was stopped before it was sent.
abbrev second_stopped : BufferWrite
second_stopped = record two_held {
  buffer_on = false;
  buffer =
      record unsent_5 { sent = true; subscribed = true } ∷ record unsent_6 { finished = true } ∷ [];
}

drain_buffer-loses_example :
    let s' = drain_buffer 4 open_gate second_stopped in
    (s'.buffer ≡ record unsent_6 { finished = true } ∷ [])
    × (on_status 4 open_gate s' 0 success ≡ s')
drain_buffer-loses_example =
    drain_buffer-loses 4 open_gate second_stopped
      (record unsent_5 { sent = true; subscribed = true }) (record unsent_6 { finished = true })
      success refl (ground arith) refl refl refl refl
