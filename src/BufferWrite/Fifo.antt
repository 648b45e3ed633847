-- ===== src/BufferWrite/Fifo.antt =====
-- buffer_write.h: over any run, what is written is in the order of the writes that were accepted.
use aether_client_cpp.Prelude.{ℕ, ◌≤◌, ◌<◌, ◌≡◌, refl, arith, ◌++◌, length, All, some}
use aether_client_cpp.Stream.Message.{WriteStatus}
use aether_client_cpp.BufferWrite.{
  DirectResult, BufferWrite, init, turn_on, turn_off, on_status, stop_entry, write, drop_all,
}
use aether_client_cpp.BufferWrite.Order.{waiting}
use aether_client_cpp.BufferWrite.Numbers.{IsIncreasing}
use aether_client_cpp.BufferWrite.Keep.{
  IsWell, IsWell-same, on_status-IsWell, stop_entry-IsWell, turn_off-IsWell, write-IsWell,
  drop_all-IsWell,
}

-- What can happen: a write, buffering turned on or off, a status of a write that was made, a stop
-- by the client, and all dropped, where `Drop` goes through no entry that has left the buffer (its
-- behaviour is undefined there, and there is no next state).
pub data Step (capacity : ℕ) (direct_write : ℕ → ℕ → DirectResult)
    : BufferWrite → BufferWrite → Type 0 where
  writes :
      (s : BufferWrite) (payload : ℕ)
      → Step capacity direct_write s (write capacity direct_write s payload).0
  turns_on : (s : BufferWrite) → Step capacity direct_write s (turn_on s)
  turns_off : (s : BufferWrite) → Step capacity direct_write s (turn_off capacity direct_write s)
  reports :
      (s : BufferWrite) (id : ℕ) (status : WriteStatus)
      → Step capacity direct_write s (on_status capacity direct_write s id status)
  stops :
      (s : BufferWrite) (id : ℕ)
      → Step capacity direct_write s (stop_entry capacity direct_write s id)
  drops :
      (s : BufferWrite) {s' : BufferWrite}
      → drop_all capacity direct_write s ≡ some s'
      → Step capacity direct_write s s'

pub data Reach (capacity : ℕ) (direct_write : ℕ → ℕ → DirectResult) (s : BufferWrite)
    : BufferWrite → Type 0 where
  here : Reach capacity direct_write s s
  next :
      {t u : BufferWrite}
      → Reach capacity direct_write s t
      → Step capacity direct_write t u
      → Reach capacity direct_write s u

module _ {capacity : ℕ} {direct_write : ℕ → ℕ → DirectResult} where
  Step-IsWell :
      {s s' : BufferWrite}
      → Step capacity direct_write s s'
      → IsWell capacity s
      → IsWell capacity s'
  Step-IsWell (writes s payload) i = write-IsWell capacity direct_write s payload i
  Step-IsWell (turns_on s) i = unfold turn_on in IsWell-same s _ refl refl (omega arith) i
  Step-IsWell (turns_off s) i = turn_off-IsWell capacity direct_write s i
  Step-IsWell (reports s id status) i = on_status-IsWell capacity direct_write s id status i
  Step-IsWell (stops s id) i = stop_entry-IsWell capacity direct_write s id i
  Step-IsWell (drops s h) i = drop_all-IsWell capacity direct_write s h i

  Reach-IsWell : {s : BufferWrite} → Reach capacity direct_write init s → IsWell capacity s
  Reach-IsWell here = record { increasing = tt; below = tt; fits = omega arith }
  Reach-IsWell (next r st) = Step-IsWell st (Reach-IsWell r)

  -- From a new buffer on, after any sequence of writes, of turning buffering on and off, of stops,
  -- of statuses of the writes made, and of those drops of all that go through no entry which has
  -- left the buffer meanwhile: what was written and then what waits in the buffer are in the order in
  -- which the writes were accepted, none twice, all of them accepted before the next one; and the
  -- buffer holds no more than its capacity.
  pub written_in_order :
      {s : BufferWrite}
      → Reach capacity direct_write init s
      → IsIncreasing (s.written ++ waiting s.buffer)
        × All (λ y. y.0 < s.next_id) (s.written ++ waiting s.buffer)
        × (length s.buffer ≤ capacity)
  written_in_order r = let i = Reach-IsWell r in (i.increasing, i.below, i.fits)
