-- ===== src/BufferWrite/Draining.antt =====
-- buffer_write.h: a gate that accepts every write is given all that waits.
use aether_client_cpp.Prelude.{
  ℕ, ◌≡◌, refl, arith, ap, sym, ◌∙◌, true, false, if◌then◌else◌, List, [], ◌∷◌, ◌++◌, some,
  append-nil,
}
use aether_client_cpp.BufferWrite.{
  BufferEntry, DirectResult, BufferWrite, called, Drain, pass, offer, drain_step, drain_loop,
  drain_buffer, turn_off,
}
use aether_client_cpp.BufferWrite.Order.{waiting, drain_step-Good, drain_buffer-waiting}

module _ (capacity : ℕ) {direct_write : ℕ → ℕ → DirectResult} (action : ℕ → ℕ)
    (accepts : (n payload : ℕ)
      → direct_write n payload ≡ record { action = some (action n); turns_on = false }) where
  -- The loop runs with the gate open, and has left nothing behind.
  record IsOpen (d : Drain) : Type 0 where
    runs : d.runs ≡ true
    off : d.owner.buffer_on ≡ false
    clear : waiting d.front ≡ []

  drain_step-IsOpen :
      (d : Drain) (e : BufferEntry) → IsOpen d → IsOpen (drain_step capacity direct_write d e)
  unfolding drain_step pass offer called
  drain_step-IsOpen d e o =
      let running : (drain_step capacity direct_write d e).runs ≡ true =
        ground (arith, o.runs, o.off, accepts d.owner.calls e.payload) in
      let (_, c) = drain_step-Good capacity direct_write d e (ground (arith, o.runs, o.clear)) in
      record {
        runs = running;
        off = ground (arith, o.runs, o.off, accepts d.owner.calls e.payload);
        clear =
            sym (
              ap (λ b. if b then waiting (drain_step capacity direct_write d e).front else [])
                running)
            ∙ c;
      }

  drain_loop-IsOpen :
      (d : Drain) (es : List BufferEntry)
      → IsOpen d
      → IsOpen (drain_loop capacity direct_write d es)
  unfolding drain_loop
  drain_loop-IsOpen d [] o = o
  drain_loop-IsOpen d (e ∷ es) o =
      drain_loop-IsOpen (drain_step capacity direct_write d e) es (drain_step-IsOpen d e o)

  -- If each direct write is accepted and none turns buffering on, turning buffering off writes all
  -- that waits, in order, behind what was written before; nothing waits any more, and buffering
  -- stays off.
  pub turn_off-writes :
      (s : BufferWrite)
      → let s' = turn_off capacity direct_write s in
        (s'.written ≡ s.written ++ waiting s.buffer)
        × (waiting s'.buffer ≡ [])
        × (s'.buffer_on ≡ false)
  unfolding turn_off drain_buffer
  turn_off-writes s =
      let s1 : BufferWrite = record s { buffer_on = false } in
      let o =
        drain_loop-IsOpen (record { owner = s1; front = []; runs = true }) s.buffer
          (record { runs = refl; off = refl; clear = refl }) in
      let (same, _, _, _) = drain_buffer-waiting capacity direct_write s1 in
      let written = (drain_buffer capacity direct_write s1).written in
      (sym (append-nil written) ∙ ap (◌++◌ written) (sym o.clear) ∙ same, o.clear, o.off)
