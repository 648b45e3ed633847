-- ===== src/Tests/Emissions.antt =====
-- The handlers of an event on concrete inputs.
use aether_client_cpp.Prelude.{
  ℕ, ◌≡◌, ◌≢◌, refl, arith, ◌==◌, true, false, if◌then◌else◌, List, [], ◌∷◌, length, none, some,
  count,
}
use aether_client_cpp.Events.{
  HandlerCall, add_handler, remove_handler, emit_again, HandlersList, init, insert, set_dead,
  remove, live_part, erase_tail, emit, step, seek, arrive,
}
use aether_client_cpp.Events.Running
use aether_client_cpp.Events.Running.{step_runs}
use aether_client_cpp.Events.Removed.{removed_silent}
use aether_client_cpp.Events.Emitting.{run_from, emit_lem}

-- A callback that adds a handler and removes the first one, and one that does nothing.
abbrev busy : ℕ → List HandlerCall
busy c = if c == 7 then add_handler 7 ∷ remove_handler 0 ∷ emit_again ∷ [] else []

abbrev quiet : ℕ → List HandlerCall
quiet c = []

-- Three handlers, of which the second and the last were removed.
abbrev three : HandlersList
three = record {
  handlers =
      record { key = 0; callback = 7; is_alive = true }
      ∷ record { key = 1; callback = 8; is_alive = false }
      ∷ record { key = 2; callback = 9; is_alive = true }
      ∷ record { key = 3; callback = 9; is_alive = false }
      ∷ [];
  next_key = 4;
  use_counter = 0;
  emissions = [];
  log = [];
}

emit_lem_example :
    run_from quiet 5 (emit quiet three)
    ≡ some (record three {
      handlers =
          record { key = 0; callback = 7; is_alive = true }
          ∷ record { key = 1; callback = 8; is_alive = false }
          ∷ record { key = 2; callback = 9; is_alive = true }
          ∷ [];
      log = 0 ∷ 2 ∷ [];
    })
unfolding live_part erase_tail
emit_lem_example = emit_lem quiet (λ c. refl) three refl refl (omega arith)

-- A list whose handler adds another one, within its emission.
abbrev one_busy : HandlersList
one_busy = record {
  handlers = record { key = 0; callback = 7; is_alive = true } ∷ [];
  next_key = 1;
  use_counter = 1;
  emissions = record { index = 0; size = 1; pending = busy 7 } ∷ [];
  log = 0 ∷ [];
}

one_busy_emitted : emit busy (insert init 7) ≡ some one_busy
unfolding emit arrive seek insert
one_busy_emitted = refl

step_runs_example :
    (step busy one_busy ≢ none)
    × (emit busy one_busy ≢ none)
    × (one_busy.use_counter ≡ length one_busy.emissions)
unfolding insert
step_runs_example =
    step_runs
      (Running.next (Running.next Running.here (Running.adds init 7))
        (Running.emits (insert init 7) one_busy_emitted))
      (omega arith)

-- Two handlers, the first one removed, and the emission that follows.
abbrev second_invoked : HandlersList
second_invoked = record {
  handlers =
      record { key = 0; callback = 8; is_alive = false }
      ∷ record { key = 1; callback = 9; is_alive = true }
      ∷ [];
  next_key = 2;
  use_counter = 1;
  emissions = record { index = 1; size = 2; pending = [] } ∷ [];
  log = 1 ∷ [];
}

second_invoked_emitted : emit busy (remove (insert (insert init 8) 9) 0) ≡ some second_invoked
unfolding emit arrive seek insert remove set_dead
second_invoked_emitted = refl

removed_silent_example : count 0 second_invoked.log ≡ count 0 (insert (insert init 8) 9).log
removed_silent_example =
    removed_silent (insert (insert init 8) 9) 0 (unfold insert in omega arith) (
      Running.next Running.here
        (Running.emits (remove (insert (insert init 8) 9) 0) second_invoked_emitted))
