-- ===== src/StateMachine.antt =====
-- aether/types/state_machine.h: a state that tells of its changes. A state is its enumerator's
-- number; `log` holds what the changed event carried, oldest first.
use aether_client_cpp.Prelude.{ℕ, ◌==◌, Bool, true, false, if◌then◌else◌, List, [], ◌∷◌, ◌++◌}
pub mod Changes

pub record StateMachine : Type 0 where
  pub changed : Bool
  pub state : ℕ
  pub log : List ℕ

unfoldable pub init : ℕ → StateMachine
init val = record { changed = true; state = val; log = [] }

-- The state, and the machine that takes it as known.
unfoldable pub acquire : StateMachine → StateMachine × ℕ
acquire m = (record m { changed = false }, m.state)

unfoldable pub set : StateMachine → ℕ → StateMachine
set m val =
    if m.state == val then m else record { changed = true; state = val; log = m.log ++ val ∷ [] }

unfoldable pub assign : StateMachine → ℕ → StateMachine
assign m val = record m { state = val }
