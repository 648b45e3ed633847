-- ===== src/Tests/State.antt =====
-- state_machine.h on a concrete row of states.
use aether_client_cpp.Prelude.{◌≡◌, true, [], ◌∷◌}
use aether_client_cpp.StateMachine.{StateMachine, acquire}
use aether_client_cpp.StateMachine.Changes.{set_all, changes, last_of, is_any, set_all-acquire}

abbrev machine : StateMachine
machine = record { changed = true; state = 2; log = 2 ∷ [] }

set_all-acquire_example :
    let m' = set_all (acquire machine).0 (2 ∷ 3 ∷ 3 ∷ 1 ∷ []) in
    (m'.log ≡ 2 ∷ 3 ∷ 1 ∷ []) × (m'.state ≡ 1) × (m'.changed ≡ true)
unfolding acquire changes last_of is_any
set_all-acquire_example = set_all-acquire machine (2 ∷ 3 ∷ 3 ∷ 1 ∷ [])
