-- ===== src/Tests/Stages.antt =====
-- aether/actions on concrete inputs.
use aether_client_cpp.Prelude.{
  ℕ, ◌==◌, ◌≡◌, refl, arith, Bool, false, if◌then◌else◌, List, [], ◌∷◌, none, some, inl,
}
use aether_client_cpp.Actions.Queue.{
  QueueCall, push_stage, init, QueueEvent, pushes, finishes, stops_all, run,
}
use aether_client_cpp.Actions.Queue.Order.{InOrder, run-InOrder}
use aether_client_cpp.Actions.Queue.Idle.{no_calls, IsSettled, run-IsSettled}
use aether_client_cpp.Actions.Repeat
use aether_client_cpp.Actions.Repeat.{always, never, fires, fires_lem}
use aether_client_cpp.Actions.Pool.{
  ActionPool, destroy_action, destroy, update_pool, update_pool-destroy_both,
}

-- The stage 1 pushes one more, the stage 2 is over at once, and the stage 4 ends when it is stopped.
abbrev stage_calls : ℕ → List QueueCall
stage_calls n = if n == 1 then push_stage 9 ∷ [] else []

abbrev over_at_once : ℕ → Bool
over_at_once n = n == 2

abbrev ends_when_stopped : ℕ → Bool
ends_when_stopped n = n == 4

abbrev events : List QueueEvent
events =
    pushes 1
    ∷ pushes 2
    ∷ pushes 3
    ∷ finishes 1
    ∷ finishes 9
    ∷ finishes 3
    ∷ pushes 4
    ∷ pushes 5
    ∷ stops_all
    ∷ pushes 6
    ∷ []

run-InOrder_example : InOrder (run stage_calls over_at_once ends_when_stopped 9 init events)
run-InOrder_example = run-InOrder stage_calls over_at_once ends_when_stopped 9 init events refl

run-IsSettled_example : IsSettled (run no_calls over_at_once ends_when_stopped 10 init events)
run-IsSettled_example =
    run-IsSettled over_at_once ends_when_stopped 10 init events (inl ((refl, refl))) (omega arith)

-- Two actions, and a scheduler with four places.
abbrev pool : ActionPool
pool = record {
  actions = 20 ∷ 21 ∷ 22 ∷ [];
  scheduler = record {
    regular = [];
    delayed = [];
    links = record { active = λ p. none; ptr = λ s. none };
    used = 0;
    next_id = 5;
    overflow_counter = 0;
    trigger = false;
    log = [];
    freed = [];
  };
}

abbrev task_places : ℕ → ℕ
task_places k = k

update_pool-destroy_both_example :
    (update_pool 4 task_places 8
      (destroy 4 task_places 8 (destroy 4 task_places 8 pool 20) 21)
      0).actions
    ≡ 20 ∷ 22 ∷ []
unfolding destroy_action
update_pool-destroy_both_example =
    update_pool-destroy_both 4 task_places 8 pool 20 21 0 (refl) (omega arith) refl

fires_lem_example :
    let t = fires always never 5 (Repeat.init always never (some 3)) in
    (t.runs ≡ 3) × (t.waits ≡ false) × (t.exceeded ≡ 1)
fires_lem_example = fires_lem 3 5
