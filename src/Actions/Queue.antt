-- ===== src/Actions/Queue.antt =====
-- aether/actions/actions_queue.h: `ActionsQueue`. A stage is a number, and what its factory does and
-- gives is a parameter.
pub mod Order
pub mod Idle
use aether_client_cpp.Prelude.{
  ℕ, zero, suc, ◌==◌, Bool, true, false, if◌then◌else◌, List, [], ◌∷◌, ◌++◌, map, Option, none,
  some, length,
}

-- What a factory asks of the queue while it makes its action.
pub data QueueCall : Type 0 where
  push_stage : ℕ → QueueCall
  stop_queue : QueueCall

-- A stage that left the queue: it was run, or dropped.
pub data Left : Type 0 where
  ran dropped : ℕ → Left

-- `has_action` is `fat_ptr` of the running stage, and `stage_sub` is the stage
-- whose finished event has the handler.
-- `pushed` holds the stages in the order of their calls, `left` those that left the queue, and
-- `stops` the running stages that were stopped, oldest first.
pub record ActionsQueue : Type 0 where
  pub queue : List ℕ
  pub running_stage : Option ℕ
  pub has_action : Bool
  pub stage_sub : Option ℕ
  pub pushed : List ℕ
  pub left : List Left
  pub stops : List ℕ

abbrev pub init : ActionsQueue
init = record {
  queue = [];
  running_stage = none;
  has_action = false;
  stage_sub = none;
  pushed = [];
  left = [];
  stops = [];
}

unfoldable pub emplace : ActionsQueue → ℕ → ActionsQueue
emplace q n = record q { queue = q.queue ++ n ∷ []; pushed = q.pushed ++ n ∷ [] }

unfoldable pub drop_queue : ActionsQueue → ActionsQueue
drop_queue q = record q { queue = []; left = q.left ++ map dropped q.queue }

pub data QueueEvent : Type 0 where
  pushes finishes : ℕ → QueueEvent
  stops_all : QueueEvent

-- A call from within a factory: a stage is running, and has no action yet.
unfoldable pub do_call : ActionsQueue → QueueCall → ActionsQueue
do_call q (push_stage n) = emplace q n
do_call q stop_queue = drop_queue q

unfoldable pub do_calls : ActionsQueue → List QueueCall → ActionsQueue
do_calls q [] = q
do_calls q (c ∷ cs) = do_calls (do_call q c) cs

-- The front of the queue becomes the running stage.
unfoldable pub start : ActionsQueue → ℕ → List ℕ → ActionsQueue
start q n ns = record q {
  queue = ns;
  running_stage = some n;
  has_action = false;
  left = q.left ++ ran n ∷ [];
}

unfoldable pub reset_stage : ActionsQueue → ActionsQueue
reset_stage q = record q { running_stage = none; has_action = false }

-- `calls` is what a stage's factory asks of the queue, and `at_once` whether its action is null or
-- finished when it is made.
module _ (calls : ℕ → List QueueCall) (at_once : ℕ → Bool) where
  -- The loop of `RunStage`, on fuel. Where the stage is over at once, its subscription is empty.
  unfoldable pub run_stage : ℕ → ActionsQueue → ActionsQueue
  run_stage zero q = q
  run_stage (suc fuel) q = elim q.queue [
    | [] ↦ q
    | n ∷ ns ↦
        let q1 = do_calls (start q n ns) (calls n) in
        let rest = run_stage fuel (reset_stage (record q1 { stage_sub = none })) in
        if at_once n then rest else record q1 { has_action = true; stage_sub = some n }
  ]

  unfoldable pub push : ℕ → ActionsQueue → ℕ → ActionsQueue
  push fuel q n = elim q.running_stage [
    | none ↦ run_stage fuel (emplace q n)
    | some m ↦ emplace q n
  ]

  -- The handler that `RunStage` gives to the stage.
  unfoldable pub on_finished : ℕ → ActionsQueue → ActionsQueue
  on_finished fuel q = run_stage fuel (reset_stage q)

  -- The action of a stage emits its finished event.
  unfoldable pub finish : ℕ → ActionsQueue → ℕ → ActionsQueue
  finish fuel q m =
      let handled = on_finished fuel q in
      elim q.stage_sub [ none ↦ q | some n ↦ if n == m then handled else q ]

  -- `ends_on_stop` is whether the `Stop` of a stage's action emits its finished event.
  module _ (ends_on_stop : ℕ → Bool) where
    unfoldable pub stop_running : ℕ → ActionsQueue → ℕ → ActionsQueue
    stop_running fuel q m =
        let q1 = record q { stops = q.stops ++ m ∷ [] } in
        let ended = finish fuel q1 m in
        if q.has_action then (if ends_on_stop m then ended else q1) else q

    unfoldable pub stop : ℕ → ActionsQueue → ActionsQueue
    stop fuel q =
        let q1 = drop_queue q in
        elim q.running_stage [ none ↦ q1 | some m ↦ stop_running fuel q1 m ]

    -- What happens to a queue from outside, while no factory runs.
    unfoldable pub apply : ℕ → ActionsQueue → QueueEvent → ActionsQueue
    apply fuel q (pushes n) = push fuel q n
    apply fuel q stops_all = stop fuel q
    apply fuel q (finishes n) = finish fuel q n

    unfoldable pub run : ℕ → ActionsQueue → List QueueEvent → ActionsQueue
    run fuel q [] = q
    run fuel q (v ∷ vs) = run fuel (apply fuel q v) vs
