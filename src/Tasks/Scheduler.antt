-- ===== src/Tasks/Scheduler.antt =====
-- aether/tasks/details/task_manager.h and manual_task_scheduler.h: tasks are made in a pool of
-- `capacity` places, wait in the two queues, and `Update` runs and frees them.
pub mod Keep
pub mod Once
pub mod Drain
pub mod Resubscribed
use aether_client_cpp.Prelude.{
  ℕ, zero, suc, ◌+◌, ◌-◌, ◌==◌, Bool, true, false, if◌then◌else◌, List, [], ◌∷◌, ◌++◌, Option, none,
  some,
}
use aether_client_cpp.Tasks.Queues.{Task, add_regular, add_delayed, steal_regular, steal_delayed}
use aether_client_cpp.Tasks.Links
use aether_client_cpp.Tasks.Links.{Links}

-- What a task's function asks of the scheduler: a subscription is assigned from a new task, or reset.
pub data Request : Type 0 where
  task : ℕ → ℕ → Request
  delayed_task : ℕ → ℕ → ℕ → Request
  reset_subscription : ℕ → Request

-- `used` counts the places of the pool that are taken; `log` and `freed` hold the tasks that were
-- invoked and those that were freed, oldest first.
pub record Scheduler : Type 0 where
  pub regular : List Task
  pub delayed : List Task
  pub links : Links
  pub used : ℕ
  pub next_id : ℕ
  pub overflow_counter : ℕ
  pub trigger : Bool
  pub log : List ℕ
  pub freed : List ℕ

pub init : Scheduler
init = record {
  regular = [];
  delayed = [];
  links = record { active = λ p. none; ptr = λ s. none };
  used = 0;
  next_id = 0;
  overflow_counter = 0;
  trigger = false;
  log = [];
  freed = [];
}

-- Whether `Update` invokes a task that it took.
pub is_active : Links → Task → Bool
is_active w t = elim (w.active t.place) [
  | none ↦ false
  | some a ↦ elim a [ Links.unset ↦ true | Links.cancelled ↦ false | Links.linked s ↦ true ]
]

-- `AddSafe` on what `Emplace` gave.
pub add_failed : Scheduler → Scheduler
add_failed s = record s { overflow_counter = s.overflow_counter + 1; trigger = true }

pub created : Scheduler → Task → Scheduler
created s t = record s {
  links = Links.create s.links t.place;
  used = s.used + 1;
  next_id = s.next_id + 1;
  trigger = true;
}

-- `destroy` of a task in the pool.
pub free : Scheduler → Task → Scheduler
free s t = record s {
  links = Links.destroy s.links t.place;
  used = s.used - 1;
  freed = s.freed ++ t.id ∷ [];
}

pub free_all : Scheduler → List Task → Scheduler
free_all s [] = s
free_all s (t ∷ ts) = free_all (free s t) ts

-- The time of the last element, for the time to call `Update` again; none for the maximal time.
pub next_time : List Task → Option ℕ
next_time [] = none
next_time (t ∷ ts) =
    let rest = next_time ts in elim rest [ none ↦ some t.expire_at | some n ↦ some n ]

-- `place` is where the pool puts the tasks, in the order of their making.
module _ (capacity : ℕ) (place : ℕ → ℕ) where
  pub new_task : Scheduler → ℕ → ℕ → Task
  new_task s run expire_at = record {
    place = place s.next_id;
    id = s.next_id;
    run = run;
    expire_at = expire_at;
  }

  -- `Emplace` into the regular queue, in `Task`: what it makes and the queue refuses is destroyed.
  pub emplace_regular : Scheduler → Task → List Task × Bool → Scheduler × Option ℕ
  emplace_regular s t (list, true) = (record (created s t) { regular = list }, some t.place)
  emplace_regular s t (list, false) =
      (add_failed (record s { links = Links.destroy (Links.create s.links t.place) t.place }), none)

  pub add_task : Scheduler → ℕ → Scheduler × Option ℕ
  add_task s run =
      let t = new_task s run 0 in
      if s.used == capacity
      then (add_failed s, none)
      else emplace_regular s t (add_regular capacity s.regular t)

  pub emplace_delayed : Scheduler → Task → List Task × Bool → Scheduler × Option ℕ
  emplace_delayed s t (list, true) = (record (created s t) { delayed = list }, some t.place)
  emplace_delayed s t (list, false) =
      (add_failed (record s { links = Links.destroy (Links.create s.links t.place) t.place }), none)

  pub add_delayed_task : Scheduler → ℕ → ℕ → Scheduler × Option ℕ
  add_delayed_task s run expire_at =
      let t = new_task s run expire_at in
      if s.used == capacity
      then (add_failed s, none)
      else emplace_delayed s t (add_delayed capacity s.delayed t)

  -- `subscription = scheduler.Task(...)`
  pub assign_result : ℕ → Scheduler × Option ℕ → Scheduler
  assign_result subscription (s, p) = record s { links = Links.assign s.links subscription p }

  pub apply : Scheduler → Request → Scheduler
  apply s (task subscription run) = assign_result subscription (add_task s run)
  apply s (delayed_task subscription run expire_at) =
      assign_result subscription (add_delayed_task s run expire_at)
  apply s (reset_subscription subscription) = record s { links = Links.reset s.links subscription }

  pub apply_all : Scheduler → List Request → Scheduler
  apply_all s [] = s
  apply_all s (r ∷ rs) = apply_all (apply s r) rs

  -- `effects` is what each task's function asks for when it is invoked.
  module _ (effects : ℕ → List Request) where
    pub invoke : Scheduler → Task → Scheduler
    invoke s t = apply_all (record s { log = s.log ++ t.id ∷ [] }) (effects t.run)

    -- The loop of `UpdateTasks`.
    pub invoke_all : Scheduler → List Task → Scheduler
    invoke_all s [] = s
    invoke_all s (t ∷ ts) = invoke_all (if is_active s.links t then invoke s t else s) ts

    pub update_tasks : Scheduler → List Task → Scheduler
    update_tasks s tasks = free_all (invoke_all s tasks) tasks

    pub update_regular : Scheduler → Scheduler
    update_regular s =
        let (tasks, rest) = steal_regular capacity s.regular [] in
        update_tasks (record s { regular = rest }) tasks

    pub update_delayed : Scheduler → ℕ → Scheduler
    update_delayed s current_time =
        let (tasks, rest) = steal_delayed current_time capacity s.delayed [] in
        update_tasks (record s { delayed = rest }) tasks

    -- `Update` of a release build, where an overflow stays counted.
    pub update : Scheduler → ℕ → Scheduler × Option ℕ
    update s current_time =
        let s1 = update_delayed (update_regular (record s { trigger = false })) current_time in
        (s1, next_time s1.delayed)
