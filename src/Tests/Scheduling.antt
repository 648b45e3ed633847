-- ===== src/Tests/Scheduling.antt =====
-- The task queues, the subscriptions and the scheduler on concrete inputs, with a pool of four.
use aether_client_cpp.Prelude.{
  count, ℕ, ◌+◌, ◌≤◌, ◌==◌, ◌≡◌, refl, arith, true, List, [], ◌∷◌, none, some, length, ltb,
  if◌then◌else◌,
}
use aether_client_cpp.Tasks.Links
use aether_client_cpp.Tasks.Links.{Links}
use aether_client_cpp.Tasks.Links.Safe
use aether_client_cpp.Tasks.Links.Safe.{no_links, points, linked_to, points-linked_to}
use aether_client_cpp.Tasks.Queues.{Task, base_of, add_delayed}
use aether_client_cpp.Tasks.Queues.Order.{IsOrdered}
use aether_client_cpp.Tasks.Scheduler.{Request, task, Scheduler, init, apply, update}
use aether_client_cpp.Tasks.Scheduler.Keep.{count_tasks, IsWell}
use aether_client_cpp.Tasks.Scheduler.Once
use aether_client_cpp.Tasks.Scheduler.Once.{ids, tasks_once}
use aether_client_cpp.Tasks.Scheduler.Drain.{update_lem}

-- A task that runs at once, and tasks for the times 30, 20 and 10.
abbrev now_task : Task
now_task = record { place = 0; id = 0; run = 7; expire_at = 0 }

abbrev at_30 : Task
at_30 = record { place = 1; id = 1; run = 8; expire_at = 30 }

abbrev at_20 : Task
at_20 = record { place = 2; id = 2; run = 9; expire_at = 20 }

abbrev at_10 : Task
at_10 = record { place = 3; id = 3; run = 9; expire_at = 10 }

abbrev waiting : List Task
waiting = at_30 ∷ at_10 ∷ []

waiting-IsOrdered : IsOrdered waiting
waiting-IsOrdered = ((omega arith, tt), (tt, tt))

-- A task that ends where the queue's order puts it.
add_delayed_run : add_delayed 4 waiting at_20 ≡ (at_30 ∷ at_20 ∷ at_10 ∷ [], true)
unfolding add_delayed base_of
add_delayed_run = refl

points-linked_to_example :
    let w = Links.assign (Links.create no_links 3) 5 (some 3) in points w 5 3 ≡ linked_to w 3 5
points-linked_to_example = points-linked_to 5 3 (
    Safe.next (Safe.next Safe.here (Safe.creates no_links 3 refl))
      (Safe.assigns (Links.create no_links 3) 5 3 (unfold Links.create in refl)))

-- Where the pool puts tasks, and functions of which that of 7 asks for one more task.
abbrev places : ℕ → ℕ
places k = k

abbrev asking : ℕ → List Request
asking r = if r == 7 then task 1 8 ∷ [] else []

abbrev quiet : ℕ → List Request
quiet r = []

tasks_once_example :
    let s = (update 4 places asking (apply 4 places init (task 0 7)) 5).0 in
    (count_tasks 0 s.regular + count_tasks 0 s.delayed + count 0 s.freed
      ≡ (if ltb 0 s.next_id then 1 else 0))
    × (count 0 s.log ≤ count 0 s.freed)
    × (s.used ≡ length s.regular + length s.delayed)
    × (s.used ≤ 4)
tasks_once_example =
    tasks_once 0
      (Once.next (Once.next Once.here (Once.requests init (task 0 7))) (Once.updates _ 5))

-- A task to run at once, and two that wait.
abbrev three_tasks : Scheduler
three_tasks = record {
  regular = now_task ∷ [];
  delayed = waiting;
  links = record { active = λ p. none; ptr = λ s. none };
  used = 3;
  next_id = 4;
  overflow_counter = 0;
  trigger = true;
  log = [];
  freed = 2 ∷ [];
}

three_tasks-IsWell : IsWell 4 [] three_tasks
unfolding count count_tasks
three_tasks-IsWell = record {
  ordered = waiting-IsOrdered;
  pool = omega arith;
  fits = omega arith;
  once = λ k. ground arith;
}

update_lem_example :
    let s' = (update 4 places quiet three_tasks 15).0 in
    (s'.regular ≡ []) × (s'.delayed ≡ at_30 ∷ []) × (s'.freed ≡ 2 ∷ 0 ∷ 3 ∷ [])
update_lem_example = update_lem 4 places quiet (λ r. refl) 15 three_tasks-IsWell
