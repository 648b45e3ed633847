-- ===== src/Tasks/Queues.antt =====
-- aether/tasks/details/task_queues.h and task.h: the queue of tasks to run next, and the queue of
-- tasks that wait for a time, latest first.
pub mod Order
use aether_client_cpp.Prelude.{
  ℕ, zero, suc, ◌+◌, ◌-◌, ltb, leb, ◌==◌, Bool, true, false, if◌then◌else◌, List, [], ◌∷◌, ◌++◌,
  length, take, drop,
}

-- What does not change of a task: its place in the pool, what it runs, and when it is due. `id`
-- counts the tasks that were created.
pub record Task : Type 0 where
  pub place : ℕ
  pub id : ℕ
  pub run : ℕ
  pub expire_at : ℕ

-- A list that keeps to its maximal size.
unfoldable pub add_regular : ℕ → List Task → Task → List Task × Bool
add_regular capacity list p =
    if length list == capacity then (list, false) else (list ++ p ∷ [], true)

-- The tasks taken, behind those of `to`, and the tasks left.
unfoldable pub steal_regular : ℕ → List Task → List Task → List Task × List Task
steal_regular max_count list to =
    let n = if ltb max_count (length list) then max_count else length list in
    (to ++ take n list, drop n list)

-- `it.base()` for the first element from the back that a test holds of: how many come before it.
unfoldable pub base_of : (Task → Bool) → List Task → ℕ
base_of test [] = 0
base_of test (e ∷ es) =
    let rest = base_of test es in if rest == 0 then (if test e then 1 else 0) else suc rest

unfoldable pub add_delayed : ℕ → List Task → Task → List Task × Bool
add_delayed capacity list p =
    let i = base_of (λ e. ltb p.expire_at e.expire_at) list in
    if length list == capacity then (list, false) else (take i list ++ p ∷ drop i list, true)

-- Where the loop of `StealTasks` stands on its way from the back: how many elements it has passed,
-- `count`, and whether it still runs.
pub record Scan : Type 0 where
  pub passed : ℕ
  pub count : ℕ
  pub runs : Bool

-- One round of the loop.
unfoldable pub scan_step : ℕ → ℕ → Task → Scan → Scan
scan_step expiration_time max_count e s =
    if s.runs
    then (if leb e.expire_at expiration_time
        then (if leb (s.count + 1) max_count
            then record { passed = s.passed + 1; count = s.count + 1; runs = true }
            else record s { count = s.count + 1; runs = false })
        else record s { runs = false })
    else s

unfoldable pub scan_back : ℕ → ℕ → List Task → Scan
scan_back expiration_time max_count [] = record { passed = 0; count = 0; runs = true }
scan_back expiration_time max_count (e ∷ es) =
    scan_step expiration_time max_count e (scan_back expiration_time max_count es)

unfoldable pub steal_delayed : ℕ → ℕ → List Task → List Task → List Task × List Task
steal_delayed expiration_time max_count list to =
    let s = scan_back expiration_time max_count list in
    let start = length list - s.passed in
    if s.count == 0 then (to, list) else (to ++ drop start list, take start list)
