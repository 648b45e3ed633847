-- ===== src/Tasks/Scheduler/Drain.antt =====
-- manual_task_scheduler.h: what one `Update` takes from the queues, and the time it asks for.
use aether_client_cpp.Prelude.{
  ℕ, ◌≤◌, ◌≡◌, refl, arith, ap, ◌∙◌, Bool, true, false, if◌then◌else◌, List, [], ◌∷◌, ◌++◌, Option,
  none, some, length, min, All,
}
use aether_client_cpp.Tasks.Queues.{Task, steal_delayed}
use aether_client_cpp.Tasks.Queues.Order.{IsOrdered, due, later, steal_delayed_lem}
use aether_client_cpp.Tasks.Scheduler.{
  Request, Scheduler, is_active, next_time, apply_all, invoke, invoke_all, update_tasks,
  update_regular, update_delayed, update,
}
use aether_client_cpp.Tasks.Scheduler.Keep.{IsWell, steal_regular-all, update-IsWell}
use aether_client_cpp.Tasks.Scheduler.Once.{ids, free_all_lem}

-- The earliest time of some tasks.
unfoldable pub earliest : List Task → Option ℕ
earliest [] = none
earliest (t ∷ ts) =
    let rest = earliest ts in
    elim rest [ none ↦ some t.expire_at | some n ↦ some (min t.expire_at n) ]

-- A time, if there is one, is no later than this.
abbrev IsBy : ℕ → Option ℕ → Type 0
IsBy m none = Unit
IsBy m (some n) = n ≤ m

next_time-IsBy : (m : ℕ) (l : List Task) → All (λ y. y.expire_at ≤ m) l → IsBy m (next_time l)
unfolding next_time
next_time-IsBy m [] a = tt
next_time-IsBy m (t ∷ ts) a = by (next_time ts) (next_time-IsBy m ts a.1)
  where
    by :
        (rest : Option ℕ)
        → IsBy m rest
        → IsBy m (elim rest [ none ↦ some t.expire_at | some n ↦ some n ])
    by none h = a.0
    by (some n) h = h

next_time_lem : (l : List Task) → IsOrdered l → next_time l ≡ earliest l
unfolding next_time earliest
next_time_lem [] o = refl
next_time_lem (t ∷ ts) o =
    step (next_time ts) (earliest ts) (next_time_lem ts o.1) (next_time-IsBy t.expire_at ts o.0)
  where
    step :
        (r r' : Option ℕ)
        → r ≡ r'
        → IsBy t.expire_at r
        → elim r [ none ↦ some t.expire_at | some n ↦ some n ]
          ≡ elim r' [ none ↦ some t.expire_at | some n ↦ some (min t.expire_at n) ]
    step none none e h = refl
    step none (some n) e h = absurd (cc)
    step (some n) none e h = absurd (cc)
    step (some n) (some n') e h = ap some (ground (arith, e, h))

-- `Update` of a well-formed scheduler asks to be called again at the earliest time of the delayed
-- tasks that are left, and at no time if none is.
pub update-earliest :
    {capacity : ℕ} (place : ℕ → ℕ) (effects : ℕ → List Request) {s : Scheduler} (now : ℕ)
    → IsWell capacity [] s
    → (update capacity place effects s now).1
      ≡ earliest (update capacity place effects s now).0.delayed
unfolding update
update-earliest place effects now i =
    next_time_lem _ (unfold update in (update-IsWell place effects now i).ordered)

-- Functions that ask for nothing leave the queues alone.
module _ (capacity : ℕ) (place : ℕ → ℕ) (effects : ℕ → List Request)
    (quiet : (r : ℕ) → effects r ≡ []) where
  abbrev SameQueues : Scheduler → Scheduler → Type 0
  SameQueues s s' = (s'.regular ≡ s.regular) × (s'.delayed ≡ s.delayed) × (s'.freed ≡ s.freed)

  invoked-SameQueues :
      (b : Bool) (s : Scheduler) (t : Task)
      → SameQueues s (if b then invoke capacity place effects s t else s)
  unfolding invoke apply_all
  invoked-SameQueues false s t = (refl, refl, refl)
  invoked-SameQueues true s t = rw (quiet t.run) (refl, refl, refl)

  invoke_all-SameQueues :
      (s : Scheduler) (ts : List Task) → SameQueues s (invoke_all capacity place effects s ts)
  unfolding invoke_all
  invoke_all-SameQueues s [] = (refl, refl, refl)
  invoke_all-SameQueues s (t ∷ ts) =
      let (r, d, f) = invoked-SameQueues (is_active s.links t) s t in
      let (r', d', f') =
        invoke_all-SameQueues (if is_active s.links t then invoke capacity place effects s t else s)
          ts in
      (r' ∙ r, d' ∙ d, f' ∙ f)

  update_tasks_lem :
      (s : Scheduler) (ts : List Task)
      → let s' = update_tasks capacity place effects s ts in
        (s'.regular ≡ s.regular) × (s'.delayed ≡ s.delayed) × (s'.freed ≡ s.freed ++ ids ts)
  unfolding update_tasks
  update_tasks_lem s ts =
      let s1 = invoke_all capacity place effects s ts in
      let (r, d, f) = invoke_all-SameQueues s ts in
      let (_, f', r', d') = free_all_lem s1 ts in (r' ∙ r, d' ∙ d, f' ∙ ap (λ xs. xs ++ ids ts) f)

  -- In a well-formed scheduler whose functions ask for nothing more, `Update` leaves no regular
  -- task and of the delayed ones just those that are later than the time given. The tasks are freed
  -- in this order: the regular ones oldest first, then the delayed ones that are due, latest time
  -- first.
  pub update_lem :
      {s : Scheduler} (now : ℕ)
      → IsWell capacity [] s
      → let s' = (update capacity place effects s now).0 in
        (s'.regular ≡ [])
        × (s'.delayed ≡ later now s.delayed)
        × (s'.freed ≡ (s.freed ++ ids s.regular) ++ ids (due now s.delayed))
  unfolding update update_regular update_delayed
  update_lem {s} now i =
      let fits : length s.delayed ≤ capacity = omega (arith, i.pool, i.fits) in
      let taken = steal_regular-all capacity s.regular (omega (arith, i.pool, i.fits)) in
      let s1 : Scheduler =
        update_tasks capacity place effects (record s { trigger = false; regular = [] })
          s.regular in
      let (r1, d1, f1) = update_tasks_lem (record s { trigger = false; regular = [] }) s.regular in
      let stolen : steal_delayed now capacity s1.delayed []
          ≡ (due now s.delayed, later now s.delayed) =
        ap (λ l. steal_delayed now capacity l []) d1
        ∙ steal_delayed_lem now capacity s.delayed [] i.ordered fits in
      let (r2, d2, f2) =
        update_tasks_lem (record s1 { delayed = later now s.delayed }) (due now s.delayed) in
      rw (taken, stolen) (r2 ∙ r1, d2, f2 ∙ ap (λ xs. xs ++ ids (due now s.delayed)) f1)
