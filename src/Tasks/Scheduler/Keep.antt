-- ===== src/Tasks/Scheduler/Keep.antt =====
-- manual_task_scheduler.h: what the scheduler keeps true of its queues and its pool.
use aether_client_cpp.Prelude.{
  ℕ, suc, ◌+◌, ◌≤◌, ◌<◌, ◌≡◌, refl, arith, ap, sym, ◌∙◌, subst, ltb, ◌==◌, false, if◌then◌else◌,
  List, [], ◌∷◌, ◌++◌, length, count, count-append, take, length-append, inl, inr, Bool-cases,
  drop-length,
}
use aether_client_cpp.Tasks.Links.{Links}
use aether_client_cpp.Tasks.Queues.{Task, add_regular, steal_regular}
use aether_client_cpp.Tasks.Queues.Order.{
  IsOrdered, due, later, split, add_delayed_lem, steal_delayed_lem, add_delayed-IsOrdered,
  steal_delayed-IsOrdered,
}
use aether_client_cpp.Tasks.Scheduler.{
  Request, task, delayed_task, reset_subscription, Scheduler, is_active, add_failed, created, free,
  free_all, new_task, emplace_regular, add_task, emplace_delayed, add_delayed_task, assign_result,
  apply, apply_all, invoke, invoke_all, update_tasks, update_regular, update_delayed, update,
}

-- How often an id stands in a list of tasks.
unfoldable pub count_tasks : ℕ → List Task → ℕ
count_tasks k [] = 0
count_tasks k (t ∷ ts) = if t.id == k then suc (count_tasks k ts) else count_tasks k ts

pub count_tasks-append :
    (k : ℕ) (xs ys : List Task) → count_tasks k (xs ++ ys) ≡ count_tasks k xs + count_tasks k ys
unfolding count_tasks
count_tasks-append k [] ys = omega arith
count_tasks-append k (x ∷ xs) ys = ground (arith, count_tasks-append k xs ys)

-- With the tasks `busy` taken from the queues: the delayed queue is in order, the pool holds just
-- the tasks that wait or are taken, and of each task made it is waiting, taken or freed, and that once.
pub record IsWell (capacity : ℕ) (busy : List Task) (s : Scheduler) : Type 0 where
  pub ordered : IsOrdered s.delayed
  pub pool : s.used ≡ length s.regular + length s.delayed + length busy
  pub fits : s.used ≤ capacity
  pub once :
      (k : ℕ)
      → count_tasks k s.regular + count_tasks k s.delayed + count_tasks k busy + count k s.freed
        ≡ (if ltb k s.next_id then 1 else 0)

length-later-due :
    (t : ℕ) (l : List Task) → IsOrdered l → length l ≡ length (later t l) + length (due t l)
length-later-due t l o = ap length (sym (split t l o)) ∙ length-append (later t l) (due t l)

count-later-due :
    (k t : ℕ) (l : List Task)
    → IsOrdered l
    → count_tasks k l ≡ count_tasks k (later t l) + count_tasks k (due t l)
count-later-due k t l o =
    ap (count_tasks k) (sym (split t l o)) ∙ count_tasks-append k (later t l) (due t l)

module _ {capacity : ℕ} (place : ℕ → ℕ) {busy : List Task} {s : Scheduler}
    (i : IsWell capacity busy s) where
  add_task-IsWell : (run : ℕ) → IsWell capacity busy (add_task capacity place s run).0
  unfolding add_task add_failed emplace_regular add_regular created new_task count_tasks
  add_task-IsWell run = elim (Bool-cases (s.used == capacity)) [
    | inl full ↦
        rw (full, add_task)
          (record { ordered = i.ordered; pool = i.pool; fits = i.fits; once = i.once })
    | inr room ↦
        let t = new_task capacity place s run 0 in
        let space : (length s.regular == capacity) ≡ false = ground (arith, i.pool, i.fits) in
        rw (room, space, add_task)
          (record {
            ordered = i.ordered;
            pool = omega (arith, i.pool, length-append s.regular (t ∷ []));
            fits = ground (arith, i.fits);
            once = λ k. ground (arith, i.once k, count_tasks-append k s.regular (t ∷ []));
          })
  ]

  add_delayed_task-IsWell :
      (run t : ℕ) → IsWell capacity busy (add_delayed_task capacity place s run t).0
  unfolding add_delayed_task add_failed emplace_delayed created new_task count_tasks
  add_delayed_task-IsWell run t = elim (Bool-cases (s.used == capacity)) [
    | inl full ↦
        rw (full, add_delayed_task)
          (record { ordered = i.ordered; pool = i.pool; fits = i.fits; once = i.once })
    | inr room ↦
        let new = new_task capacity place s run t in
        let space : length s.delayed < capacity = ground (arith, i.pool, i.fits) in
        let put = add_delayed_lem capacity s.delayed new i.ordered space in
        let kept =
          subst IsOrdered (ap (λ r. r.0) put)
            (add_delayed-IsOrdered capacity s.delayed new i.ordered (omega arith)) in
        rw (room, put, add_delayed_task)
          (record {
            ordered = kept;
            pool = omega (
              arith,
              i.pool,
              length-append (later t s.delayed) (new ∷ due t s.delayed),
              length-later-due t s.delayed i.ordered,
            );
            fits = ground (arith, i.fits);
            once = λ k. ground (
              arith,
              i.once k,
              count_tasks-append k (later t s.delayed) (new ∷ due t s.delayed),
              count-later-due k t s.delayed i.ordered,
            );
          })
  ]

module _ {capacity : ℕ} (place : ℕ → ℕ) {busy : List Task} where
  IsWell-links :
      {s : Scheduler} (links : Links)
      → IsWell capacity busy s
      → IsWell capacity busy (record s { links = links })
  IsWell-links links i = record { ordered = i.ordered; pool = i.pool; fits = i.fits; once = i.once }

  pub apply-IsWell :
      {s : Scheduler} (r : Request)
      → IsWell capacity busy s
      → IsWell capacity busy (apply capacity place s r)
  unfolding apply assign_result
  apply-IsWell (task subscription run) i = IsWell-links _ (add_task-IsWell place i run)
  apply-IsWell (delayed_task subscription run t) i =
      IsWell-links _ (add_delayed_task-IsWell place i run t)
  apply-IsWell (reset_subscription subscription) i = IsWell-links _ i

  apply_all-IsWell :
      (rs : List Request) {s : Scheduler}
      → IsWell capacity busy s
      → IsWell capacity busy (apply_all capacity place s rs)
  unfolding apply_all
  apply_all-IsWell [] i = i
  apply_all-IsWell (r ∷ rs) i = apply_all-IsWell rs (apply-IsWell r i)

module _ {capacity : ℕ} (place : ℕ → ℕ) (effects : ℕ → List Request) where
  invoke_all-IsWell :
      {busy : List Task} (ts : List Task) {s : Scheduler}
      → IsWell capacity busy s
      → IsWell capacity busy (invoke_all capacity place effects s ts)
  unfolding invoke_all invoke
  invoke_all-IsWell [] i = i
  invoke_all-IsWell (t ∷ ts) {s = s} i =
      invoke_all-IsWell ts (elim (Bool-cases (is_active s.links t)) [
        | inl runs ↦ rw runs (
            apply_all-IsWell place (effects t.run)
              (record { ordered = i.ordered; pool = i.pool; fits = i.fits; once = i.once }))
        | inr stopped ↦ rw stopped i
      ])

free-IsWell :
    {capacity : ℕ} {s : Scheduler} (t : Task) (ts : List Task)
    → IsWell capacity (t ∷ ts) s
    → IsWell capacity ts (free s t)
unfolding free count_tasks count
free-IsWell {s = s} t ts i = record {
  ordered = i.ordered;
  pool = omega (arith, i.pool);
  fits = omega (arith, i.fits);
  once = λ k. ground (arith, i.once k, count-append k s.freed (t.id ∷ []));
}

free_all-IsWell :
    {capacity : ℕ} (ts : List Task) {s : Scheduler}
    → IsWell capacity ts s
    → IsWell capacity [] (free_all s ts)
unfolding free_all
free_all-IsWell [] i = i
free_all-IsWell (t ∷ ts) i = free_all-IsWell ts (free-IsWell t ts i)

pub steal_regular-all :
    (capacity : ℕ) (l : List Task) → length l ≤ capacity → steal_regular capacity l [] ≡ (l, [])
unfolding steal_regular
steal_regular-all capacity l h = ground (arith, take-length l, drop-length (length l) l)
  where
    take-length : (xs : List Task) → take (length xs) xs ≡ xs
    take-length [] = refl
    take-length (x ∷ xs) = ap (◌∷◌ x) (take-length xs)

module _ {capacity : ℕ} (place : ℕ → ℕ) (effects : ℕ → List Request) {s : Scheduler}
    (i : IsWell capacity [] s) where
  pub update_regular-IsWell : IsWell capacity [] (update_regular capacity place effects s)
  unfolding update_regular update_tasks count_tasks
  update_regular-IsWell =
      rw (steal_regular-all capacity s.regular (omega (arith, i.pool, i.fits))) (
        free_all-IsWell s.regular (
          invoke_all-IsWell place effects s.regular (record {
            ordered = i.ordered;
            pool = omega (arith, i.pool);
            fits = i.fits;
            once = λ k. omega (arith, i.once k);
          })))

  update_delayed-IsWell :
      (now : ℕ) → IsWell capacity [] (update_delayed capacity place effects s now)
  unfolding update_delayed update_tasks count_tasks
  update_delayed-IsWell now =
      let fits : length s.delayed ≤ capacity = omega (arith, i.pool, i.fits) in
      let kept =
        subst IsOrdered (ap (λ r. r.1) (steal_delayed_lem now capacity s.delayed [] i.ordered fits))
          (steal_delayed-IsOrdered now capacity s.delayed [] i.ordered fits) in
      rw (steal_delayed_lem now capacity s.delayed [] i.ordered fits) (
        free_all-IsWell (due now s.delayed) (
          invoke_all-IsWell place effects (due now s.delayed) (record {
            ordered = kept;
            pool = omega (arith, i.pool, length-later-due now s.delayed i.ordered);
            fits = i.fits;
            once = λ k. omega (arith, i.once k, count-later-due k now s.delayed i.ordered);
          })))

module _ {capacity : ℕ} (place : ℕ → ℕ) (effects : ℕ → List Request) {s : Scheduler} where
  pub update-IsWell :
      (now : ℕ) → IsWell capacity [] s → IsWell capacity [] (update capacity place effects s now).0
  unfolding update
  update-IsWell now i =
      update_delayed-IsWell place effects
        (update_regular-IsWell place effects
          (record { ordered = i.ordered; pool = i.pool; fits = i.fits; once = i.once }))
        now
