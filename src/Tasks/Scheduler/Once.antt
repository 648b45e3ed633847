-- ===== src/Tasks/Scheduler/Once.antt =====
-- manual_task_scheduler.h: every task is run at most once, and freed once.
use aether_client_cpp.Prelude.{
  count, count-append, ℕ, ◌+◌, ◌≤◌, ◌≡◌, refl, arith, ap, sym, ◌∙◌, ltb, ◌==◌, Bool, true, false,
  if◌then◌else◌, List, [], ◌∷◌, ◌++◌, length, append-nil, append_assoc,
}
use aether_client_cpp.Tasks.Queues.{Task, add_regular, add_delayed}
use aether_client_cpp.Tasks.Scheduler.{
  Request, task, delayed_task, reset_subscription, Scheduler, init, is_active, add_failed, created,
  free, free_all, new_task, emplace_regular, add_task, emplace_delayed, add_delayed_task,
  assign_result, apply, apply_all, invoke, invoke_all, update_tasks, update_regular, update_delayed,
  update,
}
use aether_client_cpp.Tasks.Scheduler.Keep.{count_tasks, IsWell, apply-IsWell, update-IsWell}

-- Requests invoke and free nothing.
abbrev Same : Scheduler → Scheduler → Type 0
Same s s' = (s'.log ≡ s.log) × (s'.freed ≡ s.freed)

module _ (capacity : ℕ) (place : ℕ → ℕ) where
  emplace_regular-Same :
      (s : Scheduler) (t : Task) (r : List Task × Bool)
      → Same s (emplace_regular capacity place s t r).0
  unfolding emplace_regular created add_failed
  emplace_regular-Same s t (list, true) = (refl, refl)
  emplace_regular-Same s t (list, false) = (refl, refl)

  emplace_delayed-Same :
      (s : Scheduler) (t : Task) (r : List Task × Bool)
      → Same s (emplace_delayed capacity place s t r).0
  unfolding emplace_delayed created add_failed
  emplace_delayed-Same s t (list, true) = (refl, refl)
  emplace_delayed-Same s t (list, false) = (refl, refl)

  apply-Same : (s : Scheduler) (r : Request) → Same s (apply capacity place s r)
  unfolding apply assign_result add_task add_delayed_task add_failed
  apply-Same s (task subscription run) = ground (
    arith,
    emplace_regular-Same s (new_task capacity place s run 0)
        (add_regular capacity s.regular (new_task capacity place s run 0)),
  )
  apply-Same s (delayed_task subscription run t) = ground (
    arith,
    emplace_delayed-Same s (new_task capacity place s run t)
        (add_delayed capacity s.delayed (new_task capacity place s run t)),
  )
  apply-Same s (reset_subscription subscription) = (refl, refl)

  apply_all-Same : (s : Scheduler) (rs : List Request) → Same s (apply_all capacity place s rs)
  unfolding apply_all
  apply_all-Same s [] = (refl, refl)
  apply_all-Same s (r ∷ rs) =
      let (l, f) = apply-Same s r in
      let (l', f') = apply_all-Same (apply capacity place s r) rs in (l' ∙ l, f' ∙ f)

  invoked-count :
      (effects : ℕ → List Request) (b : Bool) (s : Scheduler) (t : Task) (k : ℕ)
      → let s' = if b then invoke capacity place effects s t else s in
        (count k s'.log ≤ count k s.log + (if t.id == k then 1 else 0)) × (s'.freed ≡ s.freed)
  unfolding invoke count
  invoked-count effects false s t k = (ground arith, refl)
  invoked-count effects true s t k =
      let (logged, same) = apply_all-Same (record s { log = s.log ++ t.id ∷ [] }) (effects t.run) in
      (ground (arith, count-append k s.log (t.id ∷ []), ap (count k) logged), same)

  -- A task of a batch is invoked at most as often as it stands there.
  invoke_all-count :
      (effects : ℕ → List Request) (s : Scheduler) (ts : List Task) (k : ℕ)
      → let s' = invoke_all capacity place effects s ts in
        (count k s'.log ≤ count k s.log + count_tasks k ts) × (s'.freed ≡ s.freed)
  unfolding invoke_all count_tasks
  invoke_all-count effects s [] k = (omega arith, refl)
  invoke_all-count effects s (t ∷ ts) k =
      let (c, f) = invoked-count effects (is_active s.links t) s t k in
      let (c', f') =
        invoke_all-count effects
          (if is_active s.links t then invoke capacity place effects s t else s) ts k in
      (ground (arith, c, c'), f' ∙ f)

-- The ids of tasks.
abbrev pub ids : List Task → List ℕ
ids [] = []
ids (t ∷ ts) = t.id ∷ ids ts

count-ids : (k : ℕ) (ts : List Task) → count k (ids ts) ≡ count_tasks k ts
unfolding count count_tasks
count-ids k [] = refl
count-ids k (t ∷ ts) = ground (arith, count-ids k ts)

pub free_all_lem :
    (s : Scheduler) (ts : List Task)
    → let s' = free_all s ts in
      (s'.log ≡ s.log)
      × (s'.freed ≡ s.freed ++ ids ts)
      × (s'.regular ≡ s.regular)
      × (s'.delayed ≡ s.delayed)
unfolding free_all free
free_all_lem s [] = (refl, sym (append-nil s.freed), refl, refl)
free_all_lem s (t ∷ ts) =
    let (l, f, r, d) = free_all_lem (free s t) ts in
    (l, f ∙ append_assoc s.freed (t.id ∷ []) (ids ts), r, d)

abbrev IsOnce : Scheduler → Type 0
IsOnce s = (k : ℕ) → count k s.log ≤ count k s.freed

module _ (capacity : ℕ) (place : ℕ → ℕ) (effects : ℕ → List Request) where
  update_tasks-IsOnce :
      (s : Scheduler) (ts : List Task)
      → IsOnce s
      → IsOnce (update_tasks capacity place effects s ts)
  unfolding update_tasks
  update_tasks-IsOnce s ts o k =
      let s1 = invoke_all capacity place effects s ts in
      let (c, f) = invoke_all-count capacity place effects s ts k in
      let (l', f', _, _) = free_all_lem s1 ts in
      omega (
        arith,
        c,
        o k,
        ap (count k) l',
        ap (count k) f',
        ap (count k) f,
        count-append k s1.freed (ids ts),
        count-ids k ts,
      )

  update-IsOnce :
      (s : Scheduler) (now : ℕ) → IsOnce s → IsOnce (update capacity place effects s now).0
  unfolding update update_regular update_delayed
  update-IsOnce s now o = update_tasks-IsOnce _ _ (update_tasks-IsOnce _ _ o)

-- What can happen to a scheduler: a request from outside, or an update.
pub data Step (capacity : ℕ) (place : ℕ → ℕ) (effects : ℕ → List Request)
    : Scheduler → Scheduler → Type 0 where
  requests :
      (s : Scheduler) (r : Request) → Step capacity place effects s (apply capacity place s r)
  updates :
      (s : Scheduler) (now : ℕ)
      → Step capacity place effects s (update capacity place effects s now).0

pub data Reach (capacity : ℕ) (place : ℕ → ℕ) (effects : ℕ → List Request) (s : Scheduler)
    : Scheduler → Type 0 where
  here : Reach capacity place effects s s
  next :
      {t u : Scheduler}
      → Reach capacity place effects s t
      → Step capacity place effects t u
      → Reach capacity place effects s u

abbrev Both : ℕ → Scheduler → Type 0
Both capacity s = IsWell capacity [] s × IsOnce s

init-Both : (capacity : ℕ) → Both capacity init
unfolding init count count_tasks
init-Both capacity = (
  record { ordered = tt; pool = omega arith; fits = omega arith; once = λ k. ground arith },
  λ k. omega arith,
)

module _ {capacity : ℕ} {place : ℕ → ℕ} {effects : ℕ → List Request} where
  Step-Both :
      {s u : Scheduler} → Step capacity place effects s u → Both capacity s → Both capacity u
  Step-Both (requests s r) (i, o) =
      let (l, f) = apply-Same capacity place s r in
      (apply-IsWell place r i, λ k. omega (arith, o k, ap (count k) l, ap (count k) f))
  Step-Both (updates s now) (i, o) =
      (update-IsWell place effects now i, update-IsOnce capacity place effects s now o)

  Reach-Both :
      {s u : Scheduler} → Reach capacity place effects s u → Both capacity s → Both capacity u
  Reach-Both here b = b
  Reach-Both (next r st) b = Step-Both st (Reach-Both r b)

  -- Take a new scheduler, and let tasks and delayed tasks be asked for, subscriptions be reset and
  -- updates run, in any order and with whatever the invoked functions ask for in turn. Each task
  -- that was made then either waits in just one queue or was freed, once, and was invoked at most
  -- as often as it was freed; no other task waits or was freed. The pool's taken places are those
  -- of the waiting tasks, no more than its capacity.
  pub tasks_once :
      {s : Scheduler} (k : ℕ)
      → Reach capacity place effects init s
      → (count_tasks k s.regular + count_tasks k s.delayed + count k s.freed
          ≡ (if ltb k s.next_id then 1 else 0))
        × (count k s.log ≤ count k s.freed)
        × (s.used ≡ length s.regular + length s.delayed)
        × (s.used ≤ capacity)
  unfolding count_tasks
  tasks_once k r =
      let (i, o) = Reach-Both r (init-Both capacity) in
      (omega (arith, i.once k), o k, omega (arith, i.pool), i.fits)
