-- ===== src/Actions/Queue/Idle.antt =====
-- actions_queue.h: a queue whose factories ask nothing of it runs on until a stage has to be waited
-- for.
use aether_client_cpp.Prelude.{
  ℕ, zero, suc, ◌+◌, ◌≤◌, ◌<◌, ◌==◌, ◌≡◌, ◌⊎◌, refl, ap, arith, Bool, true, List, [], ◌∷◌, ◌++◌,
  length, length-append, none, some, Bool-cases, Option-cases, inl, inr,
}
use aether_client_cpp.Actions.Queue.{
  QueueCall, ActionsQueue, emplace, drop_queue, do_calls, start, reset_stage, run_stage, push,
  on_finished, finish, stop_running, stop, QueueEvent, pushes, finishes, stops_all, apply, run,
}

abbrev pub no_calls : ℕ → List QueueCall
no_calls n = []

-- No stage runs and none waits, or one runs and its end starts the next.
abbrev pub IsSettled : ActionsQueue → Type 0
IsSettled q =
    ((q.running_stage ≡ none) × (q.queue ≡ []))
    ⊎ ((n : ℕ) × (q.running_stage ≡ some n) × (q.has_action ≡ true) × (q.stage_sub ≡ some n))

-- A queue that settled with at most `n` stages that wait.
abbrev Settles : ℕ → ActionsQueue → Type 0
Settles n q = IsSettled q × (length q.queue ≤ n)

Settles-le : {m n : ℕ} (q : ActionsQueue) → m ≤ n → Settles m q → Settles n q
Settles-le q l (s, k) = (s, omega (arith, l, k))

module _ (at_once : ℕ → Bool) where
  run_stage_nil :
      (fuel : ℕ) (q : ActionsQueue) → q.queue ≡ [] → run_stage no_calls at_once fuel q ≡ q
  unfolding run_stage
  run_stage_nil zero q h = refl
  run_stage_nil (suc fuel) q h = simp (run_stage, h) refl

  -- With fuel for every stage that waits.
  run_stage-Settles :
      (fuel : ℕ) (ns : List ℕ) (q : ActionsQueue)
      → q.queue ≡ ns
      → q.running_stage ≡ none
      → length ns ≤ fuel
      → Settles (length ns) (run_stage no_calls at_once fuel q)
  unfolding run_stage reset_stage do_calls start
  run_stage-Settles fuel [] q h e l =
      rw (run_stage_nil fuel q h) ((inl ((e, h)), omega (arith, ap length h)))
  run_stage-Settles zero (n ∷ ns) q h e l = absurd (omega (arith, l))
  run_stage-Settles (suc fuel) (n ∷ ns) q h e l =
      let q1 = reset_stage (record (start q n ns) { stage_sub = none }) in
      let rest = run_stage-Settles fuel ns q1 refl refl (omega (arith, l)) in
      elim (Bool-cases (at_once n)) [
        | inl t ↦ rw (run_stage, h, t) ((rest.0, omega (arith, rest.1)))
        | inr f ↦ rw (run_stage, h, f) ((inr ((n, refl, refl, refl)), omega arith))
      ]

  push-Settles :
      (fuel : ℕ) (q : ActionsQueue) (n : ℕ)
      → IsSettled q
      → length q.queue < fuel
      → Settles (length q.queue + 1) (push no_calls at_once fuel q n)
  unfolding push emplace
  push-Settles fuel q n (inl (e, h)) l =
      let there = ap (λ (xs : List ℕ). xs ++ n ∷ []) h in
      let settled = run_stage-Settles fuel (n ∷ []) (emplace q n) there e (omega (arith, l)) in
      rw (push, e) ((settled.0, omega (arith, settled.1)))
  push-Settles fuel q n (inr (m, e, a, s)) l =
      rw (push, e) ((inr ((m, e, a, s)), omega (arith, length-append q.queue (n ∷ []))))

  finish-Settles :
      (fuel : ℕ) (q : ActionsQueue) (n : ℕ)
      → IsSettled q
      → length q.queue ≤ fuel
      → Settles (length q.queue) (finish no_calls at_once fuel q n)
  unfolding finish on_finished reset_stage
  finish-Settles fuel q n h l =
      let handled = run_stage-Settles fuel q.queue (reset_stage q) refl refl l in
      elim (Option-cases q.stage_sub) [
        | inl e ↦ rw (finish, e) ((h, omega arith))
        | inr (m, e) ↦ elim (Bool-cases (m == n)) [
          | inl t ↦ rw (finish, e, t) handled
          | inr f ↦ rw (finish, e, f) ((h, omega arith))
        ]
      ]

  module _ (ends_on_stop : ℕ → Bool) where
    stop_running-Settles :
        (fuel : ℕ) (q : ActionsQueue) (m : ℕ)
        → IsSettled q
        → length q.queue ≤ fuel
        → Settles (length q.queue) (stop_running no_calls at_once ends_on_stop fuel q m)
    unfolding stop_running
    stop_running-Settles fuel q m h l =
        let ended = finish-Settles fuel (record q { stops = q.stops ++ m ∷ [] }) m h l in
        let left_alone : Settles (length q.queue) (record q { stops = q.stops ++ m ∷ [] }) =
          (h, omega arith) in
        let same : Settles (length q.queue) q = (h, omega arith) in
        ground (arith, ended, left_alone, same)

    stop-Settles :
        (fuel : ℕ) (q : ActionsQueue)
        → IsSettled q
        → Settles 0 (stop no_calls at_once ends_on_stop fuel q)
    unfolding stop drop_queue
    stop-Settles fuel q (inl (e, h)) = rw (stop, e) ((inl ((e, refl)), omega arith))
    stop-Settles fuel q (inr (m, e, a, s)) =
        rw (stop, e) (stop_running-Settles fuel (drop_queue q) m (inr ((m, e, a, s))) (omega arith))

    apply-Settles :
        (fuel : ℕ) (q : ActionsQueue) (v : QueueEvent)
        → IsSettled q
        → length q.queue < fuel
        → Settles (length q.queue + 1) (apply no_calls at_once ends_on_stop fuel q v)
    unfolding apply
    apply-Settles fuel q (pushes n) h l = push-Settles fuel q n h l
    apply-Settles fuel q stops_all h l =
        Settles-le (stop no_calls at_once ends_on_stop fuel q) (omega arith) (stop-Settles fuel q h)
    apply-Settles fuel q (finishes n) h l =
        Settles-le (finish no_calls at_once fuel q n) (omega arith)
          (finish-Settles fuel q n h (omega (arith, l)))

    -- With factories that ask nothing of the queue, and fuel for the stages that wait and one more
    -- for each event: after any events on a settled queue, either no stage runs and none waits, or
    -- one runs that has its action, and the queue has its handler at the end of that action.
    pub run-IsSettled :
        (fuel : ℕ) (q : ActionsQueue) (vs : List QueueEvent)
        → IsSettled q
        → length q.queue + length vs ≤ fuel
        → IsSettled (run no_calls at_once ends_on_stop fuel q vs)
    unfolding run
    run-IsSettled fuel q [] h l = h
    run-IsSettled fuel q (v ∷ vs) h l =
        let (h1, l1) = apply-Settles fuel q v h (omega (arith, l)) in
        run-IsSettled fuel (apply no_calls at_once ends_on_stop fuel q v) vs h1
          (omega (arith, l, l1))
