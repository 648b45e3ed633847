-- ===== src/Actions/Queue/Order.antt =====
-- actions_queue.h: the order in which stages leave the queue.
use aether_client_cpp.Prelude.{
  ℕ, zero, suc, ◌==◌, ◌≡◌, refl, sym, ap, ◌∙◌, arith, Bool, List, [], ◌∷◌, ◌++◌, map, append-nil,
  append_assoc, none, List-cases, Bool-cases, Option-cases, inl, inr,
}
use aether_client_cpp.Actions.Queue.{
  QueueCall, push_stage, stop_queue, Left, ran, dropped, ActionsQueue, emplace, drop_queue, do_call,
  do_calls, start, reset_stage, run_stage, push, on_finished, finish, stop_running, stop,
  QueueEvent, pushes, finishes, stops_all, apply, run,
}

abbrev pub stage : Left → ℕ
stage (ran n) = n
stage (dropped n) = n

-- What left the queue, and then what it holds, are the stages in the order in which they were pushed.
abbrev pub InOrder : ActionsQueue → Type 0
InOrder q = map stage q.left ++ q.queue ≡ q.pushed

map-append : (xs ys : List Left) → map stage (xs ++ ys) ≡ map stage xs ++ map stage ys
map-append [] ys = refl
map-append (x ∷ xs) ys = ap (◌∷◌ (stage x)) (map-append xs ys)

map-dropped : (ns : List ℕ) → map stage (map dropped ns) ≡ ns
map-dropped [] = refl
map-dropped (n ∷ ns) = ap (◌∷◌ n) (map-dropped ns)

emplace-InOrder : (q : ActionsQueue) (n : ℕ) → InOrder q → InOrder (emplace q n)
unfolding emplace
emplace-InOrder q n h =
    sym (append_assoc (map stage q.left) q.queue (n ∷ [])) ∙ ap (λ (xs : List ℕ). xs ++ n ∷ []) h

drop_queue-InOrder : (q : ActionsQueue) → InOrder q → InOrder (drop_queue q)
unfolding drop_queue
drop_queue-InOrder q h =
    append-nil _
    ∙ map-append q.left (map dropped q.queue)
    ∙ ap (λ (xs : List ℕ). map stage q.left ++ xs) (map-dropped q.queue)
    ∙ h

do_calls-InOrder : (q : ActionsQueue) (cs : List QueueCall) → InOrder q → InOrder (do_calls q cs)
unfolding do_calls do_call
do_calls-InOrder q [] h = h
do_calls-InOrder q (push_stage n ∷ cs) h = do_calls-InOrder (emplace q n) cs (emplace-InOrder q n h)
do_calls-InOrder q (stop_queue ∷ cs) h = do_calls-InOrder (drop_queue q) cs (drop_queue-InOrder q h)

start-InOrder :
    (q : ActionsQueue) (n : ℕ) (ns : List ℕ) → q.queue ≡ n ∷ ns → InOrder q → InOrder (start q n ns)
unfolding start
start-InOrder q n ns e h =
    ap (λ (xs : List ℕ). xs ++ ns) (map-append q.left (ran n ∷ []))
    ∙ append_assoc (map stage q.left) (n ∷ []) ns
    ∙ ap (λ (xs : List ℕ). map stage q.left ++ xs) (sym e)
    ∙ h

module _ (calls : ℕ → List QueueCall) (at_once : ℕ → Bool) where
  run_stage-InOrder :
      (fuel : ℕ) (q : ActionsQueue) → InOrder q → InOrder (run_stage calls at_once fuel q)
  unfolding run_stage reset_stage
  run_stage-InOrder zero q h = h
  run_stage-InOrder (suc fuel) q h = elim (List-cases q.queue) [
    | inl e ↦ rw (run_stage, e) h
    | inr (n, ns, e) ↦
        let q1 = do_calls (start q n ns) (calls n) in
        let h1 = do_calls-InOrder (start q n ns) (calls n) (start-InOrder q n ns e h) in
        let rest = run_stage-InOrder fuel (reset_stage (record q1 { stage_sub = none })) h1 in
        rw (run_stage, e) (elim (Bool-cases (at_once n)) [ inl t ↦ rw t rest | inr f ↦ rw f h1 ])
  ]

  push-InOrder :
      (fuel : ℕ) (q : ActionsQueue) (n : ℕ) → InOrder q → InOrder (push calls at_once fuel q n)
  unfolding push
  push-InOrder fuel q n h = elim (Option-cases q.running_stage) [
    | inl e ↦ rw (push, e) (run_stage-InOrder fuel (emplace q n) (emplace-InOrder q n h))
    | inr (m, e) ↦ rw (push, e) (emplace-InOrder q n h)
  ]

  finish-InOrder :
      (fuel : ℕ) (q : ActionsQueue) (n : ℕ) → InOrder q → InOrder (finish calls at_once fuel q n)
  unfolding finish on_finished reset_stage
  finish-InOrder fuel q n h =
      let handled = run_stage-InOrder fuel (reset_stage q) h in
      elim (Option-cases q.stage_sub) [
        | inl e ↦ rw (finish, e) h
        | inr (m, e) ↦ elim (Bool-cases (m == n)) [
          | inl t ↦ rw (finish, e, t) handled
          | inr f ↦ rw (finish, e, f) h
        ]
      ]

  module _ (ends_on_stop : ℕ → Bool) where
    stop_running-InOrder :
        (fuel : ℕ) (q : ActionsQueue) (m : ℕ)
        → InOrder q
        → InOrder (stop_running calls at_once ends_on_stop fuel q m)
    unfolding stop_running
    stop_running-InOrder fuel q m h =
        let ended = finish-InOrder fuel (record q { stops = q.stops ++ m ∷ [] }) m h in
        ground (arith, ended, h)

    stop-InOrder :
        (fuel : ℕ) (q : ActionsQueue) → InOrder q → InOrder (stop calls at_once ends_on_stop fuel q)
    unfolding stop
    stop-InOrder fuel q h =
        let h1 = drop_queue-InOrder q h in
        elim (Option-cases q.running_stage) [
          | inl e ↦ rw (stop, e) h1
          | inr (m, e) ↦ rw (stop, e) (stop_running-InOrder fuel (drop_queue q) m h1)
        ]

    apply-InOrder :
        (fuel : ℕ) (q : ActionsQueue) (v : QueueEvent)
        → InOrder q
        → InOrder (apply calls at_once ends_on_stop fuel q v)
    unfolding apply
    apply-InOrder fuel q (pushes n) h = push-InOrder fuel q n h
    apply-InOrder fuel q stops_all h = stop-InOrder fuel q h
    apply-InOrder fuel q (finishes n) h = finish-InOrder fuel q n h

    -- Whatever the factories ask of the queue and however its stages end, after any events and on
    -- any fuel: the stages that were run or dropped, in this order, and then the ones that wait,
    -- are all the stages that were pushed, in the order in which they were pushed, if this held
    -- before.
    pub run-InOrder :
        (fuel : ℕ) (q : ActionsQueue) (vs : List QueueEvent)
        → InOrder q
        → InOrder (run calls at_once ends_on_stop fuel q vs)
    unfolding run
    run-InOrder fuel q [] h = h
    run-InOrder fuel q (v ∷ vs) h =
        run-InOrder fuel (apply calls at_once ends_on_stop fuel q v) vs (apply-InOrder fuel q v h)
