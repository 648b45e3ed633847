-- ===== src/Tasks/Scheduler/Resubscribed.antt =====
-- task_manager.h and task_subsctiption.h: a subscription that is assigned from two tasks, one after
-- the other.
use aether_client_cpp.Prelude.{
  ℕ, ◌+◌, ◌≤◌, ◌≡◌, refl, ap, ◌∙◌, arith, ◌==◌, true, false, List, [], ◌∷◌, ◌++◌, some, length,
  Option-cases, inl, inr,
}
use aether_client_cpp.Tasks.Queues.{Task, add_regular}
use aether_client_cpp.Tasks.Links
use aether_client_cpp.Tasks.Links.{Links}
use aether_client_cpp.Tasks.Scheduler.{
  task, Scheduler, is_active, new_task, emplace_regular, add_task, created, assign_result, apply,
}

-- After an assignment from a new task the subscription and the task point to each other.
assign_fresh :
    (w : Links) (s p : ℕ)
    → ((Links.assign (Links.create w p) s (some p)).ptr s ≡ some p)
      × ((Links.assign (Links.create w p) s (some p)).active p ≡ some (Links.linked s))
unfolding Links.assign Links.create Links.reset Links.point Links.set_ptr Links.set_active
assign_fresh w s p = elim (Option-cases (w.ptr s)) [
  | inl e ↦ ground (arith, e)
  | inr (q, e) ↦ elim (Option-cases (w.active q)) [
    | inl f ↦ ground (arith, e, f)
    | inr (a, f) ↦ ground (arith, e, f)
  ]
]

-- The next assignment cancels the task it had.
assign_again :
    (w : Links) (s p q : ℕ)
    → w.ptr s ≡ some p
    → w.active p ≡ some (Links.linked s)
    → (p == q) ≡ false
    → (Links.assign (Links.create w q) s (some q)).active p ≡ some Links.cancelled
unfolding Links.assign Links.create Links.reset Links.point Links.set_ptr Links.set_active
assign_again w s p q e f n = ground (arith, e, f, n)

module _ (capacity : ℕ) (place : ℕ → ℕ) where
  apply_task :
      (s : Scheduler) (subscription run : ℕ)
      → (s.used == capacity) ≡ false
      → (length s.regular == capacity) ≡ false
      → let t = new_task capacity place s run 0 in
        let s1 = apply capacity place s (task subscription run) in
        (s1.regular ≡ s.regular ++ t ∷ [])
        × (s1.links ≡ Links.assign (Links.create s.links t.place) subscription (some t.place))
        × (s1.used ≡ s.used + 1)
        × (s1.next_id ≡ s.next_id + 1)
  unfolding apply assign_result add_task emplace_regular add_regular created
  apply_task s subscription run h l = ground (arith, h, l)

  -- When a scheduler with no regular tasks has two places, and they differ: after a subscription is
  -- assigned from a task and then from another, both wait in order, and only the second is active.
  pub apply-twice :
      (s : Scheduler) (subscription run run' : ℕ)
      → s.regular ≡ []
      → s.used + 2 ≤ capacity
      → (place s.next_id == place (s.next_id + 1)) ≡ false
      → let s2 =
          apply capacity place
            (apply capacity place s (task subscription run))
            (task subscription run') in
        (t t' : Task) × (s2.regular ≡ t ∷ t' ∷ [])
        × (t.run ≡ run)
        × (t'.run ≡ run')
        × (is_active s2.links t ≡ false)
        × (is_active s2.links t' ≡ true)
  unfolding is_active new_task
  apply-twice s subscription run run' e h n =
      let t = new_task capacity place s run 0 in
      let s1 = apply capacity place s (task subscription run) in
      let t' = new_task capacity place s1 run' 0 in
      let (r1, w1, u1, n1) =
        apply_task s subscription run (ground (arith, h)) (ground (arith, h, ap length e)) in
      let one : length s1.regular ≡ 1 =
        ap length r1 ∙ ap (λ (ts : List Task). length (ts ++ t ∷ [])) e in
      let (r2, w2, u2, n2) =
        apply_task s1 subscription run' (ground (arith, h, u1)) (ground (arith, h, one)) in
      let differ : (t.place == t'.place) ≡ false = rw n1 n in
      let (p1, a1) = assign_fresh s.links subscription t.place in
      let (p2, a2) = assign_fresh s1.links subscription t'.place in
      let again =
        assign_again s1.links subscription t.place t'.place
          (ap (λ (w : Links). w.ptr subscription) w1 ∙ p1)
          (ap (λ (w : Links). w.active t.place) w1 ∙ a1) differ in
      (
        t,
        t',
        r2 ∙ ap (λ (ts : List Task). ts ++ t' ∷ []) (r1 ∙ ap (λ (ts : List Task). ts ++ t ∷ []) e),
        refl,
        refl,
        ground (arith, w2, again),
        ground (arith, w2, a2),
      )

  pub apply-once :
      (s : Scheduler) (subscription run : ℕ)
      → s.regular ≡ []
      → s.used + 1 ≤ capacity
      → let s1 = apply capacity place s (task subscription run) in
        (t : Task) × (s1.regular ≡ t ∷ []) × (t.run ≡ run) × (is_active s1.links t ≡ true)
  unfolding is_active new_task
  apply-once s subscription run e h =
      let t = new_task capacity place s run 0 in
      let (r1, w1, u1, n1) =
        apply_task s subscription run (ground (arith, h)) (ground (arith, h, ap length e)) in
      let (p1, a1) = assign_fresh s.links subscription t.place in
      (t, r1 ∙ ap (λ (ts : List Task). ts ++ t ∷ []) e, refl, ground (arith, w1, a1))
