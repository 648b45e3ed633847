-- ===== src/Tasks/Links/Safe.antt =====
-- task_subsctiption.h: no subscription points to a task that is gone.
use aether_client_cpp.Prelude.{
  ℕ, ◌≡◌, ◌≢◌, inl, inr, refl, arith, ◌==◌, Bool, false, none, some, Option-cases, Bool-cases,
}
use aether_client_cpp.Tasks.Links.{
  unset, cancelled, linked, Links, set_active, set_ptr, create, reset, point, assign,
  move_construct, move_assign, destroy,
}

-- Whether a subscription points to a place, and whether the task there points back.
abbrev pub points : Links → ℕ → ℕ → Bool
points w s p = elim (w.ptr s) [ none ↦ false | some q ↦ q == p ]

abbrev pub linked_to : Links → ℕ → ℕ → Bool
linked_to w p s = elim (w.active p) [
  | none ↦ false
  | some a ↦ elim a [ unset ↦ false | cancelled ↦ false | linked r ↦ r == s ]
]

abbrev pub IsLinked : Links → Type 0
IsLinked w = (s p : ℕ) → points w s p ≡ linked_to w p s

create-IsLinked : (w : Links) (p : ℕ) → w.active p ≡ none → IsLinked w → IsLinked (create w p)
unfolding create
create-IsLinked w p free h s q = ground (arith, free, h s q)

reset-IsLinked : (w : Links) (r : ℕ) → IsLinked w → IsLinked (reset w r)
unfolding reset set_ptr set_active
reset-IsLinked w r h s q = elim (Option-cases (w.ptr r)) [
  | inl nothing ↦ rw (nothing, reset) (h s q)
  | inr (p, at) ↦ ground (arith, at, h s q, h r p, h r q, h s p)
]

destroy-IsLinked : (w : Links) (p : ℕ) → IsLinked w → IsLinked (destroy w p)
unfolding destroy
destroy-IsLinked w p h s q = elim (Option-cases (w.active p)) [
  | inl nothing ↦ rw (nothing, destroy) (h s q)
  | inr (unset, at) ↦ ground (arith, at, h s q, h s p)
  | inr (cancelled, at) ↦ ground (arith, at, h s q, h s p)
  | inr (linked r, at) ↦ ground (arith, at, h s q, h s p, h r p, h r q)
]

-- A subscription that holds nothing, and a task that no subscription has.
point-IsLinked :
    (w : Links) (r : ℕ) (p : ℕ)
    → w.ptr r ≡ none
    → w.active p ≡ some unset
    → IsLinked w
    → IsLinked (point w r (some p))
unfolding point set_ptr set_active
point-IsLinked w r p free fresh h s q = ground (arith, free, fresh, h s q, h r q, h s p, h r p)

point-IsLinked-none : (w : Links) (r : ℕ) → w.ptr r ≡ none → IsLinked w → IsLinked (point w r none)
unfolding point set_ptr
point-IsLinked-none w r free h s q = ground (arith, free, h s q, h r q)

ptr-reset : (w : Links) (r : ℕ) → (reset w r).ptr r ≡ none
unfolding reset set_ptr set_active
ptr-reset w r = elim (Option-cases (w.ptr r)) [
  | inl nothing ↦ rw (nothing, reset) nothing
  | inr (p, at) ↦ ground (arith, at)
]

active-reset :
    (w : Links) (r p : ℕ) → IsLinked w → w.active p ≡ some unset → (reset w r).active p ≡ some unset
unfolding reset set_ptr set_active
active-reset w r p h fresh = elim (Option-cases (w.ptr r)) [
  | inl nothing ↦ rw (nothing, reset) fresh
  | inr (q, at) ↦ ground (arith, at, fresh, h r p)
]

assign-IsLinked :
    (w : Links) (r p : ℕ) → w.active p ≡ some unset → IsLinked w → IsLinked (assign w r (some p))
unfolding assign
assign-IsLinked w r p fresh h =
    point-IsLinked (reset w r) r p (ptr-reset w r) (active-reset w r p h fresh)
      (reset-IsLinked w r h)

assign-IsLinked-none : (w : Links) (r : ℕ) → IsLinked w → IsLinked (assign w r none)
unfolding assign
assign-IsLinked-none w r h =
    point-IsLinked-none (reset w r) r (ptr-reset w r) (reset-IsLinked w r h)

move_construct-IsLinked :
    (w : Links) (r other : ℕ)
    → w.ptr r ≡ none
    → r ≢ other
    → IsLinked w
    → IsLinked (move_construct w r other)
unfolding move_construct point set_ptr set_active
move_construct-IsLinked w r other free apart h s q = elim (Option-cases (w.ptr other)) [
  | inl nothing ↦
      rw (nothing, move_construct, point)
        (ground (arith, nothing, free, apart, h s q, h r q, h other q))
  | inr (p, at) ↦
      rw (at, move_construct, point)
        (ground (arith, at, free, apart, h s q, h r q, h other q, h s p, h r p, h other p))
]

ptr-reset_other : (w : Links) (r other : ℕ) → r ≢ other → (reset w r).ptr other ≡ w.ptr other
unfolding reset set_ptr set_active
ptr-reset_other w r other apart = elim (Option-cases (w.ptr r)) [
  | inl nothing ↦ rw (nothing, reset) refl
  | inr (p, at) ↦ ground (arith, at, apart)
]

move_assign-IsLinked : (w : Links) (r other : ℕ) → IsLinked w → IsLinked (move_assign w r other)
unfolding move_assign
move_assign-IsLinked w r other h = elim (Bool-cases (r == other)) [
  | inl same ↦ rw same h
  | inr apart ↦ rw apart (
      unfold move_construct in
      move_construct-IsLinked (reset w r) r other (ptr-reset w r) (ground arith)
        (reset-IsLinked w r h))
]

-- What can happen: a task is made where there is none, a subscription is made or assigned from a new
-- task or a failed one, is reset or moved, and a task is freed.
pub data Step : Links → Links → Type 0 where
  creates : (w : Links) (p : ℕ) → w.active p ≡ none → Step w (create w p)
  assigns : (w : Links) (s p : ℕ) → w.active p ≡ some unset → Step w (assign w s (some p))
  assigns_none : (w : Links) (s : ℕ) → Step w (assign w s none)
  resets : (w : Links) (s : ℕ) → Step w (reset w s)
  constructs :
      (w : Links) (s other : ℕ) → w.ptr s ≡ none → s ≢ other → Step w (move_construct w s other)
  moves : (w : Links) (s other : ℕ) → Step w (move_assign w s other)
  destroys : (w : Links) (p : ℕ) → Step w (destroy w p)

pub data Reach (w : Links) : Links → Type 0 where
  here : Reach w w
  next : {v u : Links} → Reach w v → Step v u → Reach w u

Step-IsLinked : {w v : Links} → Step w v → IsLinked w → IsLinked v
Step-IsLinked (creates w p free) h = create-IsLinked w p free h
Step-IsLinked (assigns w s p fresh) h = assign-IsLinked w s p fresh h
Step-IsLinked (assigns_none w s) h = assign-IsLinked-none w s h
Step-IsLinked (resets w s) h = reset-IsLinked w s h
Step-IsLinked (constructs w s other free apart) h = move_construct-IsLinked w s other free apart h
Step-IsLinked (moves w s other) h = move_assign-IsLinked w s other h
Step-IsLinked (destroys w p) h = destroy-IsLinked w p h

Reach-IsLinked : {w v : Links} → Reach w v → IsLinked w → IsLinked v
Reach-IsLinked here h = h
Reach-IsLinked (next r st) h = Step-IsLinked st (Reach-IsLinked r h)

-- No task and no subscription.
abbrev pub no_links : Links
no_links = record { active = λ p. none; ptr = λ s. none }

-- However tasks are made (where there is none) and freed, and subscriptions made, assigned, reset
-- and moved, if a subscription is only ever made from or assigned a task that has none, and is
-- moved into a new one only from another: a subscription points to a place just when there is a
-- task there that points back to it.
pub points-linked_to : {w : Links} (s p : ℕ) → Reach no_links w → points w s p ≡ linked_to w p s
points-linked_to s p r = Reach-IsLinked r (λ s p. refl) s p
