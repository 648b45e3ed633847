-- ===== src/Tasks/Links.antt =====
-- aether/tasks/details/task_subsctiption.h and task.h: a subscription points to a task, whose
-- `active` points back to it. Both are in stores by address; what has no task is none in `active`.
pub mod Safe
use aether_client_cpp.Prelude.{ℕ, ◌==◌, Bool, true, false, not, if◌then◌else◌, Option, none, some}

-- `IActive::active`: kMagic, 0, or the address of a subscription.
pub data Active : Type 0 where
  unset cancelled : Active
  linked : ℕ → Active

pub record Links : Type 0 where
  pub active : ℕ → Option Active
  pub ptr : ℕ → Option ℕ

abbrev pub update {ℓ} : {A : Type ℓ} → (ℕ → A) → ℕ → A → ℕ → A
update f k v j = if j == k then v else f j

-- A write to `active` through a pointer; where there is no task, nothing is modelled of it.
unfoldable pub set_active : Links → ℕ → Active → Links
set_active w p a = elim (w.active p) [
  | none ↦ w
  | some old ↦ record w { active = update w.active p (some a) }
]

unfoldable pub set_ptr : Links → ℕ → Option ℕ → Links
set_ptr w s p = record w { ptr = update w.ptr s p }

-- A task is made at a place of the pool.
unfoldable pub create : Links → ℕ → Links
create w p = record w { active = update w.active p (some unset) }

-- `Reset`, and the destructor.
unfoldable pub reset : Links → ℕ → Links
reset w s = elim (w.ptr s) [ none ↦ w | some p ↦ set_ptr (set_active w p cancelled) s none ]

-- The constructor and the assignment from a pointer, where the subscription holds none.
unfoldable pub point : Links → ℕ → Option ℕ → Links
point w s p = elim p [
  | none ↦ set_ptr w s none
  | some q ↦ set_active (set_ptr w s (some q)) q (linked s)
]

unfoldable pub assign : Links → ℕ → Option ℕ → Links
assign w s p = point (reset w s) s p

-- The constructor that moves from `other`.
unfoldable pub move_construct : Links → ℕ → ℕ → Links
move_construct w s other = point (set_ptr w other none) s (w.ptr other)

unfoldable pub move_assign : Links → ℕ → ℕ → Links
move_assign w s other =
    if s == other then w else let w1 = reset w s in point (set_ptr w1 other none) s (w1.ptr other)

-- `~IActive`, and the place is free.
unfoldable pub destroy : Links → ℕ → Links
destroy w p = elim (w.active p) [
  | none ↦ w
  | some a ↦ elim a [
    | unset ↦ record w { active = update w.active p none }
    | cancelled ↦ record w { active = update w.active p none }
    | linked s ↦ record w { active = update w.active p none; ptr = update w.ptr s none }
  ]
]

-- `operator bool`
unfoldable pub is_set : Links → ℕ → Bool
is_set w s = elim (w.ptr s) [
  | none ↦ false
  | some p ↦ elim (w.active p) [
    | none ↦ false
    | some a ↦ elim a [ unset ↦ true | cancelled ↦ false | linked r ↦ true ]
  ]
]
