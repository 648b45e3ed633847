-- ===== src/Tasks/Queues/Order.antt =====
-- task_queues.h: the delayed queue stays in the order of the times, and gives out what is due.
use aether_client_cpp.Prelude.{
  ℕ, ◌+◌, ◌-◌, ◌≤◌, ◌<◌, ◌≡◌, refl, arith, ap, sym, ◌∙◌, ltb, leb, ◌==◌, not, subst, ℕ_discrete,
  dec_lt, Bool, true, if◌then◌else◌, List, [], ◌∷◌, ◌++◌, length, take, drop, All, erase_if,
  append-nil, length-append, take-append_left, drop-append_left,
}
use aether_client_cpp.Tasks.Queues.{Task, base_of, add_delayed, scan_step, scan_back, steal_delayed}

-- Latest first.
abbrev pub IsOrdered : List Task → Type 0
IsOrdered [] = Unit
IsOrdered (x ∷ xs) = All (λ y. y.expire_at ≤ x.expire_at) xs × IsOrdered xs

abbrev pub is_due : ℕ → Task → Bool
is_due t e = leb e.expire_at t

-- The tasks that are due at a time, and those that are later, each in the queue's order.
abbrev pub due : ℕ → List Task → List Task
due t l = erase_if (λ e. not (is_due t e)) l

abbrev pub later : ℕ → List Task → List Task
later t l = erase_if (is_due t) l

All-due :
    (t m : ℕ) (l : List Task)
    → m ≤ t
    → All (λ y. y.expire_at ≤ m) l
    → (later t l ≡ []) × (due t l ≡ l)
All-due t m [] h a = (refl, refl)
All-due t m (x ∷ xs) h a = ground (arith, All-due t m xs h a.1)

-- An ordered queue is what is later, and then what is due.
pub split : (t : ℕ) (l : List Task) → IsOrdered l → later t l ++ due t l ≡ l
split t [] o = refl
split t (x ∷ xs) o = ground (arith, All-due t x.expire_at xs, split t xs)

base_of_lem :
    (p : Task) (l : List Task)
    → IsOrdered l
    → base_of (λ e. ltb p.expire_at e.expire_at) l ≡ length (later p.expire_at l)
unfolding base_of
base_of_lem p [] o = refl
base_of_lem p (x ∷ xs) o = ground (arith, All-due p.expire_at x.expire_at xs, base_of_lem p xs)

pub add_delayed_lem :
    (capacity : ℕ) (l : List Task) (p : Task)
    → IsOrdered l
    → length l < capacity
    → add_delayed capacity l p ≡ (later p.expire_at l ++ p ∷ due p.expire_at l, true)
unfolding add_delayed
add_delayed_lem capacity l p o h =
    let i : base_of (λ e. ltb p.expire_at e.expire_at) l ≡ length (later p.expire_at l) =
      base_of_lem p l o in
    let front : take (length (later p.expire_at l)) l ≡ later p.expire_at l =
      ap (take (length (later p.expire_at l))) (sym (split p.expire_at l o))
      ∙ take-append_left (later p.expire_at l) (due p.expire_at l) in
    let back : drop (length (later p.expire_at l)) l ≡ due p.expire_at l =
      ap (drop (length (later p.expire_at l))) (sym (split p.expire_at l o))
      ∙ drop-append_left (later p.expire_at l) (due p.expire_at l) in
    ground (arith, i, front, back)

scan_back_lem :
    (t max : ℕ) (l : List Task)
    → IsOrdered l
    → length l ≤ max
    → scan_back t max l ≡ record {
      passed = length (due t l);
      count = length (due t l);
      runs = length (later t l) == 0;
    }
unfolding scan_back scan_step
scan_back_lem t max [] o h = refl
scan_back_lem t max (x ∷ xs) o h =
    ground (arith, All-due t x.expire_at xs, scan_back_lem t max xs, length_parts t xs)
  where
    length_parts : (t : ℕ) (l : List Task) → length (due t l) ≤ length l
    length_parts t [] = omega arith
    length_parts t (y ∷ ys) = ground (arith, length_parts t ys)

pub steal_delayed_lem :
    (t max : ℕ) (l to : List Task)
    → IsOrdered l
    → length l ≤ max
    → steal_delayed t max l to ≡ (to ++ due t l, later t l)
unfolding steal_delayed
steal_delayed_lem t max l to o h =
    let size : length l ≡ length (later t l) + length (due t l) =
      ap length (sym (split t l o)) ∙ length-append (later t l) (due t l) in
    let start : length l - length (due t l) ≡ length (later t l) = omega (arith, size) in
    let front : take (length (later t l)) l ≡ later t l =
      ap (take (length (later t l))) (sym (split t l o)) ∙ take-append_left (later t l) (due t l) in
    let back : drop (length (later t l)) l ≡ due t l =
      ap (drop (length (later t l))) (sym (split t l o)) ∙ drop-append_left (later t l) (due t l) in
    rw (scan_back_lem t max l o h) (elim (ℕ_discrete (length (due t l)) 0) [
      | no some_due ↦ rw (start, front, back) (ground (arith, some_due))
      | yes none_due ↦ ground (
        arith,
        none_due,
        nothing (due t l) none_due,
        append-nil to,
        append-nil (later t l),
        split t l o,
      )
    ])
  where
    nothing : (xs : List Task) → length xs ≡ 0 → xs ≡ []
    nothing [] e = refl
    nothing (x ∷ xs) e = absurd (omega (arith, e))

-- What a new task is put in front of.
placed : Task → List Task → List Task
placed p [] = p ∷ []
placed p (x ∷ xs) = if is_due p.expire_at x then p ∷ x ∷ xs else x ∷ placed p xs

placed_lem :
    (p : Task) (l : List Task)
    → IsOrdered l
    → later p.expire_at l ++ p ∷ due p.expire_at l ≡ placed p l
unfolding placed
placed_lem p [] o = refl
placed_lem p (x ∷ xs) o = ground (arith, All-due p.expire_at x.expire_at xs, placed_lem p xs)

All-le :
    (m n : ℕ) (l : List Task) → m ≤ n → All (λ y. y.expire_at ≤ m) l → All (λ y. y.expire_at ≤ n) l
All-le m n [] h a = tt
All-le m n (x ∷ xs) h a = (omega arith, All-le m n xs h a.1)

All-placed :
    (m : ℕ) (p : Task) (l : List Task)
    → p.expire_at ≤ m
    → All (λ y. y.expire_at ≤ m) l
    → All (λ y. y.expire_at ≤ m) (placed p l)
unfolding placed
All-placed m p [] h a = (h, tt)
All-placed m p (x ∷ xs) h a = ground (arith, All-placed m p xs)

placed-IsOrdered : (p : Task) (l : List Task) → IsOrdered l → IsOrdered (placed p l)
unfolding placed
placed-IsOrdered p [] o = (tt, tt)
placed-IsOrdered p (x ∷ xs) o =
    ground
      (arith, All-le x.expire_at p.expire_at xs, All-placed x.expire_at p xs, placed-IsOrdered p xs)

-- `Add` to a queue of delayed tasks in order of their times, latest first, and within its capacity,
-- keeps that order, whether there is room or not.
pub add_delayed-IsOrdered :
    (capacity : ℕ) (l : List Task) (p : Task)
    → IsOrdered l
    → length l ≤ capacity
    → IsOrdered (add_delayed capacity l p).0
unfolding add_delayed
add_delayed-IsOrdered capacity l p o h = elim (dec_lt (length l) capacity) [
  | yes room ↦
      subst IsOrdered (sym (ap (λ r. r.0) (add_delayed_lem capacity l p o room) ∙ placed_lem p l o))
        (placed-IsOrdered p l o)
  | no full ↦ ground arith
]

All-later :
    (m t : ℕ) (l : List Task)
    → All (λ y. y.expire_at ≤ m) l
    → All (λ y. y.expire_at ≤ m) (later t l)
All-later m t [] a = tt
All-later m t (x ∷ xs) a = ground (arith, All-later m t xs)

later-IsOrdered : (t : ℕ) (l : List Task) → IsOrdered l → IsOrdered (later t l)
later-IsOrdered t [] o = tt
later-IsOrdered t (x ∷ xs) o = ground (arith, All-later x.expire_at t xs, later-IsOrdered t xs)

pub steal_delayed-IsOrdered :
    (t max : ℕ) (l to : List Task)
    → IsOrdered l
    → length l ≤ max
    → IsOrdered (steal_delayed t max l to).1
steal_delayed-IsOrdered t max l to o h =
    subst IsOrdered (sym (ap (λ r. r.1) (steal_delayed_lem t max l to o h))) (later-IsOrdered t l o)
