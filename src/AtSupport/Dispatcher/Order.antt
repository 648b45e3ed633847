-- ===== src/AtSupport/Dispatcher/Order.antt =====
-- at_dispatcher.cpp: the order of the observers by their commands.
use aether_client_cpp.Prelude.{
  ℕ, ◌≡◌, refl, arith, true, false, if◌then◌else◌, List, [], ◌∷◌, ◌++◌, some, All, Bool-cases, inl,
  inr,
}
use aether_client_cpp.AtSupport.Dispatcher.{
  AtDispatcher, do_listen, is_less, is_same, Entry, insert_or_assign, observer_of, next_after,
  front,
}

is_less_irreflexive : (xs : List ℕ) → is_less xs xs ≡ false
unfolding is_less
is_less_irreflexive [] = refl
is_less_irreflexive (x ∷ xs) = ground (arith, is_less_irreflexive xs)

is_less_asymmetric : (xs ys : List ℕ) → is_less xs ys ≡ true → is_less ys xs ≡ false
unfolding is_less
is_less_asymmetric [] [] h = refl
is_less_asymmetric [] (y ∷ ys) h = refl
is_less_asymmetric (x ∷ xs) [] h = ground (arith, h)
is_less_asymmetric (x ∷ xs) (y ∷ ys) h = ground (arith, h, is_less_asymmetric xs ys)

is_less_trans :
    (xs ys zs : List ℕ) → is_less xs ys ≡ true → is_less ys zs ≡ true → is_less xs zs ≡ true
unfolding is_less
is_less_trans [] [] zs h k = ground (arith, h)
is_less_trans [] (y ∷ ys) [] h k = ground (arith, k)
is_less_trans [] (y ∷ ys) (z ∷ zs) h k = refl
is_less_trans (x ∷ xs) [] zs h k = ground (arith, h)
is_less_trans (x ∷ xs) (y ∷ ys) [] h k = ground (arith, k)
is_less_trans (x ∷ xs) (y ∷ ys) (z ∷ zs) h k = ground (arith, h, k, is_less_trans xs ys zs)

-- One that is neither the same nor less is greater.
is_less_total :
    (xs ys : List ℕ) → is_same xs ys ≡ false → is_less xs ys ≡ false → is_less ys xs ≡ true
unfolding is_less is_same
is_less_total [] [] h k = ground (arith, h)
is_less_total [] (y ∷ ys) h k = ground (arith, k)
is_less_total (x ∷ xs) [] h k = refl
is_less_total (x ∷ xs) (y ∷ ys) h k = ground (arith, h, k, is_less_total xs ys)

pub is_same_refl : (xs : List ℕ) → is_same xs xs ≡ true
unfolding is_same
is_same_refl [] = refl
is_same_refl (x ∷ xs) = ground (arith, is_same_refl xs)

is_same-less : (xs ys : List ℕ) → is_less xs ys ≡ true → is_same ys xs ≡ false
unfolding is_less is_same
is_same-less [] [] h = ground (arith, h)
is_same-less [] (y ∷ ys) h = refl
is_same-less (x ∷ xs) [] h = ground (arith, h)
is_same-less (x ∷ xs) (y ∷ ys) h = ground (arith, h, is_same-less xs ys)

is_same→≡ : (xs ys : List ℕ) → is_same xs ys ≡ true → xs ≡ ys
unfolding is_same
is_same→≡ [] [] h = refl
is_same→≡ [] (y ∷ ys) h = ground (arith, h)
is_same→≡ (x ∷ xs) [] h = ground (arith, h)
is_same→≡ (x ∷ xs) (y ∷ ys) h = ground (arith, h, is_same→≡ xs ys)

-- A command comes before all of some elements.
abbrev pub IsBefore : List ℕ → List Entry → Type 0
IsBefore c es = All (λ f. is_less c f.command ≡ true) es

abbrev pub IsSorted : List Entry → Type 0
IsSorted [] = Unit
IsSorted (e ∷ es) = IsBefore e.command es × IsSorted es

IsBefore-is_less :
    (c c' : List ℕ) (es : List Entry) → is_less c c' ≡ true → IsBefore c' es → IsBefore c es
IsBefore-is_less c c' [] h b = tt
IsBefore-is_less c c' (e ∷ es) h b =
    (is_less_trans c c' e.command h b.0, IsBefore-is_less c c' es h b.1)

IsBefore-at :
    (c : List ℕ) (ps : List Entry) (e : Entry) (es : List Entry)
    → IsBefore c (ps ++ e ∷ es)
    → is_less c e.command ≡ true
IsBefore-at c [] e es a = a.0
IsBefore-at c (p ∷ ps) e es a = IsBefore-at c ps e es a.1

pub next_after_lem :
    (ps : List Entry) (e : Entry) (es : List Entry)
    → IsSorted (ps ++ e ∷ es)
    → next_after e.command (ps ++ e ∷ es) ≡ front es
next_after_lem [] e [] s = ground (arith, is_less_irreflexive e.command)
next_after_lem [] e (f ∷ es) s = ground (arith, is_less_irreflexive e.command, s.0.0)
next_after_lem (p ∷ ps) e es s =
    let after = is_less_asymmetric p.command e.command (IsBefore-at p.command ps e es s.0) in
    rw after (next_after_lem ps e es s.1)

pub observer_of_lem :
    (ps : List Entry) (e : Entry) (es : List Entry)
    → IsSorted (ps ++ e ∷ es)
    → observer_of e.command (ps ++ e ∷ es) ≡ e.observer
unfolding observer_of
observer_of_lem [] e es s = ground (arith, is_same_refl e.command)
observer_of_lem (p ∷ ps) e es s =
    let differs = is_same-less p.command e.command (IsBefore-at p.command ps e es s.0) in
    rw differs (observer_of_lem ps e es s.1)

insert-IsBefore :
    (b c : List ℕ) (o : ℕ) (es : List Entry)
    → is_less b c ≡ true
    → IsBefore b es
    → IsBefore b (insert_or_assign c o es)
unfolding insert_or_assign
insert-IsBefore b c o [] h s = (h, tt)
insert-IsBefore b c o (e ∷ es) h s = ground (arith, h, s.0, s.1, insert-IsBefore b c o es h s.1)

insert-IsSorted :
    (c : List ℕ) (o : ℕ) (es : List Entry) → IsSorted es → IsSorted (insert_or_assign c o es)
unfolding insert_or_assign
insert-IsSorted c o [] s = (tt, tt)
insert-IsSorted c o (e ∷ es) s = elim (Bool-cases (is_same c e.command)) [
  | inl same ↦ rw same s
  | inr other ↦ elim (Bool-cases (is_less c e.command)) [
    | inl less ↦ rw (other, less) (((less, IsBefore-is_less c e.command es less s.0), s))
    | inr greater ↦
        rw (other, greater)
          ((
            insert-IsBefore e.command c o es (is_less_total c e.command other greater) s.0,
            insert-IsSorted c o es s.1,
          ))
  ]
]

observer_of-insert :
    (c : List ℕ) (o : ℕ) (es : List Entry) → observer_of c (insert_or_assign c o es) ≡ some o
unfolding insert_or_assign observer_of
observer_of-insert c o [] = ground (arith, is_same_refl c)
observer_of-insert c o (e ∷ es) = ground (arith, is_same_refl c, observer_of-insert c o es)

observer_of-insert_other :
    (c b : List ℕ) (o : ℕ) (es : List Entry)
    → is_same b c ≡ false
    → observer_of b (insert_or_assign c o es) ≡ observer_of b es
unfolding insert_or_assign observer_of
observer_of-insert_other c b o [] h = ground (arith, h)
observer_of-insert_other c b o (e ∷ es) h = elim (Bool-cases (is_same c e.command)) [
  | inl same ↦ rw (same, ← is_same→≡ c e.command same, h) refl
  | inr other ↦ ground (arith, other, h, observer_of-insert_other c b o es h)
]

-- When the observers are in the order of their commands they still are after `Listen`; its observer
-- is then the only one of its command, and each other command keeps the observer that it had.
pub do_listen_lem :
    (d : AtDispatcher) (c b : List ℕ) (o : ℕ)
    → IsSorted d.observers
    → let d1 = do_listen d c o in
      IsSorted d1.observers
      × (observer_of b d1.observers ≡ (if is_same b c then some o else observer_of b d.observers))
unfolding do_listen
do_listen_lem d c b o s = (
  insert-IsSorted c o d.observers s,
  elim (Bool-cases (is_same b c)) [
    | inl same ↦ rw (same, is_same→≡ b c same) (observer_of-insert c o d.observers)
    | inr other ↦ rw other (observer_of-insert_other c b o d.observers other)
  ],
)
