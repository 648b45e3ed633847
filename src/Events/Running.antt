-- ===== src/Events/Running.antt =====
-- event_list.cpp: iterators stay within the list, and a handler that was removed is not invoked.
use aether_client_cpp.Prelude.{
  ℕ, zero, suc, ◌+◌, ◌-◌, ◌%◌, ◌^◌, ◌≤◌, ◌<◌, ◌≡◌, ◌≢◌, refl, arith, sym, subst, ◌==◌, true, List,
  [], ◌∷◌, length, All, Option, none, some, length-append, inl, inr, Bool-cases,
}
use aether_client_cpp.Events.{
  Handler, HandlerCall, add_handler, remove_handler, emit_again, Emission, HandlersList, init,
  insert, set_dead, remove, clean_up, Found, past_end, at_size, at_handler, seek, from_index,
  end_emission, arrive, emit, do_call, advance, step,
}

-- Each iterator stands before the end of the list as it was when the emission began.
abbrev IsWithin : ℕ → List Emission → Type 0
IsWithin n es = All (λ e. (e.index ≤ e.size) × (e.size ≤ n)) es

record IsWell (s : HandlersList) : Type 0 where
  counted : s.use_counter ≡ length s.emissions % 2 ^ 16
  within : IsWithin (length s.handlers) s.emissions

-- There is a next state, and that is well-formed.
abbrev Runs : Option HandlersList → Type 0
Runs none = zero ≡ 1
Runs (some s) = IsWell s

IsWithin-more : (m n : ℕ) (es : List Emission) → m ≤ n → IsWithin m es → IsWithin n es
IsWithin-more m n [] h w = tt
IsWithin-more m n (e ∷ es) h w = (ground (arith, h, w.0), IsWithin-more m n es h w.1)

length-set_dead : (key : ℕ) (hs : List Handler) → length (set_dead key hs) ≡ length hs
unfolding set_dead
length-set_dead key [] = refl
length-set_dead key (h ∷ hs) = omega (arith, length-set_dead key hs)

length-from_index : (n : ℕ) (hs : List Handler) → length (from_index n hs) ≡ length hs - n
unfolding from_index
length-from_index zero hs = omega arith
length-from_index (suc n) [] = omega arith
length-from_index (suc n) (h ∷ hs) = omega (arith, length-from_index n hs)

-- What `seek` finds is in the list, before `size`, and alive.
abbrev Lands : ℕ → Found → Type 0
Lands size past_end = zero ≡ 1
Lands size at_size = Unit
Lands size (at_handler index h) = (index < size) × (h.is_alive ≡ true)

seek-Lands :
    (hs : List Handler) (index size : ℕ)
    → index ≤ size
    → size ≤ index + length hs
    → Lands size (seek hs index size)
unfolding seek
seek-Lands [] index size low high = elim (Bool-cases (index == size)) [
  | inl end ↦ rw end tt
  | inr more ↦ absurd (ground (arith, low, high, more))
]
seek-Lands (h ∷ hs) index size low high = elim (Bool-cases (index == size)) [
  | inl end ↦ rw end tt
  | inr more ↦ elim (Bool-cases h.is_alive) [
    | inl alive ↦ rw (more, alive) (ground (arith, low, more), refl)
    | inr dead ↦
        rw (more, dead)
          (seek-Lands hs (suc index) size (ground (arith, low, more)) (omega (arith, high)))
  ]
]

module _ (effects : ℕ → List HandlerCall) where
  arrive-Runs :
      (s : HandlersList) (size : ℕ) (rest : List Emission) (f : Found)
      → Lands size f
      → size ≤ length s.handlers
      → s.use_counter ≡ suc (length rest) % 2 ^ 16
      → IsWithin (length s.handlers) rest
      → Runs (arrive effects s size rest f)
  unfolding arrive
  arrive-Runs s size rest past_end l fits c w = l
  arrive-Runs s size rest at_size l fits c w = record {
    counted = c;
    within = ((omega arith, fits), w);
  }
  arrive-Runs s size rest (at_handler index h) l fits c w = record {
    counted = c;
    within = ((omega (arith, l.0), fits), w);
  }

  emit-Runs : {s : HandlersList} → IsWell s → Runs (emit effects s)
  unfolding emit
  emit-Runs {s} i =
      let size = length s.handlers % 2 ^ 16 in
      let fits : size ≤ length s.handlers = omega arith in
      arrive-Runs (record s { use_counter = (s.use_counter + 1) % 2 ^ 16 }) size s.emissions
        (seek s.handlers 0 size) (seek-Lands s.handlers 0 size (omega arith) (omega (arith, fits)))
        fits (omega (arith, i.counted)) i.within

  insert-IsWell : {s : HandlersList} (callback : ℕ) → IsWell s → IsWell (insert s callback)
  unfolding insert
  insert-IsWell {s} callback i = record {
    counted = i.counted;
    within =
        IsWithin-more (length s.handlers) _ s.emissions
          (omega (
            arith,
            length-append s.handlers
                (record { key = s.next_key; callback = callback; is_alive = true } ∷ []),
          ))
          i.within;
  }

  remove-IsWell : {s : HandlersList} (key : ℕ) → IsWell s → IsWell (remove s key)
  unfolding remove
  remove-IsWell {s} key i = record {
    counted = i.counted;
    within = subst (λ n. IsWithin n s.emissions) (sym (length-set_dead key s.handlers)) i.within;
  }

  do_call-Runs : (s : HandlersList) (c : HandlerCall) → IsWell s → Runs (do_call effects s c)
  unfolding do_call
  do_call-Runs s (add_handler callback) i = insert-IsWell callback i
  do_call-Runs s (remove_handler key) i = remove-IsWell key i
  do_call-Runs s emit_again i = emit-Runs i

  end_emission-IsWell :
      (s : HandlersList) (rest : List Emission)
      → s.use_counter ≡ suc (length rest) % 2 ^ 16
      → length rest < 2 ^ 16
      → IsWithin (length s.handlers) rest
      → IsWell (end_emission s rest)
  unfolding end_emission clean_up
  end_emission-IsWell s rest c few w = elim (Bool-cases (left == 0)) [
    | inl last ↦ rw last (record {
      counted = omega (arith, c);
      within = none_left _ rest (ground (arith, c, few, last));
    })
    | inr more ↦ rw more (record { counted = omega (arith, c); within = w })
  ]
    where
      left : ℕ
      left = (s.use_counter + (2 ^ 16 - 1)) % 2 ^ 16

      none_left : (n : ℕ) (es : List Emission) → length es ≡ 0 → IsWithin n es
      none_left n [] h = tt
      none_left n (e ∷ es) h = absurd (omega (arith, h))

  advance-Runs :
      (s : HandlersList) (e : Emission) (rest : List Emission) (cs : List HandlerCall)
      → s.use_counter ≡ suc (length rest) % 2 ^ 16
      → length rest < 2 ^ 16
      → IsWithin (length s.handlers) (e ∷ rest)
      → Runs (advance effects s e rest cs)
  unfolding advance
  advance-Runs s e rest (c ∷ cs) h few w =
      do_call-Runs (record s { emissions = record e { pending = cs } ∷ rest }) c
        (record { counted = h; within = w })
  advance-Runs s e rest [] h few w = elim (Bool-cases (e.index == e.size)) [
    | inl end ↦ rw end (end_emission-IsWell s rest h few w.1)
    | inr more ↦ rw more (
        arrive-Runs s e.size rest (seek (from_index (suc e.index) s.handlers) (suc e.index) e.size)
          (seek-Lands (from_index (suc e.index) s.handlers) (suc e.index) e.size
            (ground (arith, w.0, more))
            (omega (arith, w.0, length-from_index (suc e.index) s.handlers)))
          w.0.1 h w.1)
  ]

  step-Runs : {s : HandlersList} → length s.emissions ≤ 2 ^ 16 → IsWell s → Runs (step effects s)
  unfolding step
  step-Runs {s} few i = at_emission s.emissions i.counted few i.within
    where
      at_emission :
          (es : List Emission)
          → s.use_counter ≡ length es % 2 ^ 16
          → length es ≤ 2 ^ 16
          → IsWithin (length s.handlers) es
          → Runs (elim es [ [] ↦ some s | e ∷ rest ↦ advance effects s e rest e.pending ])
      at_emission [] c f w = i
      at_emission (e ∷ rest) c f w = advance-Runs s e rest e.pending c (omega (arith, f)) w

-- What can happen to a list of handlers, within an emission or outside.
pub data Step (effects : ℕ → List HandlerCall) : HandlersList → HandlersList → Type 0 where
  adds : (s : HandlersList) (callback : ℕ) → Step effects s (insert s callback)
  removes : (s : HandlersList) (key : ℕ) → Step effects s (remove s key)
  emits : (s : HandlersList) {s' : HandlersList} → emit effects s ≡ some s' → Step effects s s'
  steps : (s : HandlersList) {s' : HandlersList} → step effects s ≡ some s' → Step effects s s'

pub data Reach (effects : ℕ → List HandlerCall) (s : HandlersList) : HandlersList → Type 0 where
  here : Reach effects s s
  next : {t u : HandlersList} → Reach effects s t → Step effects t u → Reach effects s u

module _ {effects : ℕ → List HandlerCall} where
  -- At no time are 2 ^ 15 emissions or more under way, so that the counter does not overflow.
  abbrev pub IsShallow : {s t : HandlersList} → Reach effects s t → Type 0
  IsShallow {s} here = length s.emissions < 2 ^ 15
  IsShallow (next {u = u} r st) = (length u.emissions < 2 ^ 15) × IsShallow r

  few_emissions :
      {s t : HandlersList} (r : Reach effects s t) → IsShallow r → length t.emissions < 2 ^ 15
  few_emissions here h = h
  few_emissions (next r st) h = h.0

  Step-IsWell :
      {s s' : HandlersList} → Step effects s s' → length s.emissions < 2 ^ 15 → IsWell s → IsWell s'
  Step-IsWell (adds s callback) few i = insert-IsWell effects callback i
  Step-IsWell (removes s key) few i = remove-IsWell effects key i
  Step-IsWell (emits s e) few i = subst Runs e (emit-Runs effects i)
  Step-IsWell (steps s e) few i = subst Runs e (step-Runs effects (omega (arith, few)) i)

  Reach-IsWell : {s : HandlersList} (r : Reach effects init s) → IsShallow r → IsWell s
  Reach-IsWell here h = record { counted = omega arith; within = tt }
  Reach-IsWell (next r st) h = Step-IsWell st (few_emissions r h.1) (Reach-IsWell r h.1)

  -- However handlers are added and removed and emissions begin and go on within each other, as long
  -- as at no time 2 ^ 15 emissions or more are under way: an emission that goes on or begins never
  -- moves its iterator past the end of the list, and the use counter, of 16 bits, is the number of
  -- emissions under way.
  pub step_runs :
      {s : HandlersList} (r : Reach effects init s)
      → IsShallow r
      → (step effects s ≢ none) × (emit effects s ≢ none) × (s.use_counter ≡ length s.emissions)
  step_runs r h =
      let i = Reach-IsWell r h in
      let few = few_emissions r h in
      (
        runs _ (step-Runs effects (omega (arith, few)) i),
        runs _ (emit-Runs effects i),
        omega (arith, i.counted, few),
      )
    where
      runs : (o : Option HandlersList) → Runs o → o ≢ none
      runs none h e = absurd (omega (arith, h))
      runs (some s) h e = absurd (cc)
