-- ===== src/Events/Removed.antt =====
-- event_list.cpp: a handler that was removed is never invoked again.
use aether_client_cpp.Prelude.{
  ℕ, zero, suc, ◌+◌, ◌-◌, ◌%◌, ◌^◌, ◌<◌, ◌≡◌, refl, arith, ◌∙◌, subst, ◌==◌, ◌&&◌, Bool, true,
  false, if◌then◌else◌, List, [], ◌∷◌, ◌++◌, length, Option, none, some, count, count-append, inl,
  inr, Bool-cases,
}
use aether_client_cpp.Events.{
  Handler, HandlerCall, add_handler, remove_handler, emit_again, Emission, HandlersList, insert,
  set_dead, remove, live_part, erase_tail, clean_up, Found, past_end, at_size, at_handler, seek,
  from_index, end_emission, arrive, emit, do_call, advance, step,
}
use aether_client_cpp.Events.Running
use aether_client_cpp.Events.Running.{Step, Reach}

-- Whether a handler of a key is alive.
abbrev lives : ℕ → List Handler → Bool
lives key [] = false
lives key (h ∷ hs) = if h.key == key && h.is_alive then true else lives key hs

-- The key was given out, and no handler with it is alive, while the log has it `n` times.
record IsGone (key n : ℕ) (s : HandlersList) : Type 0 where
  given : key < s.next_key
  dead : lives key s.handlers ≡ false
  silent : count key s.log ≡ n

-- That of the next state, if there is one.
abbrev StaysGone : ℕ → ℕ → Option HandlersList → Type 0
StaysGone key n none = Unit
StaysGone key n (some s) = IsGone key n s

lives-append-one :
    (key : ℕ) (hs : List Handler) (h : Handler)
    → (h.key == key) ≡ false
    → lives key (hs ++ h ∷ []) ≡ lives key hs
lives-append-one key [] h d = ground (arith, d)
lives-append-one key (x ∷ xs) h d = ground (arith, lives-append-one key xs h d)

lives-set_dead :
    (key other : ℕ) (hs : List Handler)
    → lives key hs ≡ false
    → lives key (set_dead other hs) ≡ false
unfolding set_dead
lives-set_dead key other [] d = refl
lives-set_dead key other (h ∷ hs) d = ground (arith, d, lives-set_dead key other hs)

lives-set_dead_self : (key : ℕ) (hs : List Handler) → lives key (set_dead key hs) ≡ false
unfolding set_dead
lives-set_dead_self key [] = refl
lives-set_dead_self key (h ∷ hs) = ground (arith, lives-set_dead_self key hs)

lives-live_part : (key : ℕ) (hs : List Handler) → lives key (live_part hs) ≡ lives key hs
unfolding live_part
lives-live_part key [] = refl
lives-live_part key (h ∷ hs) = kept (live_part hs) (lives-live_part key hs)
  where
    kept :
        (rest : List Handler)
        → lives key rest ≡ lives key hs
        → lives key (elim rest [ [] ↦ if h.is_alive then h ∷ [] else [] | r ∷ rs ↦ h ∷ r ∷ rs ])
          ≡ lives key (h ∷ hs)
    kept [] e = ground (arith, e)
    kept (r ∷ rs) e = ground (arith, e)

lives-erase_tail : (key : ℕ) (hs : List Handler) → lives key (erase_tail hs) ≡ lives key hs
unfolding erase_tail
lives-erase_tail key hs = kept (live_part hs) (lives-live_part key hs)
  where
    kept :
        (rest : List Handler)
        → lives key rest ≡ lives key hs
        → lives key (elim rest [ [] ↦ hs | r ∷ rs ↦ r ∷ rs ]) ≡ lives key hs
    kept [] e = refl
    kept (r ∷ rs) e = e

-- A handler that `seek` finds has another key.
abbrev IsOther : ℕ → Found → Type 0
IsOther key past_end = Unit
IsOther key at_size = Unit
IsOther key (at_handler index h) = (h.key == key) ≡ false

seek-IsOther :
    (key : ℕ) (hs : List Handler) (index size : ℕ)
    → lives key hs ≡ false
    → IsOther key (seek hs index size)
unfolding seek
seek-IsOther key [] index size d = elim (Bool-cases (index == size)) [
  | inl end ↦ rw end tt
  | inr more ↦ rw more tt
]
seek-IsOther key (h ∷ hs) index size d = elim (Bool-cases (index == size)) [
  | inl end ↦ rw end tt
  | inr more ↦ elim (Bool-cases h.is_alive) [
    | inl alive ↦ rw (more, alive) (ground (arith, d, alive))
    | inr asleep ↦ rw (more, asleep) (seek-IsOther key hs (suc index) size (ground (arith, d)))
  ]
]

lives-from_index :
    (key n : ℕ) (hs : List Handler) → lives key hs ≡ false → lives key (from_index n hs) ≡ false
unfolding from_index
lives-from_index key zero hs d = d
lives-from_index key (suc n) [] d = refl
lives-from_index key (suc n) (h ∷ hs) d = lives-from_index key n hs (ground (arith, d))

module _ (effects : ℕ → List HandlerCall) {key n : ℕ} where
  arrive-IsGone :
      (s : HandlersList) (size : ℕ) (rest : List Emission) (f : Found)
      → IsOther key f
      → IsGone key n s
      → StaysGone key n (arrive effects s size rest f)
  unfolding arrive count
  arrive-IsGone s size rest past_end o g = tt
  arrive-IsGone s size rest at_size o g = record {
    given = g.given;
    dead = g.dead;
    silent = g.silent;
  }
  arrive-IsGone s size rest (at_handler index h) o g = record {
    given = g.given;
    dead = g.dead;
    silent = ground (arith, o, g.silent, count-append key s.log (h.key ∷ []));
  }

  emit-IsGone : {s : HandlersList} → IsGone key n s → StaysGone key n (emit effects s)
  unfolding emit
  emit-IsGone {s} g =
      arrive-IsGone (record s { use_counter = (s.use_counter + 1) % 2 ^ 16 })
        (length s.handlers % 2 ^ 16) s.emissions (seek s.handlers 0 (length s.handlers % 2 ^ 16))
        (seek-IsOther key s.handlers 0 (length s.handlers % 2 ^ 16) g.dead)
        (record { given = g.given; dead = g.dead; silent = g.silent })

  insert-IsGone :
      {s : HandlersList} (callback : ℕ) → IsGone key n s → IsGone key n (insert s callback)
  unfolding insert
  insert-IsGone {s} callback g = record {
    given = omega (arith, g.given);
    dead = lives-append-one key s.handlers _ (ground (arith, g.given)) ∙ g.dead;
    silent = g.silent;
  }

  remove-IsGone : {s : HandlersList} (other : ℕ) → IsGone key n s → IsGone key n (remove s other)
  unfolding remove
  remove-IsGone {s} other g = record {
    given = g.given;
    dead = lives-set_dead key other s.handlers g.dead;
    silent = g.silent;
  }

  do_call-IsGone :
      (s : HandlersList) (c : HandlerCall) → IsGone key n s → StaysGone key n (do_call effects s c)
  unfolding do_call
  do_call-IsGone s (add_handler callback) g = insert-IsGone callback g
  do_call-IsGone s (remove_handler other) g = remove-IsGone other g
  do_call-IsGone s emit_again g = emit-IsGone g

  end_emission-IsGone :
      (s : HandlersList) (rest : List Emission)
      → IsGone key n s
      → IsGone key n (end_emission s rest)
  unfolding end_emission clean_up
  end_emission-IsGone s rest g = elim (Bool-cases ((s.use_counter + (2 ^ 16 - 1)) % 2 ^ 16 == 0)) [
    | inl last ↦ rw last (record {
      given = g.given;
      dead = lives-erase_tail key s.handlers ∙ g.dead;
      silent = g.silent;
    })
    | inr more ↦ rw more (record { given = g.given; dead = g.dead; silent = g.silent })
  ]

  advance-IsGone :
      (s : HandlersList) (e : Emission) (rest : List Emission) (cs : List HandlerCall)
      → IsGone key n s
      → StaysGone key n (advance effects s e rest cs)
  unfolding advance
  advance-IsGone s e rest (c ∷ cs) g =
      do_call-IsGone (record s { emissions = record e { pending = cs } ∷ rest }) c
        (record { given = g.given; dead = g.dead; silent = g.silent })
  advance-IsGone s e rest [] g = elim (Bool-cases (e.index == e.size)) [
    | inl end ↦ rw end (end_emission-IsGone s rest g)
    | inr more ↦ rw more (
        arrive-IsGone s e.size rest
          (seek (from_index (suc e.index) s.handlers) (suc e.index) e.size)
          (seek-IsOther key (from_index (suc e.index) s.handlers) (suc e.index) e.size
            (lives-from_index key (suc e.index) s.handlers g.dead))
          g)
  ]

  step-IsGone : {s : HandlersList} → IsGone key n s → StaysGone key n (step effects s)
  unfolding step
  step-IsGone {s} g = at_emission s.emissions
    where
      at_emission :
          (es : List Emission)
          → StaysGone key n
              (elim es [ [] ↦ some s | e ∷ rest ↦ advance effects s e rest e.pending ])
      at_emission [] = g
      at_emission (e ∷ rest) = advance-IsGone s e rest e.pending g

module _ {effects : ℕ → List HandlerCall} {key n : ℕ} where
  Step-IsGone : {s s' : HandlersList} → Step effects s s' → IsGone key n s → IsGone key n s'
  Step-IsGone (Running.adds s callback) g = insert-IsGone effects callback g
  Step-IsGone (Running.removes s other) g = remove-IsGone effects other g
  Step-IsGone (Running.emits s e) g = subst (StaysGone key n) e (emit-IsGone effects g)
  Step-IsGone (Running.steps s e) g = subst (StaysGone key n) e (step-IsGone effects g)

  Reach-IsGone : {s s' : HandlersList} → Reach effects s s' → IsGone key n s → IsGone key n s'
  Reach-IsGone Running.here g = g
  Reach-IsGone (Running.next r st) g = Step-IsGone st (Reach-IsGone r g)

-- Once a handler that had been added is removed, it is never invoked again, whatever handlers are
-- added and removed and however emissions begin, run on and end afterwards, also those that were
-- under way.
pub removed_silent :
    {effects : ℕ → List HandlerCall} (s : HandlersList) {s' : HandlersList} (key : ℕ)
    → key < s.next_key
    → Reach effects (remove s key) s'
    → count key s'.log ≡ count key s.log
unfolding remove
removed_silent s key given r =
    (Reach-IsGone r
      (record { given = given; dead = lives-set_dead_self key s.handlers; silent = refl })).silent
