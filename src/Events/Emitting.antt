-- ===== src/Events/Emitting.antt =====
-- events.h: an emission that finds handlers which ask for nothing.
use aether_client_cpp.Prelude.{
  ℕ, zero, suc, ◌+◌, ◌-◌, ◌%◌, ◌^◌, ◌≤◌, ◌<◌, ◌≡◌, refl, arith, ap, ◌∙◌, ◌==◌, true, false,
  if◌then◌else◌, List, [], ◌∷◌, ◌++◌, length, Option, none, some, append-nil, append_assoc, inl,
  inr, Bool-cases,
}
use aether_client_cpp.Events.{
  Handler, HandlerCall, HandlersList, live_part, erase_tail, clean_up, Found, past_end, at_size,
  at_handler, seek, from_index, end_emission, arrive, emit, advance, step, run,
}

-- The keys of the handlers that are alive.
abbrev pub alive_keys : List Handler → List ℕ
alive_keys [] = []
alive_keys (h ∷ hs) = if h.is_alive then h.key ∷ alive_keys hs else alive_keys hs

-- What `operator++` sees next.
from_index-suc :
    (n : ℕ) (l : List Handler) (h : Handler) (hs : List Handler)
    → from_index n l ≡ h ∷ hs
    → from_index (suc n) l ≡ hs
unfolding from_index
from_index-suc zero [] h hs e = absurd (cc)
from_index-suc zero (x ∷ xs) h hs e = ground (arith, e)
from_index-suc (suc n) [] h hs e = absurd (cc)
from_index-suc (suc n) (x ∷ xs) h hs e = from_index-suc n xs h hs e

-- `run`, from a state if there is one.
abbrev pub run_from : (ℕ → List HandlerCall) → ℕ → Option HandlersList → Option HandlersList
run_from effects fuel o = elim o [ none ↦ none | some t ↦ run effects fuel t ]

module _ (effects : ℕ → List HandlerCall) (quiet : (callback : ℕ) → effects callback ≡ []) where
  -- The state after an emission from `s` that has still to invoke the handlers `hs`.
  abbrev finished : HandlersList → List Handler → HandlersList
  finished s hs = record s {
    handlers = erase_tail s.handlers;
    use_counter = 0;
    emissions = [];
    log = s.log ++ alive_keys hs;
  }

  run_idle :
      (fuel : ℕ) (s : HandlersList)
      → run effects fuel (record s { emissions = [] }) ≡ some (record s { emissions = [] })
  unfolding run step
  run_idle zero s = refl
  run_idle (suc fuel) s = run_idle fuel s

  -- What an emission does at the end, and after the handler at an index.
  step-at_size :
      (s : HandlersList) (size : ℕ)
      → s.use_counter ≡ 1
      → step effects
          (record s { emissions = record { index = size; size = size; pending = [] } ∷ [] })
        ≡ some (finished s [])
  unfolding step advance end_emission clean_up
  step-at_size s size one =
      let last : ((s.use_counter + (2 ^ 16 - 1)) % 2 ^ 16 == 0) ≡ true = ground (arith, one) in
      ground (arith, last, one, append-nil s.log)

  step-at_handler :
      (s : HandlersList) (index size : ℕ) (hs : List Handler)
      → from_index (suc index) s.handlers ≡ hs
      → index < size
      → step effects
          (record s { emissions = record { index = index; size = size; pending = [] } ∷ [] })
        ≡ arrive effects s size [] (seek hs (suc index) size)
  unfolding step advance arrive
  step-at_handler s index size hs at low =
      let within : (index == size) ≡ false = ground (arith, low) in
      rw within (
        ap
          (λ l.
            arrive effects
              (record s { emissions = record { index = index; size = size; pending = [] } ∷ [] })
              size [] (seek l (suc index) size))
          at
        ∙ same (seek hs (suc index) size))
    where
      same :
          (f : Found)
          → arrive effects
              (record s { emissions = record { index = index; size = size; pending = [] } ∷ [] })
              size
              []
              f
            ≡ arrive effects s size [] f
      same past_end = refl
      same at_size = refl
      same (at_handler i h) = refl

  run-at_size :
      (s : HandlersList) (fuel size : ℕ)
      → s.use_counter ≡ 1
      → run_from effects (suc fuel) (arrive effects s size [] at_size) ≡ some (finished s [])
  unfolding run arrive
  run-at_size s fuel size one =
      ap (run_from effects fuel) (step-at_size s size one) ∙ run_idle fuel (finished s [])

  run-at_handler :
      (s : HandlersList) (fuel index size : ℕ) (h : Handler) (hs : List Handler)
      → from_index (suc index) s.handlers ≡ hs
      → index < size
      → run_from effects (suc fuel) (arrive effects s size [] (at_handler index h))
        ≡ run_from effects fuel (
            arrive effects
              (record s { log = s.log ++ h.key ∷ [] })
              size
              []
              (seek hs (suc index) size))
  unfolding run arrive
  run-at_handler s fuel index size h hs at low =
      ap
        (λ cs. run effects (suc fuel) (record s {
          emissions = record { index = index; size = size; pending = cs } ∷ [];
          log = s.log ++ h.key ∷ [];
        }))
        (quiet h.callback)
      ∙ ap (run_from effects fuel)
          (step-at_handler (record s { log = s.log ++ h.key ∷ [] }) index size hs at low)

  run-arrive :
      (s : HandlersList) (hs : List Handler) (index fuel : ℕ)
      → from_index index s.handlers ≡ hs
      → index + length hs ≡ length s.handlers
      → length hs ≤ fuel
      → s.use_counter ≡ 1
      → run_from effects
          (suc fuel)
          (arrive effects s (length s.handlers) [] (seek hs index (length s.handlers)))
        ≡ some (finished s hs)
  unfolding seek
  run-arrive s [] index fuel at len more one =
      let end : (index == length s.handlers) ≡ true = ground (arith, len) in
      rw end (run-at_size s fuel (length s.handlers) one)
  run-arrive s (h ∷ hs) index zero at len more one = absurd (omega (arith, more))
  run-arrive s (h ∷ hs) index (suc fuel) at len more one =
      let before : (index == length s.handlers) ≡ false = ground (arith, len) in
      let next : from_index (suc index) s.handlers ≡ hs = from_index-suc index s.handlers h hs at in
      rw before (elim (Bool-cases h.is_alive) [
        | inl alive ↦ rw alive (
            run-at_handler s (suc fuel) index (length s.handlers) (record h { is_alive = true }) hs
              next (omega (arith, len))
            ∙ run-arrive (record s { log = s.log ++ h.key ∷ [] }) hs (suc index) fuel next
                (omega (arith, len)) (omega (arith, more)) one
            ∙ ap (λ l. some (record (finished s hs) { log = l }))
                (append_assoc s.log (h.key ∷ []) (alive_keys hs)))
        | inr dead ↦ rw dead (
            run-arrive s hs (suc index) (suc fuel) next (omega (arith, len)) (omega (arith, more))
              one)
      ])

  -- On a list of less than 2^16 handlers that ask for nothing, with no emission under way, `Emit`
  -- ends after at most as many rounds as there are handlers, and one more. It invokes the handlers
  -- that are alive, each once and in the order in which they were added, and then cleans the list
  -- up.
  pub emit_lem :
      (s : HandlersList)
      → s.emissions ≡ []
      → s.use_counter ≡ 0
      → length s.handlers < 2 ^ 16
      → run_from effects (suc (length s.handlers)) (emit effects s)
        ≡ some (record s { handlers = erase_tail s.handlers; log = s.log ++ alive_keys s.handlers })
  unfolding emit
  emit_lem s idle none_use small =
      let size : length s.handlers % 2 ^ 16 ≡ length s.handlers = omega (arith, small) in
      let begin_at : from_index 0 s.handlers ≡ s.handlers = unfold from_index in refl in
      rw (size, idle, none_use)
        (run-arrive (record s { use_counter = 1; emissions = [] }) s.handlers 0 (length s.handlers)
          begin_at (omega arith) (omega arith) refl)

  live_part_dead : (hs : List Handler) → alive_keys hs ≡ [] → live_part hs ≡ []
  unfolding live_part
  live_part_dead [] e = refl
  live_part_dead (h ∷ hs) e = ground (arith, e, live_part_dead hs)

  -- On a list of less than 2^16 handlers of which none is alive, with no emission under way, `Emit`
  -- changes nothing, if handlers ask for nothing: the dead ones all stay in the list.
  pub emit_dead :
      (s : HandlersList)
      → s.emissions ≡ []
      → s.use_counter ≡ 0
      → length s.handlers < 2 ^ 16
      → alive_keys s.handlers ≡ []
      → run_from effects (suc (length s.handlers)) (emit effects s) ≡ some s
  unfolding erase_tail
  emit_dead s idle none_use small dead =
      emit_lem s idle none_use small
      ∙ rw (dead, live_part_dead s.handlers dead, erase_tail)
          (ap (λ l. some (record s { log = l })) (append-nil s.log))
