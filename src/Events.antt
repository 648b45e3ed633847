-- ===== src/Events.antt =====
-- aether/events/event_list.h, event_list.cpp and events.h: the handlers of an event, and its
-- emission, within which handlers are added and removed and the event is emitted again.
pub mod Running
pub mod Removed
pub mod Emitting
use aether_client_cpp.Prelude.{
  ℕ, zero, suc, ◌+◌, ◌-◌, ◌%◌, ◌^◌, ◌==◌, Bool, true, false, if◌then◌else◌, List, [], ◌∷◌, ◌++◌,
  length, Option, none, some,
}

-- A handler with what it does; `key` counts the handlers that were added, for the iterator to it.
pub record Handler : Type 0 where
  pub key : ℕ
  pub callback : ℕ
  pub is_alive : Bool

-- What a handler asks for when it is invoked: another handler, the removal of one, an emission.
pub data HandlerCall : Type 0 where
  add_handler : ℕ → HandlerCall
  remove_handler : ℕ → HandlerCall
  emit_again : HandlerCall

-- An emission under way: where its iterator stands, and what is left of what the handler there asks for.
pub record Emission : Type 0 where
  pub index : ℕ
  pub size : ℕ
  pub pending : List HandlerCall

-- `use_counter` holds the 16 bits of the counter, a `std::atomic_int16_t`, as a number below 2 ^ 16.
-- `log` holds the keys of the handlers that were invoked, oldest first.
pub record HandlersList : Type 0 where
  pub handlers : List Handler
  pub next_key : ℕ
  pub use_counter : ℕ
  pub emissions : List Emission
  pub log : List ℕ

abbrev pub init : HandlersList
init = record { handlers = []; next_key = 0; use_counter = 0; emissions = []; log = [] }

unfoldable pub insert : HandlersList → ℕ → HandlersList
insert s callback = record s {
  handlers = s.handlers ++ record { key = s.next_key; callback = callback; is_alive = true } ∷ [];
  next_key = s.next_key + 1;
}

unfoldable pub set_dead : ℕ → List Handler → List Handler
set_dead key [] = []
set_dead key (h ∷ hs) =
    (if h.key == key then record h { is_alive = false } else h) ∷ set_dead key hs

unfoldable pub remove : HandlersList → ℕ → HandlersList
remove s key = record s { handlers = set_dead key s.handlers }

-- The list without the dead handlers at its end.
unfoldable pub live_part : List Handler → List Handler
live_part [] = []
live_part (h ∷ hs) =
    let rest = live_part hs in
    elim rest [ [] ↦ if h.is_alive then h ∷ [] else [] | r ∷ rs ↦ h ∷ r ∷ rs ]

-- Where no handler is alive, `remove_begin` stays at the end and nothing is erased.
unfoldable pub erase_tail : List Handler → List Handler
erase_tail hs = let rest = live_part hs in elim rest [ [] ↦ hs | r ∷ rs ↦ r ∷ rs ]

unfoldable pub clean_up : HandlersList → HandlersList
clean_up s = if s.use_counter == 0 then record s { handlers = erase_tail s.handlers } else s

-- The first index from `index` on, less than `size`, of a handler that is alive, with that handler,
-- or `size`; none is a step past the end of the list. `hs` is what the list has from `index` on.
pub data Found : Type 0 where
  past_end : Found
  at_size : Found
  at_handler : ℕ → Handler → Found

unfoldable pub seek : List Handler → ℕ → ℕ → Found
seek [] index size = if index == size then at_size else past_end
seek (h ∷ hs) index size =
    let rest = seek hs (suc index) size in
    if index == size then at_size else if h.is_alive then at_handler index h else rest

unfoldable pub from_index : ℕ → List Handler → List Handler
from_index zero hs = hs
from_index (suc n) [] = []
from_index (suc n) (h ∷ hs) = from_index n hs

-- The end of an emission; the counter goes from 0 to its highest bits.
unfoldable pub end_emission : HandlersList → List Emission → HandlersList
end_emission s rest =
    clean_up (record s { use_counter = (s.use_counter + (2 ^ 16 - 1)) % 2 ^ 16; emissions = rest })

-- `effects` is what the callbacks ask for.
module _ (effects : ℕ → List HandlerCall) where
  -- The iterator of the innermost emission comes to an index, and a handler there is invoked.
  unfoldable pub arrive : HandlersList → ℕ → List Emission → Found → Option HandlersList
  arrive s size rest past_end = none
  arrive s size rest at_size =
      some (record s { emissions = record { index = size; size = size; pending = [] } ∷ rest })
  arrive s size rest (at_handler index h) = some (record s {
    emissions = record { index = index; size = size; pending = effects h.callback } ∷ rest;
    log = s.log ++ h.key ∷ [];
  })

  -- `Emit`, up to the first handler; the size is of 16 bits.
  unfoldable pub emit : HandlersList → Option HandlersList
  emit s =
      let size = length s.handlers % 2 ^ 16 in
      arrive (record s { use_counter = (s.use_counter + 1) % 2 ^ 16 }) size s.emissions
        (seek s.handlers 0 size)

  unfoldable pub do_call : HandlersList → HandlerCall → Option HandlersList
  do_call s (add_handler callback) = some (insert s callback)
  do_call s (remove_handler key) = some (remove s key)
  do_call s emit_again = emit s

  -- The next thing that the innermost emission does: what its handler asks for, then `operator++`.
  unfoldable pub advance :
      HandlersList → Emission → List Emission → List HandlerCall → Option HandlersList
  advance s e rest (c ∷ cs) = do_call (record s { emissions = record e { pending = cs } ∷ rest }) c
  advance s e rest [] =
      if e.index == e.size
      then some (end_emission s rest)
      else arrive s e.size rest (seek (from_index (suc e.index) s.handlers) (suc e.index) e.size)

  unfoldable pub step : HandlersList → Option HandlersList
  step s = elim s.emissions [ [] ↦ some s | e ∷ rest ↦ advance s e rest e.pending ]

  unfoldable pub run : ℕ → HandlersList → Option HandlersList
  run zero s = some s
  run (suc fuel) s = elim (step s) [ none ↦ none | some s1 ↦ run fuel s1 ]
