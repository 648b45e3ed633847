-- ===== src/AtSupport/Dispatcher.antt =====
-- at_dispatcher.h and at_dispatcher.cpp, on the lines of at_buffer.cpp.
pub mod Order
pub mod Notified
use aether_client_cpp.Prelude.{
  ℕ, zero, suc, ltb, ◌==◌, ◌&&◌, ◌||◌, Bool, true, false, if◌then◌else◌, List, [], ◌∷◌, ◌++◌,
  Option, none, some, length, erase_if, find_if,
}
use aether_client_cpp.AtBuffer.{AtBuffer, find}

-- The order and the equality of `std::string`.
unfoldable pub is_less : List ℕ → List ℕ → Bool
is_less [] [] = false
is_less [] (y ∷ ys) = true
is_less (x ∷ xs) [] = false
is_less (x ∷ xs) (y ∷ ys) = ltb x y || ((x == y) && is_less xs ys)

unfoldable pub is_same : List ℕ → List ℕ → Bool
is_same [] [] = true
is_same [] (y ∷ ys) = false
is_same (x ∷ xs) [] = false
is_same (x ∷ xs) (y ∷ ys) = (x == y) && is_same xs ys

-- An element of `observers_`; none is the null pointer.
pub record Entry : Type 0 where
  pub command : List ℕ
  pub observer : Option ℕ

pub data ObserverCall : Type 0 where
  listen : List ℕ → ℕ → ObserverCall
  remove_observer : ℕ → ObserverCall

-- `observers` is in the order of its commands. `log` holds the calls of `Observe`, with the lines
-- from the one that is found, oldest first.
pub record AtDispatcher : Type 0 where
  pub observers : List Entry
  pub remove_guard : Bool
  pub data_lines : List (List ℕ)
  pub log : List (ℕ × List (List ℕ))

-- `insert_or_assign`
unfoldable pub insert_or_assign : List ℕ → ℕ → List Entry → List Entry
insert_or_assign c o [] = record { command = c; observer = some o } ∷ []
insert_or_assign c o (e ∷ es) =
    let rest = insert_or_assign c o es in
    let entry : Entry = record { command = c; observer = some o } in
    if is_same c e.command
    then record e { observer = some o } ∷ es
    else if is_less c e.command
    then entry ∷ e ∷ es
    else e ∷ rest

unfoldable pub set_null : ℕ → List Entry → List Entry
set_null o [] = []
set_null o (e ∷ es) =
    elim e.observer [ none ↦ e | some p ↦ if p == o then record e { observer = none } else e ]
    ∷ set_null o es

abbrev pub is_null : Entry → Bool
is_null e = elim e.observer [ none ↦ true | some o ↦ false ]

unfoldable pub cleanup_observers : AtDispatcher → AtDispatcher
cleanup_observers d = record d { remove_guard = false; observers = erase_if is_null d.observers }

unfoldable pub do_listen : AtDispatcher → List ℕ → ℕ → AtDispatcher
do_listen d c o = record d { observers = insert_or_assign c o d.observers }

unfoldable pub do_remove : AtDispatcher → ℕ → AtDispatcher
do_remove d o =
    let d1 = record d { observers = set_null o d.observers } in
    if d.remove_guard then d1 else cleanup_observers d1

unfoldable pub do_call : AtDispatcher → ObserverCall → AtDispatcher
do_call d (listen c o) = do_listen d c o
do_call d (remove_observer o) = do_remove d o

unfoldable pub do_calls : AtDispatcher → List ObserverCall → AtDispatcher
do_calls d [] = d
do_calls d (c ∷ cs) = do_calls (do_call d c) cs

-- The pointer that the loop has for a command: it refers to the element of the map.
unfoldable pub observer_of : List ℕ → List Entry → Option ℕ
observer_of c [] = none
observer_of c (e ∷ es) =
    let rest = observer_of c es in if is_same c e.command then e.observer else rest

abbrev pub front : List Entry → Option Entry
front [] = none
front (e ∷ es) = some e

-- The first element behind a command: the next one of the loop over the map.
abbrev pub next_after : List ℕ → List Entry → Option Entry
next_after c es = find_if (λ e. is_less c e.command) es

-- `effects` is what an observer asks of the dispatcher when it observes.
module _ (effects : ℕ → List ObserverCall) where
  -- `Observe`, through a pointer; none is the null pointer.
  unfoldable pub observe : AtDispatcher → Option ℕ → List (List ℕ) → Option AtDispatcher
  observe d none pos = none
  observe d (some o) pos = some (do_calls (record d { log = d.log ++ (o, pos) ∷ [] }) (effects o))

  -- The loop of `BufferUpdate` for one command, with the loop of `FindPattern` in it.
  unfoldable pub search : List ℕ → AtDispatcher → List (List ℕ) → Option AtDispatcher
  search c d [] = some d
  search c d (line ∷ lines) = elim (find c line) [
    | none ↦ search c d lines
    | some n ↦ elim (observe d (observer_of c d.observers) (line ∷ lines)) [
      | none ↦ none
      | some d1 ↦ search c d1 lines
    ]
  ]

  unfoldable pub visit : AtDispatcher → List (List ℕ) → Entry → Option AtDispatcher
  visit d pos e = elim e.observer [ none ↦ some d | some o ↦ search e.command d pos ]

  -- The loop over the map, on fuel, from an element on.
  unfoldable pub visit_from : ℕ → AtDispatcher → List (List ℕ) → Option Entry → Option AtDispatcher
  visit_from zero d pos e = some d
  visit_from (suc fuel) d pos none = some d
  visit_from (suc fuel) d pos (some e) = elim (visit d pos e) [
    | none ↦ none
    | some d1 ↦ visit_from fuel d1 pos (next_after e.command d1.observers)
  ]

  -- `pos` are the lines from the position of the update on; the lines before it are erased.
  unfoldable pub buffer_update : ℕ → AtDispatcher → List (List ℕ) → Option AtDispatcher
  buffer_update fuel d pos =
      elim (visit_from fuel (record d { remove_guard = true }) pos (front d.observers)) [
        | none ↦ none
        | some d1 ↦ some (cleanup_observers (record d1 { data_lines = pos }))
      ]
