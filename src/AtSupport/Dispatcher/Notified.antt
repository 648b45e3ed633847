-- ===== src/AtSupport/Dispatcher/Notified.antt =====
-- at_dispatcher.cpp: `BufferUpdate`, and which observers it calls.
use aether_client_cpp.Prelude.{
  ℕ, zero, suc, ◌≤◌, ◌≡◌, ◌≢◌, refl, sym, ap, subst, ◌∙◌, arith, true, false, List, [], ◌∷◌, ◌++◌,
  append-nil, append_assoc, none, some, length, erase_if, Option-cases, Bool-cases, inl, inr,
}
use aether_client_cpp.AtBuffer.{find}
use aether_client_cpp.AtSupport.Dispatcher.{
  Entry, ObserverCall, remove_observer, AtDispatcher, set_null, is_null, is_same, cleanup_observers,
  do_remove, do_call, do_calls, observer_of, next_after, front, observe, search, visit, visit_from,
  buffer_update,
}
use aether_client_cpp.AtSupport.Dispatcher.Order.{IsSorted, next_after_lem, observer_of_lem}

-- The calls for a command: one for each line that holds it, with the lines from there on.
unfoldable pub calls_for : ℕ → List ℕ → List (List ℕ) → List (ℕ × List (List ℕ))
calls_for o c [] = []
calls_for o c (line ∷ lines) =
    let rest = calls_for o c lines in
    elim (find c line) [ none ↦ rest | some n ↦ (o, line ∷ lines) ∷ rest ]

-- The calls of one element.
unfoldable pub entry_calls : Entry → List (List ℕ) → List (ℕ × List (List ℕ))
entry_calls e pos = elim e.observer [ none ↦ [] | some o ↦ calls_for o e.command pos ]

unfoldable pub all_calls : List Entry → List (List ℕ) → List (ℕ × List (List ℕ))
all_calls [] pos = []
all_calls (e ∷ es) pos = entry_calls e pos ++ all_calls es pos

abbrev pub no_calls : ℕ → List ObserverCall
no_calls o = []

-- The dispatcher with more calls in its log.
abbrev logged : AtDispatcher → List (ℕ × List (List ℕ)) → AtDispatcher
logged d calls = record d { log = d.log ++ calls }

search_lem :
    (c : List ℕ) (o : ℕ) (d : AtDispatcher) (pos : List (List ℕ))
    → observer_of c d.observers ≡ some o
    → search no_calls c d pos ≡ some (logged d (calls_for o c pos))
unfolding search observe do_calls calls_for
search_lem c o d [] h = ap (λ l. some (record d { log = l })) (sym (append-nil d.log))
search_lem c o d (line ∷ lines) h = elim (Option-cases (find c line)) [
  | inl e ↦ rw (search, calls_for, e) (search_lem c o d lines h)
  | inr (n, e) ↦
      rw (search, calls_for, e, h)
        (search_lem c o (logged d ((o, line ∷ lines) ∷ [])) lines h
          ∙ ap (λ l. some (record d { log = l }))
              (append_assoc d.log ((o, line ∷ lines) ∷ []) (calls_for o c lines)))
]

visit_lem :
    (d : AtDispatcher) (pos : List (List ℕ)) (e : Entry)
    → observer_of e.command d.observers ≡ e.observer
    → visit no_calls d pos e ≡ some (logged d (entry_calls e pos))
unfolding visit entry_calls
visit_lem d pos e h = elim (Option-cases e.observer) [
  | inl none' ↦
      rw (visit, entry_calls, none')
        (ap (λ l. some (record d { log = l })) (sym (append-nil d.log)))
  | inr (o, there) ↦ rw (visit, entry_calls, there) (search_lem e.command o d pos (h ∙ there))
]

visit_from_lem :
    (fuel : ℕ) (d : AtDispatcher) (pos : List (List ℕ)) (ps es : List Entry)
    → d.observers ≡ ps ++ es
    → IsSorted (ps ++ es)
    → length es ≤ fuel
    → visit_from no_calls fuel d pos (front es) ≡ some (logged d (all_calls es pos))
unfolding visit_from all_calls
visit_from_lem zero d pos ps [] h s l =
    ap (λ l. some (record d { log = l })) (sym (append-nil d.log))
visit_from_lem (suc fuel) d pos ps [] h s l =
    ap (λ l. some (record d { log = l })) (sym (append-nil d.log))
visit_from_lem zero d pos ps (e ∷ es) h s l = absurd (omega (arith, l))
visit_from_lem (suc fuel) d pos ps (e ∷ es) h s l =
    let here = ap (observer_of e.command) h ∙ observer_of_lem ps e es s in
    let next = ap (next_after e.command) h ∙ next_after_lem ps e es s in
    let assoc = append_assoc ps (e ∷ []) es in
    let d1 = logged d (entry_calls e pos) in
    rw (visit_from, visit_lem d pos e here, next)
      (visit_from_lem fuel d1 pos (ps ++ e ∷ []) es (h ∙ sym assoc) (subst IsSorted (sym assoc) s)
          (omega (arith, l))
        ∙ ap (λ l. some (record d { log = l }))
            (append_assoc d.log (entry_calls e pos) (all_calls es pos)))

-- When the observers are in the order of their commands and ask nothing of the dispatcher, and with
-- fuel for each: `BufferUpdate` calls each of them, in this order, for each of the lines from the
-- position on that holds its command, and leaves just these lines in the buffer.
pub buffer_update_lem :
    (fuel : ℕ) (d : AtDispatcher) (pos : List (List ℕ))
    → IsSorted d.observers
    → length d.observers ≤ fuel
    → buffer_update no_calls fuel d pos
      ≡ some (record {
        observers = erase_if is_null d.observers;
        remove_guard = false;
        data_lines = pos;
        log = d.log ++ all_calls d.observers pos;
      })
unfolding buffer_update cleanup_observers
buffer_update_lem fuel d pos s l =
    rw
      (
        buffer_update,
        visit_from_lem fuel (record d { remove_guard = true }) pos [] d.observers refl s l,
      )
      refl

observer_of-set_null :
    (c : List ℕ) (o : ℕ) (es : List Entry)
    → observer_of c es ≡ some o
    → observer_of c (set_null o es) ≡ none
unfolding observer_of set_null
observer_of-set_null c o [] h = cc
observer_of-set_null c o (e ∷ es) h = elim (Bool-cases (is_same c e.command)) [
  | inl same ↦
      let there : e.observer ≡ some o = ground (arith, h, same) in ground (arith, same, there)
  | inr other ↦
      let rest = observer_of-set_null c o es (ground (arith, h, other)) in
      elim (Option-cases e.observer) [
        | inl n ↦ ground (arith, other, n, rest)
        | inr (p, t) ↦ ground (arith, other, t, rest)
      ]
]

search_null :
    (effects : ℕ → List ObserverCall) (d : AtDispatcher) (o : ℕ) (c : List ℕ)
    (lines : List (List ℕ))
    → observer_of c d.observers ≡ none
    → length (calls_for o c lines) ≢ 0
    → search effects c d lines ≡ none
unfolding search observe calls_for
search_null effects d o c [] h more = absurd (more refl)
search_null effects d o c (line ∷ lines) h more = elim (Option-cases (find c line)) [
  | inl e ↦ rw (search, e) (search_null effects d o c lines h (λ z. more (ground (arith, e, z))))
  | inr (n, e) ↦ rw (search, e, h) refl
]

-- Whatever the other observers do: when an observer removes itself as it is called for a line, and
-- a later line holds its command too, the loop goes through a null pointer.
pub search-removed :
    (effects : ℕ → List ObserverCall) (d : AtDispatcher) (o : ℕ) (c line : List ℕ)
    (lines : List (List ℕ)) (n : ℕ)
    → d.remove_guard ≡ true
    → effects o ≡ remove_observer o ∷ []
    → observer_of c d.observers ≡ some o
    → find c line ≡ some n
    → length (calls_for o c lines) ≢ 0
    → search effects c d (line ∷ lines) ≡ none
unfolding search observe do_calls do_call do_remove
search-removed effects d o c line lines n g k h f more =
    let d1 = record d { log = d.log ++ (o, line ∷ lines) ∷ [] } in
    let d2 = record d1 { observers = set_null o d.observers } in
    let removed : do_calls d1 (effects o) ≡ d2 = rw k (ground (arith, g)) in
    rw (search, f, h, removed)
      (search_null effects d2 o c lines (observer_of-set_null c o d.observers h) more)
