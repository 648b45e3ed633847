-- ===== src/Tests/Answers.antt =====
-- aether/serial_ports/at_support on concrete inputs.
use aether_client_cpp.Prelude.{
  ℕ, zero, suc, ◌-◌, ◌≡◌, length, drop, refl, arith, ◌==◌, true, false, if◌then◌else◌, List, [],
  ◌∷◌, ◌++◌, Option, none, some,
}
use aether_client_cpp.AtBuffer.{starts_with, find}
use aether_client_cpp.AtSupport.Dispatcher.{
  is_less, is_same, ObserverCall, remove_observer, AtDispatcher, observer_of, search, buffer_update,
}
use aether_client_cpp.AtSupport.Dispatcher.Order.{IsSorted}
use aether_client_cpp.AtSupport.Dispatcher.Notified.{
  calls_for, all_calls, no_calls, buffer_update_lem, search-removed,
}
use aether_client_cpp.AtSupport.Request.{
  Answer, wait_answered, start, run, values, errors, handled_count, error_count, run-start,
}
use aether_client_cpp.AtSupport.Parsing.{
  is_separator, token_length, parse_response, send_at_command,
}
use aether_client_cpp.AtSupport.Parsing.Printed.{
  no_separator, Argument, printed, parse_response-printed,
}
use aether_client_cpp.AtSupport.Parsing.Commands.{send_next, send-stale}

-- Observers of "OK" and "READY".
abbrev ok_line : List ℕ
ok_line = 79 ∷ 75 ∷ []

abbrev ready_line : List ℕ
ready_line = 82 ∷ 69 ∷ 65 ∷ 68 ∷ 89 ∷ []

abbrev listening : AtDispatcher
listening = record {
  observers =
      record { command = ok_line; observer = some 1 }
      ∷ record { command = ready_line; observer = some 2 }
      ∷ [];
  remove_guard = false;
  data_lines = [];
  log = [];
}

listening-IsSorted : IsSorted listening.observers
unfolding is_less
listening-IsSorted = ((refl, tt), (tt, tt))

buffer_update_lem_example :
    buffer_update no_calls 2 listening (ok_line ∷ ready_line ∷ ok_line ∷ [])
    ≡ some (record {
      observers = listening.observers;
      remove_guard = false;
      data_lines = ok_line ∷ ready_line ∷ ok_line ∷ [];
      log = all_calls listening.observers (ok_line ∷ ready_line ∷ ok_line ∷ []);
    })
buffer_update_lem_example =
    buffer_update_lem 2 listening (ok_line ∷ ready_line ∷ ok_line ∷ []) listening-IsSorted
      (omega arith)

-- The observer of "OK" removes itself.
abbrev leaving : ℕ → List ObserverCall
leaving o = if o == 1 then remove_observer 1 ∷ [] else []

search-removed_example :
    search leaving ok_line (record listening { remove_guard = true }) (ok_line ∷ ok_line ∷ [])
    ≡ none
unfolding find starts_with observer_of is_same calls_for
search-removed_example =
    search-removed leaving (record listening { remove_guard = true }) 1 ok_line ok_line
      (ok_line ∷ []) 0 refl refl refl refl (λ e. absurd (omega (arith, e)))

-- A request with two waits, of which the first is answered twice.
abbrev answers : List Answer
answers = wait_answered 0 true ∷ wait_answered 1 false ∷ wait_answered 0 true ∷ []

run-start_example :
    let cs = (run (start 2 none) answers).completions in (values cs ≡ 1) × (errors cs ≡ 0)
unfolding handled_count error_count
run-start_example = run-start 2 none answers (omega arith) (omega arith)

-- "+CSQ: 1,23" with arguments of one and two digits.
abbrev read_digit : List ℕ → Option ℕ
read_digit [] = none
read_digit (b ∷ bs) = some (b - 48)

abbrev one : Argument ℕ
one = record { parser = read_digit; text = 49 ∷ []; value = 1 }

abbrev two : Argument ℕ
two = record { parser = read_digit; text = 50 ∷ 51 ∷ []; value = 2 }

abbrev csq : List ℕ
csq = 43 ∷ 67 ∷ 83 ∷ 81 ∷ []

parse_response-printed_example :
    parse_response
      (csq ++ 58 ∷ 32 ∷ printed (one ∷ two ∷ []) (13 ∷ []))
      csq
      (read_digit ∷ read_digit ∷ [])
    ≡ (some 10, some 1 ∷ some 2 ∷ [])
unfolding printed no_separator is_separator token_length
parse_response-printed_example =
    parse_response-printed csq 58 32 one (two ∷ []) (13 ∷ [])
      ((omega arith, refl, refl), ((omega arith, refl, refl), tt)) refl

abbrev zeros : ℕ → List ℕ
zeros zero = []
zeros (suc n) = 0 ∷ zeros n

length-zeros : (n : ℕ) → length (zeros n) ≡ n
length-zeros zero = refl
length-zeros (suc n) = omega (arith, length-zeros n)

send-stale_example :
    let filled = ok_line ++ 13 ∷ 10 ∷ (13 ∷ 10 ∷ drop 6 (zeros 1024)) in
    (send_next (send_at_command true (zeros 1024) csq) ok_line
      ≡ some (record { result = some 2; written = filled ∷ []; buffer = filled }))
    × (length filled ≡ 1024)
send-stale_example =
    send-stale (zeros 1024) csq ok_line (length-zeros 1024) (omega arith) (omega arith)
