-- ===== src/AtSupport/Request.antt =====
-- at_request.h: `AtRequestOp`, which waits for several answers and completes its receiver.
use aether_client_cpp.Prelude.{
  ℕ, suc, ◌+◌, ◌-◌, ◌<◌, ◌≡◌, arith, ◌==◌, leb, Bool, true, false, if◌then◌else◌, List, [], ◌∷◌,
  ◌++◌, Option, none, some,
}
use aether_client_cpp.Prelude.Sizes.{sub_size, size_mod}

-- A completion of the receiver; the error of the request itself is -1.
pub data Completion : Type 0 where
  set_value request_error : Completion
  command_error : ℕ → Completion

-- What the dispatcher calls: the listener of a wait, with what its handler returns, or that of ERROR.
pub data Answer : Type 0 where
  wait_answered : ℕ → Bool → Answer
  error_line : Answer

pub record AtRequestOp : Type 0 where
  pub waits_counter : ℕ
  pub completions : List Completion

unfoldable pub complete : AtRequestOp → Completion → AtRequestOp
complete op c = record op { completions = op.completions ++ c ∷ [] }

-- The end of `start`: `failed` is the error of the command, if it has one.
unfoldable pub start : ℕ → Option ℕ → AtRequestOp
start waits_count failed =
    let op : AtRequestOp = record { waits_counter = waits_count; completions = [] } in
    elim failed [
      | some e ↦ complete op (command_error e)
      | none ↦ if waits_count == 0 then complete op set_value else op
    ]

-- The handler of a wait, where it returns true.
unfoldable pub count_down : AtRequestOp → AtRequestOp
count_down op =
    let op1 = record op { waits_counter = sub_size op.waits_counter 1 } in
    if op1.waits_counter == 0 then complete op1 set_value else op1

unfoldable pub on_answer : AtRequestOp → Answer → AtRequestOp
on_answer op (wait_answered i handled) = if handled then count_down op else op
on_answer op error_line = complete op request_error

unfoldable pub run : AtRequestOp → List Answer → AtRequestOp
run op [] = op
run op (a ∷ answers) = run (on_answer op a) answers

-- How often each completion happens.
unfoldable pub values : List Completion → ℕ
values [] = 0
values (set_value ∷ cs) = suc (values cs)
values (request_error ∷ cs) = values cs
values (command_error e ∷ cs) = values cs

unfoldable pub errors : List Completion → ℕ
errors [] = 0
errors (set_value ∷ cs) = errors cs
errors (request_error ∷ cs) = suc (errors cs)
errors (command_error e ∷ cs) = suc (errors cs)

-- The answers that a handler took, of whatever wait, and the lines with an error.
unfoldable pub handled_count : List Answer → ℕ
handled_count [] = 0
handled_count (wait_answered i handled ∷ answers) =
    if handled then suc (handled_count answers) else handled_count answers
handled_count (error_line ∷ answers) = handled_count answers

unfoldable pub error_count : List Answer → ℕ
error_count [] = 0
error_count (wait_answered i handled ∷ answers) = error_count answers
error_count (error_line ∷ answers) = suc (error_count answers)

values-append : (cs ds : List Completion) → values (cs ++ ds) ≡ values cs + values ds
unfolding values
values-append [] ds = omega arith
values-append (set_value ∷ cs) ds = omega (arith, values-append cs ds)
values-append (request_error ∷ cs) ds = values-append cs ds
values-append (command_error e ∷ cs) ds = values-append cs ds

errors-append : (cs ds : List Completion) → errors (cs ++ ds) ≡ errors cs + errors ds
unfolding errors
errors-append [] ds = omega arith
errors-append (set_value ∷ cs) ds = errors-append cs ds
errors-append (request_error ∷ cs) ds = omega (arith, errors-append cs ds)
errors-append (command_error e ∷ cs) ds = omega (arith, errors-append cs ds)

run-errors :
    (op : AtRequestOp) (answers : List Answer)
    → errors (run op answers).completions ≡ errors op.completions + error_count answers
unfolding run on_answer count_down complete error_count errors
run-errors op [] = omega arith
run-errors op (wait_answered i false ∷ answers) = run-errors op answers
run-errors op (wait_answered i true ∷ answers) =
    ground
      (arith, run-errors (count_down op) answers, errors-append op.completions (set_value ∷ []))
run-errors op (error_line ∷ answers) = ground (
  arith,
  run-errors (complete op request_error) answers,
  errors-append op.completions (request_error ∷ []),
)

-- The values that a run adds, by the counter before it.
run-values :
    (op : AtRequestOp) (answers : List Answer)
    → op.waits_counter < size_mod
    → handled_count answers < size_mod
    → values (run op answers).completions
      ≡ values op.completions
        + (if op.waits_counter == 0
            then 0
            else if leb op.waits_counter (handled_count answers)
            then 1
            else 0)
unfolding run on_answer count_down complete handled_count values
run-values op [] l h = ground arith
run-values op (wait_answered i false ∷ answers) l h = run-values op answers l h
run-values op (wait_answered i true ∷ answers) l h =
    ground (
      arith,
      l,
      h,
      run-values (count_down op) answers,
      values-append op.completions (set_value ∷ []),
    )
run-values op (error_line ∷ answers) l h = ground (
  arith,
  run-values (complete op request_error) answers l h,
  values-append op.completions (request_error ∷ []),
)

-- Whether the command failed.
abbrev pub has_failed : Option ℕ → ℕ
has_failed none = 0
has_failed (some e) = 1

-- Of a request with `k` waits, with any answers after its start, fewer than 2^64 of them handled:
-- the receiver gets its value once when `k` answers were handled, whichever waits they are of, and
-- else not; with no waits it gets it at the start, unless the command failed. It gets an error for
-- each line with one, and one more where the command failed.
pub run-start :
    (k : ℕ) (failed : Option ℕ) (answers : List Answer)
    → k < size_mod
    → handled_count answers < size_mod
    → let cs = (run (start k failed) answers).completions in
      (values cs ≡ (
        if k == 0 then 1 - has_failed failed else if leb k (handled_count answers) then 1 else 0))
      × (errors cs ≡ has_failed failed + error_count answers)
unfolding start complete values errors
run-start k none answers l h =
    let op : AtRequestOp = record { waits_counter = k; completions = [] } in
    let done = complete op set_value in
    (
      ground (arith, run-values op answers l h, run-values done answers l h),
      ground (arith, run-errors op answers, run-errors done answers),
    )
run-start k (some e) answers l h = (
  ground (arith, run-values (start k (some e)) answers l h),
  run-errors (start k (some e)) answers,
)
