-- ===== src/AtSupport/Parsing.antt =====
-- at_support.h and at_support.cpp: `ParseResponse`, `ParseArg` of a string, and `SendATCommand`. The
-- parsers of the other arguments, `FromChars`, are parameters.
pub mod Printed
pub mod Commands
use aether_client_cpp.Prelude.{
  ℕ, zero, suc, ◌+◌, ◌-◌, ◌==◌, leb, ltb, not, ◌&&◌, ◌||◌, Bool, true, false, if◌then◌else◌, List,
  [], ◌∷◌, ◌++◌, Option, none, some, length, take, drop,
}
use aether_client_cpp.Prelude.Sizes.{sub_size}
use aether_client_cpp.AtBuffer.{find}

-- One of ", \n\r".
unfoldable pub is_separator : ℕ → Bool
is_separator b = (b == 44) || (b == 32) || (b == 10) || (b == 13)

-- How far the first separator is, or the end: `find_first_of`, less where it starts.
unfoldable pub token_length : List ℕ → ℕ
token_length [] = 0
token_length (b ∷ bs) = let rest = token_length bs in if is_separator b then 0 else suc rest

-- Where the parsing of the arguments is. `values` holds what was assigned to the arguments so far.
pub record Scan {ℓ} (A : Type ℓ) : Type ℓ where
  pub start : ℕ
  pub end_pos : ℕ
  pub res : Bool
  pub values : List (Option A)

-- `ParseArg`, which is not called after a failure.
unfoldable pub call_parser {ℓ} : {A : Type ℓ} → Bool → (List ℕ → Option A) → List ℕ → Option A
call_parser true parser arg = parser arg
call_parser false parser arg = none

abbrev pub is_some {ℓ} : {A : Type ℓ} → Option A → Bool
is_some none = false
is_some (some a) = true

-- One argument.
unfoldable pub parse_next {ℓ} : {A : Type ℓ} → List ℕ → (List ℕ → Option A) → Scan A → Scan A
parse_next resp_str parser s =
    let end_pos = s.start + token_length (drop s.start resp_str) in
    let value = call_parser s.res parser (take (end_pos - s.start) (drop s.start resp_str)) in
    if leb (length resp_str) s.start
    then record s { res = false; values = s.values ++ none ∷ [] }
    else if leb end_pos s.start
    then record s { end_pos = end_pos; res = false; values = s.values ++ none ∷ [] }
    else record {
      start = end_pos + 1;
      end_pos = end_pos;
      res = s.res && is_some value;
      values = s.values ++ value ∷ [];
    }

unfoldable pub parse_all {ℓ} : {A : Type ℓ} → List ℕ → List (List ℕ → Option A) → Scan A → Scan A
parse_all resp_str [] s = s
parse_all resp_str (parser ∷ parsers) s = parse_all resp_str parsers (parse_next resp_str parser s)

-- What is returned, and the arguments. `return false` gives an optional that holds 0.
unfoldable pub parse_response {ℓ} :
    {A : Type ℓ} → List ℕ → List ℕ → List (List ℕ → Option A) → Option ℕ × List (Option A)
parse_response response cmd parsers = elim (find cmd response) [
  | none ↦ (some 0, [])
  | some i ↦
      let start = i + length cmd + 2 in
      let s =
        parse_all response parsers
          (record { start = start; end_pos = start; res = true; values = [] }) in
      (if s.res then some s.end_pos else none, s.values)
]

-- The first and the last place of a byte.
unfoldable pub find_first : ℕ → List ℕ → Option ℕ
find_first c [] = none
find_first c (b ∷ bs) =
    let rest = find_first c bs in
    if b == c then some 0 else elim rest [ none ↦ none | some i ↦ some (suc i) ]

unfoldable pub find_last : ℕ → List ℕ → Option ℕ
find_last c [] = none
find_last c (b ∷ bs) =
    let rest = find_last c bs in
    elim rest [ none ↦ if b == c then some 0 else none | some i ↦ some (suc i) ]

-- `ParseArg` of a string, which stands in quotes.
unfoldable pub parse_string : List ℕ → Option (List ℕ)
parse_string arg = elim (find_first 34 arg) [
  | none ↦ none
  | some start ↦ elim (find_last 34 arg) [
    | none ↦ none
    | some last ↦ some (take (sub_size (sub_size last start) 1) (drop (start + 1) arg))
  ]
]

-- `SendATCommand`: its result, none for the error -1, what is written to the port, and the bytes of
-- the static buffer.
pub record Sent : Type 0 where
  pub result : Option ℕ
  pub written : List (List ℕ)
  pub buffer : List ℕ

-- `buffer` is the static array of 1024 bytes. None is a command that breaks the assertion on its size.
unfoldable pub send_at_command : Bool → List ℕ → List ℕ → Option Sent
send_at_command is_open buffer command =
    let filled = command ++ 13 ∷ 10 ∷ drop (length command + 2) buffer in
    if not is_open
    then some (record { result = none; written = []; buffer = buffer })
    else if ltb (length command + 2) (length buffer)
    then some (record { result = some (length command); written = filled ∷ []; buffer = filled })
    else none
