-- ===== src/AtBuffer.antt =====
-- aether/serial_ports/at_support/at_buffer.cpp: the lines that a serial modem answered. A list
-- iterator is the list of the lines from it on. `log` holds the lines from the iterator that each
-- update event carries.
use aether_client_cpp.Prelude.{
  ℕ, zero, suc, ◌+◌, ◌-◌, ◌^◌, leb, ltb, ◌==◌, min, Bool, true, false, ◌&&◌, if◌then◌else◌, List,
  [], ◌∷◌, ◌++◌, Option, none, some, length, take, drop,
}
pub mod Crate
pub mod Lines

pub record AtBuffer : Type 0 where
  pub data_lines : List (List ℕ)
  pub log : List (List (List ℕ))

-- `std::string_view::find`, of a pattern at the front and at the first place.
unfoldable pub starts_with : List ℕ → List ℕ → Bool
starts_with [] xs = true
starts_with (p ∷ ps) [] = false
starts_with (p ∷ ps) (x ∷ xs) = (p == x) && starts_with ps xs

unfoldable pub find : List ℕ → List ℕ → Option ℕ
find pattern [] = if starts_with pattern [] then some 0 else none
find pattern (x ∷ xs) =
    let rest = find pattern xs in
    if starts_with pattern (x ∷ xs)
    then some 0
    else elim rest [ none ↦ none | some n ↦ some (suc n) ]

unfoldable pub find_pattern : List ℕ → List (List ℕ) → List (List ℕ)
find_pattern pattern [] = []
find_pattern pattern (line ∷ lines) =
    let rest = find_pattern pattern lines in
    elim (find pattern line) [ none ↦ rest | some n ↦ line ∷ lines ]

-- Whether 64 bits, as a signed number, are negative.
unfoldable pub is_negative : ℕ → Bool
is_negative bits = leb (2 ^ 63) bits

-- The loop of `GetCrate`: the bytes so far, how many remain, as the 64 bits of a signed number, and
-- how many are still skipped. None is a range that ends before it begins.
unfoldable pub crate_loop : ℕ → List ℕ → ℕ → ℕ → List (List ℕ) → Option (List ℕ)
crate_loop size res remaining_size copy_offset [] = some res
crate_loop size res remaining_size copy_offset (line ∷ lines) =
    let skipped = crate_loop size res remaining_size (copy_offset - length line) lines in
    let bucket = drop copy_offset line in
    let n = if ltb remaining_size (length bucket) then remaining_size else length bucket in
    let copied = crate_loop size (res ++ take n bucket) (remaining_size - n) 0 lines in
    if ltb (length res) size
    then (if leb (length line) copy_offset
        then skipped
        else if is_negative remaining_size
        then none
        else copied)
    else some res

-- `size` is below 2 ^ 64, and cast to a signed number.
unfoldable pub get_crate : ℕ → ℕ → List (List ℕ) → Option (List ℕ)
get_crate size offset start = crate_loop size [] size offset start

abbrev pub crlf : List ℕ
crlf = 13 ∷ 10 ∷ []

-- Where the line at the front ends, and what follows it.
unfoldable pub line_end : List ℕ → ℕ
line_end data_str = elim (find crlf data_str) [ none ↦ length data_str | some n ↦ n ]

unfoldable pub remove_line : List ℕ → List ℕ
remove_line data_str =
    if line_end data_str == length data_str then [] else drop (line_end data_str + 2) data_str

unfoldable pub add_line : List ℕ → List (List ℕ) → List (List ℕ)
add_line [] lines = lines
add_line (x ∷ xs) lines = (x ∷ xs) ∷ lines

-- The loop of `DataRead`, on fuel: the lines that it adds.
unfoldable pub read_lines : ℕ → List ℕ → List (List ℕ)
read_lines zero data_str = []
read_lines (suc fuel) [] = []
read_lines (suc fuel) (x ∷ xs) =
    add_line (take (line_end (x ∷ xs)) (x ∷ xs)) (read_lines fuel (remove_line (x ∷ xs)))

unfoldable pub data_read : AtBuffer → List ℕ → AtBuffer
data_read b data_str =
    let lines = read_lines (length data_str) data_str in
    record { data_lines = b.data_lines ++ lines; log = b.log ++ lines ∷ [] }
