-- ===== src/AtBuffer/Lines.antt =====
-- at_buffer.cpp: `DataRead`, on lines that end with a carriage return and a line feed.
use aether_client_cpp.Prelude.{
  ℕ, zero, suc, ◌+◌, ◌≤◌, ◌<◌, ◌≡◌, refl, arith, ap, ◌∙◌, ◌==◌, not, ◌&&◌, Bool, true, List, [],
  ◌∷◌, ◌++◌, some, length, take, drop, All, length-append,
}
use aether_client_cpp.AtBuffer.{
  AtBuffer, starts_with, find, crlf, line_end, remove_line, add_line, read_lines, data_read,
}

-- The bytes of lines, each with its end.
unfoldable pub printed : List (List ℕ) → List ℕ
printed [] = []
printed (line ∷ lines) = line ++ 13 ∷ 10 ∷ printed lines

unfoldable pub no_return : List ℕ → Bool
no_return [] = true
no_return (x ∷ xs) = not (x == 13) && no_return xs

-- A line: not empty, without a carriage return.
abbrev pub IsLine : List ℕ → Type 0
IsLine line = (0 < length line) × (no_return line ≡ true)

find_lem :
    (line rest : List ℕ)
    → no_return line ≡ true
    → find crlf (line ++ 13 ∷ 10 ∷ rest) ≡ some (length line)
unfolding find starts_with no_return
find_lem [] rest h = ground arith
find_lem (x ∷ xs) rest h = ground (arith, find_lem xs rest)

take_front : (xs ys : List ℕ) → take (length xs) (xs ++ ys) ≡ xs
take_front [] ys = refl
take_front (x ∷ xs) ys = ap (◌∷◌ x) (take_front xs ys)

drop_front : (xs ys : List ℕ) (n : ℕ) → drop (length xs + n) (xs ++ ys) ≡ drop n ys
drop_front [] ys n = ap (λ (k : ℕ). drop k ys) {x = 0 + n} {y = n} (omega arith)
drop_front (x ∷ xs) ys n =
    ap (λ (k : ℕ). drop k (x ∷ xs ++ ys)) {x = suc (length xs) + n} {y = suc (length xs + n)}
      (omega arith)
    ∙ drop_front xs ys n

line_end_lem :
    (line rest : List ℕ) → no_return line ≡ true → line_end (line ++ 13 ∷ 10 ∷ rest) ≡ length line
unfolding line_end
line_end_lem line rest h = ground (arith, find_lem line rest h)

remove_line_lem :
    (line rest : List ℕ) → no_return line ≡ true → remove_line (line ++ 13 ∷ 10 ∷ rest) ≡ rest
unfolding remove_line
remove_line_lem line rest h = ground (
  arith,
  line_end_lem line rest h,
  length-append line (13 ∷ 10 ∷ rest),
  drop_front line (13 ∷ 10 ∷ rest) 2,
)

read_lines_lem :
    (fuel : ℕ) (lines : List (List ℕ))
    → length (printed lines) ≤ fuel
    → All IsLine lines
    → read_lines fuel (printed lines) ≡ lines
unfolding read_lines printed add_line
read_lines_lem zero [] h a = refl
read_lines_lem (suc fuel) [] h a = refl
read_lines_lem fuel ([] ∷ lines) h a = absurd (omega (arith, a.0.0))
read_lines_lem zero ((x ∷ xs) ∷ lines) h a = absurd (omega arith)
read_lines_lem (suc fuel) ((x ∷ xs) ∷ lines) h a =
    let rest = printed lines in
    rw
      (
        line_end_lem (x ∷ xs) rest a.0.1,
        remove_line_lem (x ∷ xs) rest a.0.1,
        take_front (x ∷ xs) (13 ∷ 10 ∷ rest),
      )
      (ap (◌∷◌ (x ∷ xs))
        (read_lines_lem fuel lines (omega (arith, length-append xs (13 ∷ 10 ∷ rest))) a.1))

-- When lines arrive that are not empty and hold no carriage return, each followed by a carriage
-- return and a line feed, `DataRead` adds just these lines behind those that are there, and its
-- event points to the first of them.
pub data_read-printed :
    (b : AtBuffer) (lines : List (List ℕ))
    → All IsLine lines
    → data_read b (printed lines)
      ≡ record { data_lines = b.data_lines ++ lines; log = b.log ++ lines ∷ [] }
unfolding data_read
data_read-printed b lines a =
    ap (λ (ls : List (List ℕ)). record { data_lines = b.data_lines ++ ls; log = b.log ++ ls ∷ [] })
      (read_lines_lem (length (printed lines)) lines (omega arith) a)
