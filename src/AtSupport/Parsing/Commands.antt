-- ===== src/AtSupport/Parsing/Commands.antt =====
-- at_support.cpp: what `SendATCommand` writes, and strings in quotes.
use aether_client_cpp.Prelude.{
  ℕ, zero, suc, ◌+◌, ◌≤◌, ◌<◌, ◌≡◌, refl, ap, ◌∙◌, arith, true, List, [], ◌∷◌, ◌++◌, Option, none,
  some, length, take, drop, take-append_left, length-append, length-drop,
}
use aether_client_cpp.Prelude.Sizes.{sub_size, size_mod}
use aether_client_cpp.AtSupport.Parsing.{find_first, find_last, parse_string, Sent, send_at_command}

drop-append : (n : ℕ) (xs ys : List ℕ) → n ≤ length xs → drop n (xs ++ ys) ≡ drop n xs ++ ys
drop-append zero xs ys h = refl
drop-append (suc n) [] ys h = absurd (omega (arith, h))
drop-append (suc n) (x ∷ xs) ys h = drop-append n xs ys (omega (arith, h))

-- A command that is sent after another one, to an open port.
abbrev pub send_next : Option Sent → List ℕ → Option Sent
send_next none command = none
send_next (some s) command = send_at_command true s.buffer command

-- A command that fits in the static buffer.
send_at_command-fits :
    (buffer command : List ℕ)
    → length command + 2 < length buffer
    → send_at_command true buffer command
      ≡ some (
          let filled = command ++ 13 ∷ 10 ∷ drop (length command + 2) buffer in
          record { result = some (length command); written = filled ∷ []; buffer = filled })
unfolding send_at_command
send_at_command-fits buffer command h = ground (arith, h)

-- When the port is open and the buffer has 1024 bytes, let a command and then a second one be sent,
-- of which the first one fits, with its line end and at least one byte to spare, and is longer by
-- two bytes or more. Then both are sent, and for the second one the whole buffer is written, 1024
-- bytes: the command and its line end, the rest of the first command, its line end, and the rest of
-- the buffer.
pub send-stale :
    (buffer long short : List ℕ)
    → length buffer ≡ 1024
    → length long + 2 < 1024
    → length short + 2 ≤ length long
    → let filled =
        short
        ++ 13 ∷ 10 ∷ (drop (length short + 2) long ++ 13 ∷ 10 ∷ drop (length long + 2) buffer) in
      (send_next (send_at_command true buffer long) short
        ≡ some (record { result = some (length short); written = filled ∷ []; buffer = filled }))
      × (length filled ≡ 1024)
send-stale buffer long short size fits h =
    let stale = long ++ 13 ∷ 10 ∷ drop (length long + 2) buffer in
    let rest = drop-append (length short + 2) long (13 ∷ 10 ∷ drop (length long + 2) buffer) h in
    let left = drop (length short + 2) long ++ 13 ∷ 10 ∷ drop (length long + 2) buffer in
    let lengths : length stale ≡ 1024 = omega (
      arith,
      size,
      fits,
      length-append long (13 ∷ 10 ∷ drop (length long + 2) buffer),
      length-drop (length long + 2) buffer,
    ) in
    (
      ap (λ o. send_next o short) (send_at_command-fits buffer long (omega (arith, size, fits)))
          ∙ send_at_command-fits stale short (omega (arith, lengths, fits, h))
          ∙ ap
              (λ l. some (record {
                result = some (length short);
                written = (short ++ 13 ∷ 10 ∷ l) ∷ [];
                buffer = short ++ 13 ∷ 10 ∷ l;
              }))
              rest,
      omega (
        arith,
        lengths,
        h,
        length-append short (13 ∷ 10 ∷ left),
        ap length rest,
        length-drop (length short + 2) stale,
      ),
    )

find_last_end : (v : List ℕ) → find_last 34 (v ++ 34 ∷ []) ≡ some (length v)
unfolding find_last
find_last_end [] = refl
find_last_end (b ∷ v) = ground (arith, find_last_end v)

-- A string of any bytes, quotes too, that stands in quotes is read back.
pub parse_string-quoted :
    (v : List ℕ) → length v + 2 < size_mod → parse_string (34 ∷ v ++ 34 ∷ []) ≡ some v
unfolding parse_string find_first find_last
parse_string-quoted v h =
    rw (parse_string, find_last_end v)
      (ap (λ (n : ℕ). some (take n (v ++ 34 ∷ []))) {x = sub_size (sub_size (suc (length v)) 0) 1}
          {y = length v} (omega (arith, h))
        ∙ ap some (take-append_left v (34 ∷ [])))
