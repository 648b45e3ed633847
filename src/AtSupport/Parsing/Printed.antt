-- ===== src/AtSupport/Parsing/Printed.antt =====
-- at_support.h: `ParseResponse`, on an answer that is printed from its arguments.
use aether_client_cpp.Prelude.{
  ℕ, ◌+◌, ◌-◌, ◌<◌, ◌≡◌, refl, sym, ap, subst, ◌∙◌, arith, leb, ◌&&◌, not, Bool, true, false, List,
  [], ◌∷◌, ◌++◌, append_assoc, Option, none, some, length, take, drop, All, length-append,
  take-append_left, drop-append_left,
}
use aether_client_cpp.AtBuffer.{starts_with, find}
use aether_client_cpp.AtSupport.Parsing.{
  is_separator, token_length, Scan, call_parser, parse_next, parse_all, parse_response,
}

unfoldable pub no_separator : List ℕ → Bool
no_separator [] = true
no_separator (b ∷ bs) = not (is_separator b) && no_separator bs

-- An argument: its parser, its text and its value.
pub record Argument {ℓ} (A : Type ℓ) : Type ℓ where
  pub parser : List ℕ → Option A
  pub text : List ℕ
  pub value : A

-- Its text is not empty and without a separator, and its parser reads its value.
abbrev pub IsArgument {ℓ} : {A : Type ℓ} → Argument A → Type ℓ
IsArgument a = (0 < length a.text) × (no_separator a.text ≡ true) × (a.parser a.text ≡ some a.value)

module _ {ℓ} {A : Type ℓ} where
  -- The arguments with a comma between each two, and then the rest.
  unfoldable pub printed : List (Argument A) → List ℕ → List ℕ
  printed [] rest = rest
  printed (a ∷ []) rest = a.text ++ rest
  printed (a ∷ b ∷ args) rest = a.text ++ 44 ∷ printed (b ∷ args) rest

  abbrev pub parsers : List (Argument A) → List (List ℕ → Option A)
  parsers [] = []
  parsers (a ∷ args) = a.parser ∷ parsers args

  abbrev pub read_values : List (Argument A) → List (Option A)
  read_values [] = []
  read_values (a ∷ args) = some a.value ∷ read_values args

token_length_lem :
    (text rest : List ℕ)
    → no_separator text ≡ true
    → token_length rest ≡ 0
    → token_length (text ++ rest) ≡ length text
unfolding token_length no_separator
token_length_lem [] rest h r = r
token_length_lem (b ∷ text) rest h r = ground (arith, h, token_length_lem text rest, r)

starts_with_front : (cmd rest : List ℕ) → starts_with cmd (cmd ++ rest) ≡ true
unfolding starts_with
starts_with_front [] rest = refl
starts_with_front (b ∷ cmd) rest = ground (arith, starts_with_front cmd rest)

find_front : (cmd rest : List ℕ) → find cmd (cmd ++ rest) ≡ some 0
unfolding find starts_with
find_front [] [] = refl
find_front [] (b ∷ rest) = refl
find_front (b ∷ cmd) rest = ground (arith, starts_with_front cmd rest)

module _ {ℓ} {A : Type ℓ} where
  -- An argument behind `pre`, and then a rest that starts with a separator or is empty.
  parse_next_lem :
      (pre rest : List ℕ) (a : Argument A) (s : Scan A)
      → s.start ≡ length pre
      → s.res ≡ true
      → IsArgument a
      → token_length rest ≡ 0
      → let e = length pre + length a.text in
        parse_next (pre ++ (a.text ++ rest)) a.parser s
        ≡ record { start = e + 1; end_pos = e; res = true; values = s.values ++ some a.value ∷ [] }
  unfolding parse_next call_parser
  parse_next_lem pre rest a s at ok (long, whole, reads) r =
      let resp = pre ++ (a.text ++ rest) in
      let dropped : drop (length pre) resp ≡ a.text ++ rest =
        drop-append_left pre (a.text ++ rest) in
      let far = token_length_lem a.text rest whole r in
      let taken : take (length pre + length a.text - length pre) (a.text ++ rest) ≡ a.text =
        ap (λ (n : ℕ). take n (a.text ++ rest)) {y = length a.text} (omega arith)
        ∙ take-append_left a.text rest in
      let inside : leb (length resp) (length pre) ≡ false =
        ground (arith, length-append pre (a.text ++ rest), length-append a.text rest, long) in
      let further : leb (length pre + length a.text) (length pre) ≡ false = ground (arith, long) in
      rw (parse_next, at, dropped, far, taken, inside, further, ok, reads) refl

  -- Where all the arguments behind `pre` are read to.
  abbrev IsRead : List ℕ → List (Argument A) → Scan A → Scan A → Type ℓ
  IsRead pre args s t =
      (t.res ≡ true)
      × (t.values ≡ s.values ++ read_values args)
      × (t.end_pos ≡ length pre + length (printed args []))

  parse_all_lem :
      (pre rest : List ℕ) (a : Argument A) (args : List (Argument A)) (s : Scan A)
      → s.start ≡ length pre
      → s.res ≡ true
      → All IsArgument (a ∷ args)
      → token_length rest ≡ 0
      → IsRead pre (a ∷ args) s (parse_all (pre ++ printed (a ∷ args) rest) (parsers (a ∷ args)) s)
  unfolding parse_all printed
  parse_all_lem pre rest a [] s at ok (one, _) r =
      rw (parse_next_lem pre rest a s at ok one r)
        ((refl, refl, omega (arith, length-append a.text [])))
  parse_all_lem pre rest a (b ∷ args) s at ok (one, more) r =
      let left = printed (b ∷ args) rest in
      let next =
        parse_next_lem pre (44 ∷ left) a s at ok one (unfold token_length is_separator in refl) in
      let pre1 = pre ++ (a.text ++ 44 ∷ []) in
      let same : pre1 ++ left ≡ pre ++ (a.text ++ 44 ∷ left) =
        append_assoc pre (a.text ++ 44 ∷ []) left
        ∙ ap (λ (xs : List ℕ). pre ++ xs) (append_assoc a.text (44 ∷ []) left) in
      let s1 : Scan A = record {
        start = length pre + length a.text + 1;
        end_pos = length pre + length a.text;
        res = true;
        values = s.values ++ some a.value ∷ [];
      } in
      let far = length-append pre (a.text ++ 44 ∷ []) in
      let near = length-append a.text (44 ∷ []) in
      let (r1, v1, e1) = parse_all_lem pre1 rest b args s1 (omega (arith, far, near)) refl more r in
      let moved = ap (λ (xs : List ℕ). parse_all xs (parsers (b ∷ args)) s1) (sym same) in
      let resp = pre ++ (a.text ++ 44 ∷ left) in
      let whole : parse_all resp (parsers (a ∷ b ∷ args)) s
          ≡ parse_all (pre1 ++ left) (parsers (b ∷ args)) s1 =
        ap (λ u. parse_all resp (parsers (b ∷ args)) u) next ∙ moved in
      subst (IsRead pre (a ∷ b ∷ args) s) (sym whole) (
        r1,
        v1 ∙ append_assoc s.values (some a.value ∷ []) (read_values (b ∷ args)),
        omega (arith, e1, far, near, length-append a.text (44 ∷ printed (b ∷ args) [])),
      )

  -- When an answer is a command, two bytes, and then arguments that are not empty, hold no
  -- separator and are read by their parsers, with commas between them and at the end a separator or
  -- nothing: all of them are read, and the place behind the last is returned.
  pub parse_response-printed :
      (cmd : List ℕ) (x y : ℕ) (a : Argument A) (args : List (Argument A)) (rest : List ℕ)
      → All IsArgument (a ∷ args)
      → token_length rest ≡ 0
      → parse_response (cmd ++ x ∷ y ∷ printed (a ∷ args) rest) cmd (parsers (a ∷ args))
        ≡ (some (length cmd + 2 + length (printed (a ∷ args) [])), read_values (a ∷ args))
  unfolding parse_response
  parse_response-printed cmd x y a args rest h r =
      let pre = cmd ++ x ∷ y ∷ [] in
      let start = 0 + length cmd + 2 in
      let s : Scan A = record { start = start; end_pos = start; res = true; values = [] } in
      let here = length-append cmd (x ∷ y ∷ []) in
      let (r1, v1, e1) = parse_all_lem pre rest a args s (omega (arith, here)) refl h r in
      let same = append_assoc cmd (x ∷ y ∷ []) (printed (a ∷ args) rest) in
      let moved = ap (λ (xs : List ℕ). parse_all xs (parsers (a ∷ args)) s) same in
      rw (parse_response, find_front cmd (x ∷ y ∷ printed (a ∷ args) rest), ← moved, r1, v1)
        (ap (λ (n : ℕ). (some n, read_values (a ∷ args))) (omega (arith, e1, here)))

-- When an answer does not hold the command, the result is not empty: it says that everything up to
-- the place 0 was read, and no argument is assigned.
pub parse_response_missing {ℓ} :
    {A : Type ℓ} (response cmd : List ℕ) (parsers : List (List ℕ → Option A))
    → find cmd response ≡ none
    → parse_response response cmd parsers ≡ (some 0, [])
unfolding parse_response
parse_response_missing response cmd parsers h = ground (arith, h)
