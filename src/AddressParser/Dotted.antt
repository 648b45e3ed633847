-- ===== src/AddressParser/Dotted.antt =====
-- address_parser.h: `IpV4Parse`, on digits with points between them.
use aether_client_cpp.Prelude.{
  ℕ, zero, suc, ◌+◌, ◌-◌, ◌*◌, ◌%◌, ◌<◌, ◌≡◌, refl, sym, ap, ◌∙◌, arith, ◌&&◌, Bool, true, List, [],
  ◌∷◌, ◌++◌, append-nil, some, length, get_or,
}
use aether_client_cpp.Prelude.Sizes.{to_uint8}
use aether_client_cpp.AddressParser.{
  ip_v4, is_digit, set_at, ip_v4_loop, ip_v4_parse, string_to_address,
}

-- The number that digits write, behind a number.
unfoldable pub number : ℕ → List ℕ → ℕ
number n [] = n
number n (d ∷ ds) = number (n * 10 + (d - 48)) ds

unfoldable pub all_digits : List ℕ → Bool
all_digits [] = true
all_digits (d ∷ ds) = is_digit d && all_digits ds

all_digits-append :
    (xs ys : List ℕ)
    → all_digits (xs ++ ys) ≡ true
    → (all_digits xs ≡ true) × (all_digits ys ≡ true)
unfolding all_digits
all_digits-append [] ys h = (refl, h)
all_digits-append (x ∷ xs) ys h =
    let (first, rest) = all_digits-append xs ys (ground (arith, h)) in
    (ground (arith, h, first), rest)

number_mod : (ds : List ℕ) (m n : ℕ) → m % 256 ≡ n % 256 → number m ds % 256 ≡ number n ds % 256
unfolding number
number_mod [] m n h = h
number_mod (d ∷ ds) m n h = number_mod ds (m * 10 + (d - 48)) (n * 10 + (d - 48)) (omega (arith, h))

set_at_same : (i : ℕ) (a : List ℕ) → set_at i (get_or a i 0) a ≡ a
unfolding set_at
set_at_same i [] = refl
set_at_same zero (x ∷ xs) = refl
set_at_same (suc i) (x ∷ xs) = ap (◌∷◌ x) (set_at_same i xs)

set_at_twice : (i v w : ℕ) (a : List ℕ) → set_at i v (set_at i w a) ≡ set_at i v a
unfolding set_at
set_at_twice i v w [] = refl
set_at_twice zero v w (x ∷ xs) = refl
set_at_twice (suc i) v w (x ∷ xs) = ap (◌∷◌ x) (set_at_twice i v w xs)

get_or-set_at : (i v : ℕ) (a : List ℕ) → i < length a → get_or (set_at i v a) i 0 ≡ v
unfolding set_at
get_or-set_at i v [] h = absurd (omega (arith, h))
get_or-set_at zero v (x ∷ xs) h = refl
get_or-set_at (suc i) v (x ∷ xs) h = get_or-set_at i v xs (omega (arith, h))

length-set_at : (i v : ℕ) (a : List ℕ) → length (set_at i v a) ≡ length a
unfolding set_at
length-set_at i v [] = refl
length-set_at zero v (x ∷ xs) = refl
length-set_at (suc i) v (x ∷ xs) = ap suc (length-set_at i v xs)

-- Digits go to the element at the index.
digits_lem :
    (ds rest : List ℕ) (i : ℕ) (a : List ℕ)
    → all_digits ds ≡ true
    → i < length a
    → get_or a i 0 < 256
    → ip_v4_loop (ds ++ rest) i a ≡ ip_v4_loop rest i (set_at i (number (get_or a i 0) ds % 256) a)
unfolding ip_v4_loop number all_digits is_digit
digits_lem [] rest i a h l b =
    ap (ip_v4_loop rest i) (sym (set_at_same i a) ∙ ap (λ (v : ℕ). set_at i v a) (omega (arith, b)))
digits_lem (d ∷ ds) rest i a h l b =
    let v = to_uint8 (get_or a i 0 * 10 + (d - 48)) in
    let a1 = set_at i v a in
    let got = get_or-set_at i v a l in
    let here : ip_v4_loop (d ∷ (ds ++ rest)) i a ≡ ip_v4_loop (ds ++ rest) i a1 =
      ground (arith, h) in
    let next =
      digits_lem ds rest i a1 (ground (arith, h)) (omega (arith, l, length-set_at i v a))
        (omega (arith, got)) in
    let same : number (get_or a1 i 0) ds % 256 ≡ number (get_or a i 0 * 10 + (d - 48)) ds % 256 =
      number_mod ds (get_or a1 i 0) (get_or a i 0 * 10 + (d - 48)) (omega (arith, got)) in
    here
    ∙ next
    ∙ ap (λ (w : ℕ). ip_v4_loop rest i (set_at i w a1)) same
    ∙ ap (ip_v4_loop rest i) (set_at_twice i (number (get_or a i 0 * 10 + (d - 48)) ds % 256) v a)

-- A text of four rows of digits with points between them, of any length and also empty ones, is
-- taken for an IPv4 address, whose bytes are their numbers modulo 256.
pub string_to_address-dotted :
    (d0 d1 d2 d3 : List ℕ)
    → all_digits (d0 ++ d1 ++ d2 ++ d3) ≡ true
    → string_to_address (d0 ++ 46 ∷ (d1 ++ 46 ∷ (d2 ++ 46 ∷ d3)))
      ≡ some (
          ip_v4
            (number 0 d0 % 256 ∷ number 0 d1 % 256 ∷ number 0 d2 % 256 ∷ number 0 d3 % 256 ∷ []))
unfolding string_to_address ip_v4_parse ip_v4_loop set_at
string_to_address-dotted d0 d1 d2 d3 h =
    let v0 = number 0 d0 % 256 in
    let v1 = number 0 d1 % 256 in
    let v2 = number 0 d2 % 256 in
    let (h012, h3) = all_digits-append (d0 ++ d1 ++ d2) d3 h in
    let (h01, h2) = all_digits-append (d0 ++ d1) d2 h012 in
    let (h0, h1) = all_digits-append d0 d1 h01 in
    let r3 = digits_lem d3 [] 3 (v0 ∷ v1 ∷ v2 ∷ 0 ∷ []) h3 (omega arith) (omega arith) in
    let r2 = digits_lem d2 (46 ∷ d3) 2 (v0 ∷ v1 ∷ 0 ∷ 0 ∷ []) h2 (omega arith) (omega arith) in
    let r1 =
      digits_lem d1 (46 ∷ (d2 ++ 46 ∷ d3)) 1 (v0 ∷ 0 ∷ 0 ∷ 0 ∷ []) h1 (omega arith) (omega arith) in
    let r0 =
      digits_lem d0 (46 ∷ (d1 ++ 46 ∷ (d2 ++ 46 ∷ d3))) 0 (0 ∷ 0 ∷ 0 ∷ 0 ∷ []) h0 (omega arith)
        (omega arith) in
    let end3 =
      ap (λ (ds : List ℕ). ip_v4_loop ds 3 (v0 ∷ v1 ∷ v2 ∷ 0 ∷ [])) (sym (append-nil d3)) in
    rw (string_to_address, r0 ∙ r1 ∙ r2 ∙ end3 ∙ r3) refl
