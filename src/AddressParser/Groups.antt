-- ===== src/AddressParser/Groups.antt =====
-- address_parser.h: `IpV6Parse`, on groups of digits with colons between them.
use aether_client_cpp.Prelude.{
  ℕ, zero, suc, ◌+◌, ◌-◌, ◌*◌, ◌%◌, ◌<◌, ◌≤◌, ◌≡◌, refl, sym, ap, ap₂, subst, ◌∙◌, arith, leb, ltb,
  ◌==◌, ◌&&◌, Bool, true, false, if◌then◌else◌, List, [], ◌∷◌, ◌++◌, append_assoc, append-nil, none,
  some, length, length-append, All, Bool-cases, inl, inr,
}
use aether_client_cpp.Prelude.Sizes.{to_uint16}
use aether_client_cpp.AddressParser.{
  ip_v6, is_x_digit, from_hex, set_at, ip_v4_parse, segment_loop, Scan, overruns, goes_on, store,
  colon, ip_v6_round, Parsed, overrun, parsed, ip_v6_loop, apply_compression, to_bytes, no_segments,
  ip_v6_address, ip_v6_parse, Result, overran, done, string_to_address,
}

-- The number that hexadecimal digits write, behind a number.
unfoldable pub hex_number : ℕ → List ℕ → ℕ
hex_number n [] = n
hex_number n (d ∷ ds) = hex_number (n * 16 + from_hex d) ds

unfoldable pub all_hex : List ℕ → Bool
all_hex [] = true
all_hex (d ∷ ds) = is_x_digit d && all_hex ds

-- One to four hexadecimal digits.
abbrev pub IsGroup : List ℕ → Type 0
IsGroup g = (0 < length g) × (length g ≤ 4) × (all_hex g ≡ true)

-- The groups with colons between them.
unfoldable pub joined : List (List ℕ) → List ℕ
joined [] = []
joined (g ∷ []) = g
joined (g ∷ h ∷ gs) = g ++ 58 ∷ joined (h ∷ gs)

-- The end of a segment: the end of the text, or a colon.
unfoldable ends_segment : List ℕ → Bool
ends_segment [] = true
ends_segment (c ∷ cs) = c == 58

from_hex_lt : (c : ℕ) → is_x_digit c ≡ true → from_hex c < 16
unfolding is_x_digit from_hex
from_hex_lt c h = ground (arith, h)

shifted : (n f : ℕ) → f < 16 → to_uint16 (n % 65536 * 16) + f ≡ (n * 16 + f) % 65536
shifted n f h = omega (arith, h)

pub hex_digit_lem : (c : ℕ) → is_x_digit c ≡ true → ((c == 58) ≡ false) × ((c == 10) ≡ false)
unfolding is_x_digit
hex_digit_lem c h = (ground (arith, h), ground (arith, h))

no_digits_left :
    (n : ℕ) (ds rest : List ℕ)
    → length ds ≡ 0
    → ◌≡◌ {A = ℕ × List ℕ} (n % 65536, ds ++ rest) (hex_number n ds % 65536, rest)
unfolding hex_number
no_digits_left n [] rest h = refl
no_digits_left n (d ∷ ds) rest h = absurd (omega (arith, h))

segment_lem :
    (ds rest : List ℕ) (n k : ℕ)
    → all_hex ds ≡ true
    → length ds + k ≤ 4
    → ends_segment rest ≡ true
    → segment_loop (ds ++ rest) (n % 65536) k ≡ some (hex_number n ds % 65536, rest)
unfolding segment_loop hex_number all_hex ends_segment
segment_lem [] [] n k h l e = refl
segment_lem [] (c ∷ cs) n k h l e = ground (arith, e)
segment_lem (d ∷ ds) rest n k h l e =
    let hex : is_x_digit d ≡ true = ground (arith, h) in
    let more : all_hex ds ≡ true = ground (arith, h) in
    let value = shifted n (from_hex d) (from_hex_lt d hex) in
    let (not_colon, not_end) = hex_digit_lem d hex in
    let next = n * 16 + from_hex d in
    elim (Bool-cases (leb 4 (k + 1))) [
      | inl last ↦
          rw (segment_loop, not_colon, not_end, hex, last, value)
            (ap some (no_digits_left next ds rest (ground (arith, last, l))))
      | inr before ↦
          rw (segment_loop, not_colon, not_end, hex, before, value)
            (segment_lem ds rest next (k + 1) more (omega (arith, l)) e)
    ]

-- A scan with one more segment.
abbrev stored : Scan → List ℕ → Scan
stored s g = record s {
  segments = set_at s.seg_index (hex_number 0 g % 65536) s.segments;
  seg_index = s.seg_index + 1;
}

-- A group where a segment may begin.
group_round :
    (d : ℕ) (ds rest : List ℕ) (s : Scan)
    → IsGroup (d ∷ ds)
    → ends_segment rest ≡ true
    → s.seg_index ≤ 8
    → ip_v6_round d (ds ++ rest) s
      ≡ (if leb 8 s.seg_index then overruns else goes_on rest (stored s (d ∷ ds)))
unfolding ip_v6_round store all_hex
group_round d ds rest s (long, short, h) e l =
    let hex : is_x_digit d ≡ true = ground (arith, h) in
    let (not_colon, not_end) = hex_digit_lem d hex in
    let inside : ltb 8 s.seg_index ≡ false = ground (arith, l) in
    rw
      (
        ip_v6_round,
        inside,
        not_colon,
        not_end,
        segment_lem (d ∷ ds) rest 0 0 h (omega (arith, short)) e,
      )
      refl

-- A colon between two groups.
colon_round :
    (g : List ℕ) (rest : List ℕ) (s : Scan)
    → IsGroup g
    → 0 < s.seg_index
    → s.seg_index ≤ 8
    → ip_v6_round 58 (g ++ rest) s ≡ goes_on (g ++ rest) s
unfolding ip_v6_round colon all_hex
colon_round [] rest s (long, short, h) p l = absurd (omega (arith, long))
colon_round (d ∷ ds) rest s (long, short, h) p l =
    let hex : is_x_digit d ≡ true = ground (arith, h) in
    let (not_colon, not_end) = hex_digit_lem d hex in ground (arith, not_colon, p, l)

-- What the loop makes of groups.
unfoldable pub filled : List (List ℕ) → Scan → Parsed
filled [] s = parsed s
filled (g ∷ gs) s = let rest = filled gs (stored s g) in if leb 8 s.seg_index then overrun else rest

loop_nil : (fuel : ℕ) (s : Scan) → ip_v6_loop fuel [] s ≡ parsed s
unfolding ip_v6_loop
loop_nil zero s = refl
loop_nil (suc fuel) s = refl

joined_front : (g : List ℕ) (gs : List (List ℕ)) → (rest : List ℕ) × (joined (g ∷ gs) ≡ g ++ rest)
unfolding joined
joined_front g [] = ([], sym (append-nil g))
joined_front g (h ∷ gs) = (58 ∷ joined (h ∷ gs), refl)

loop_colon :
    (fuel : ℕ) (g : List ℕ) (gs : List (List ℕ)) (s : Scan)
    → IsGroup g
    → 0 < s.seg_index
    → s.seg_index ≤ 8
    → length (joined (g ∷ gs)) < fuel
    → ip_v6_loop fuel (58 ∷ joined (g ∷ gs)) s ≡ ip_v6_loop (fuel - 1) (joined (g ∷ gs)) s
unfolding ip_v6_loop
loop_colon zero g gs s a p l f = absurd (omega (arith, f))
loop_colon (suc fuel) g gs s a p l f =
    let (rest, e) = joined_front g gs in
    let round : ip_v6_round 58 (joined (g ∷ gs)) s ≡ goes_on (joined (g ∷ gs)) s =
      subst (λ xs. ip_v6_round 58 xs s ≡ goes_on xs s) (sym e) (colon_round g rest s a p l) in
    rw (ip_v6_loop, round)
      (ap (λ (n : ℕ). ip_v6_loop n (joined (g ∷ gs)) s) {x = fuel} {y = suc fuel - 1} (omega arith))

groups_lem :
    (gs : List (List ℕ)) (g : List ℕ) (fuel : ℕ) (s : Scan)
    → All IsGroup (g ∷ gs)
    → length (joined (g ∷ gs)) ≤ fuel
    → s.seg_index ≤ 8
    → ip_v6_loop fuel (joined (g ∷ gs)) s ≡ filled (g ∷ gs) s
unfolding ip_v6_loop joined filled ends_segment
groups_lem gs [] fuel s a f l = absurd (omega (arith, a.0.0))
groups_lem [] (d ∷ ds) zero s a f l = absurd (omega (arith, f))
groups_lem (h ∷ gs) (d ∷ ds) zero s a f l = absurd (omega (arith, f))
groups_lem [] (d ∷ ds) (suc fuel) s a f l =
    let round =
      ap (λ xs. ip_v6_round d xs s) (sym (append-nil ds)) ∙ group_round d ds [] s a.0 refl l in
    elim (Bool-cases (leb 8 s.seg_index)) [
      | inl over ↦ rw (ip_v6_loop, round, over) refl
      | inr inside ↦ rw (ip_v6_loop, round, inside) (loop_nil fuel (stored s (d ∷ ds)))
    ]
groups_lem (h ∷ gs) (d ∷ ds) (suc fuel) s a f l =
    let rest = joined (h ∷ gs) in
    let round = group_round d ds (58 ∷ rest) s a.0 refl l in
    let s1 = stored s (d ∷ ds) in
    let len = length-append ds (58 ∷ rest) in
    elim (Bool-cases (leb 8 s.seg_index)) [
      | inl over ↦ rw (ip_v6_loop, round, over) refl
      | inr inside ↦
          let more : s1.seg_index ≤ 8 = ground (arith, inside) in
          rw (ip_v6_loop, round, inside)
            (loop_colon fuel h gs s1 a.1.0 (omega arith) more (omega (arith, f, len))
              ∙ groups_lem gs h (fuel - 1) s1 a.1 (omega (arith, f, len)) more)
    ]

unfoldable pub zeros : ℕ → List ℕ
zeros zero = []
zeros (suc n) = 0 ∷ zeros n

abbrev pub group_values : List (List ℕ) → List ℕ
group_values [] = []
group_values (g ∷ gs) = hex_number 0 g % 65536 ∷ group_values gs

set_at-append :
    (pre : List ℕ) (v m : ℕ)
    → set_at (length pre) v (pre ++ zeros (suc m)) ≡ (pre ++ v ∷ []) ++ zeros m
unfolding set_at zeros
set_at-append [] v m = refl
set_at-append (x ∷ pre) v m = ap (◌∷◌ x) (set_at-append pre v m)

-- The address of groups that go behind `pre`, where `n` segments are left.
abbrev address_of : List ℕ → ℕ → List (List ℕ) → Result
address_of pre n gs =
    if leb (length gs) n
    then done (some (to_bytes (pre ++ (group_values gs ++ zeros (n - length gs)))))
    else overran

address_step :
    (pre : List ℕ) (v m : ℕ) (gs : List (List ℕ)) (g : List ℕ)
    → hex_number 0 g % 65536 ≡ v
    → address_of (pre ++ v ∷ []) m gs ≡ address_of pre (suc m) (g ∷ gs)
address_step pre v m gs g e =
    let fits : leb (length gs) m ≡ leb (suc (length gs)) (suc m) = ground arith in
    let left : zeros (m - length gs) ≡ zeros (suc m - suc (length gs)) = ap zeros (omega arith) in
    let rest = ap (λ (xs : List ℕ). pre ++ (v ∷ (group_values gs ++ xs))) left in
    let same =
      ap (λ (w : ℕ). pre ++ (w ∷ (group_values gs ++ zeros (suc m - suc (length gs))))) (sym e) in
    ap₂ (λ (b : Bool) (xs : List ℕ). if b then done (some (to_bytes xs)) else overran) fits
      (append_assoc pre (v ∷ []) (group_values gs ++ zeros (m - length gs)) ∙ rest ∙ same)

filled_lem :
    (gs : List (List ℕ)) (pre : List ℕ) (n : ℕ) (s : Scan)
    → s.segments ≡ pre ++ zeros n
    → s.seg_index ≡ length pre
    → length pre + n ≡ 8
    → s.has_compression ≡ false
    → ip_v6_address (filled gs s) ≡ address_of pre n gs
unfolding filled ip_v6_address apply_compression
filled_lem [] pre n s e i l c =
    let plain : apply_compression s ≡ some s.segments = ground (arith, c) in
    let fits : leb 0 n ≡ true = ground arith in
    rw (ip_v6_address, plain, e, fits)
      (ap (λ (k : ℕ). done (some (to_bytes (pre ++ zeros k)))) {x = n} {y = n - 0} (omega arith))
filled_lem (g ∷ gs) pre zero s e i l c =
    let over : leb 8 s.seg_index ≡ true = ground (arith, i, l) in
    let many : leb (suc (length gs)) 0 ≡ false = ground arith in rw (filled, over, many) refl
filled_lem (g ∷ gs) pre (suc m) s e i l c =
    let v = hex_number 0 g % 65536 in
    let inside : leb 8 s.seg_index ≡ false = ground (arith, i, l) in
    let len = length-append pre (v ∷ []) in
    let at = ap₂ (λ (k : ℕ) xs. set_at k v xs) i e ∙ set_at-append pre v m in
    let rest =
      filled_lem gs (pre ++ v ∷ []) m (stored s g) at (omega (arith, i, len))
        (omega (arith, l, len)) c in
    rw (filled, inside) (rest ∙ address_step pre v m gs g refl)

-- A text that is not taken for an IPv4 address, of one or more groups of one to four hexadecimal
-- digits with colons between them, is taken for an IPv6 address if there are at most eight: its
-- bytes are those of the groups' numbers, and then of zeros. With more groups the parsing writes
-- past the end of its array.
pub string_to_address-groups :
    (g : List ℕ) (gs : List (List ℕ))
    → All IsGroup (g ∷ gs)
    → ip_v4_parse (joined (g ∷ gs)) ≡ none
    → string_to_address (joined (g ∷ gs)) ≡ (
        if leb (length (g ∷ gs)) 8
        then some (ip_v6 (to_bytes (group_values (g ∷ gs) ++ zeros (8 - length (g ∷ gs)))))
        else none)
unfolding string_to_address ip_v6_parse zeros
string_to_address-groups g gs a no_v4 =
    let text = joined (g ∷ gs) in
    let loop = groups_lem gs g (length text) no_segments a (omega arith) (omega arith) in
    let result = ap ip_v6_address loop ∙ filled_lem (g ∷ gs) [] 8 no_segments refl refl refl refl in
    rw (string_to_address, no_v4, result) (ground arith)
