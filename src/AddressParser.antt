-- ===== src/AddressParser.antt =====
-- aether/types/address_parser.h: `AddressParser`, on the bytes of a text.
pub mod Dotted
pub mod Groups
use aether_client_cpp.Prelude.{
  ℕ, zero, suc, ◌+◌, ◌-◌, ◌*◌, ◌/◌, ◌%◌, ◌^◌, ltb, leb, ◌==◌, ◌&&◌, ◌||◌, not, Bool, true, false,
  if◌then◌else◌, List, [], ◌∷◌, ◌++◌, Option, none, some, length, get_or,
}
use aether_client_cpp.Prelude.Sizes.{to_uint8, to_uint16, add_size, sub_size}

pub data ParsedAddress : Type 0 where
  ip_v4 ip_v6 named : List ℕ → ParsedAddress

unfoldable pub is_digit : ℕ → Bool
is_digit c = leb 48 c && leb c 57

unfoldable pub is_x_digit : ℕ → Bool
is_x_digit c = (leb 48 c && leb c 57) || (leb 97 c && leb c 102) || (leb 65 c && leb c 70)

-- An element of an array, written.
unfoldable pub set_at : ℕ → ℕ → List ℕ → List ℕ
set_at i v [] = []
set_at zero v (x ∷ xs) = v ∷ xs
set_at (suc i) v (x ∷ xs) = x ∷ set_at i v xs

-- The loop of `IpV4Parse`, from a byte on.
unfoldable pub ip_v4_loop : List ℕ → ℕ → List ℕ → Option (List ℕ)
ip_v4_loop [] triplets_i a = some a
ip_v4_loop (c ∷ cs) triplets_i a =
    let i = if c == 46 then triplets_i + 1 else triplets_i in
    let v = to_uint8 (get_or a triplets_i 0 * 10 + (c - 48)) in
    let rest = ip_v4_loop cs i (if c == 46 then a else set_at triplets_i v a) in
    if c == 10
    then some a
    else if c == 46
    then (if leb 4 i then none else rest)
    else if is_digit c
    then rest
    else none

unfoldable pub ip_v4_parse : List ℕ → Option (List ℕ)
ip_v4_parse addr = ip_v4_loop addr 0 (0 ∷ 0 ∷ 0 ∷ 0 ∷ [])

-- `FromHex` of a digit that `IsXDigit` holds of.
unfoldable pub from_hex : ℕ → ℕ
from_hex c = if leb c 57 then c - 48 else if leb 97 c then c - 97 + 10 else c - 65 + 10

-- The loop over the digits of a segment: its value, and where the outer loop goes on; none is the
-- end of the parsing without a result. The lower bits of the shifted value are zero.
unfoldable pub segment_loop : List ℕ → ℕ → ℕ → Option (ℕ × List ℕ)
segment_loop [] value digits = some (value, [])
segment_loop (c ∷ cs) value digits =
    let v = to_uint16 (value * 16) + from_hex c in
    let rest = segment_loop cs v (digits + 1) in
    if (c == 58) || (c == 10)
    then some (value, c ∷ cs)
    else if not (is_x_digit c)
    then none
    else if leb 4 (digits + 1)
    then some (v, cs)
    else rest

pub record Scan : Type 0 where
  pub segments : List ℕ
  pub seg_index : ℕ
  pub compress_pos : ℕ
  pub has_compression : Bool

-- A round of the loop: it ends, fails, writes past the array, or goes on from a byte.
pub data Round : Type 0 where
  ends fails overruns : Round
  goes_on : List ℕ → Scan → Round

-- `segments[seg_index++] = value`.
unfoldable pub store : Scan → Option (ℕ × List ℕ) → Round
store s none = fails
store s (some (value, rest)) =
    if leb 8 s.seg_index
    then overruns
    else goes_on rest
        (record s { segments = set_at s.seg_index value s.segments; seg_index = s.seg_index + 1 })

-- A colon, and what follows it.
unfoldable pub colon : Scan → List ℕ → Round
colon s [] = if s.seg_index == 0 then fails else goes_on [] s
colon s (c ∷ cs) =
    let compressed = record s { has_compression = true; compress_pos = s.seg_index } in
    if c == 58
    then (if s.has_compression then fails else goes_on cs compressed)
    else if s.seg_index == 0
    then fails
    else goes_on (c ∷ cs) s

unfoldable pub ip_v6_round : ℕ → List ℕ → Scan → Round
ip_v6_round c cs s =
    if ltb 8 s.seg_index
    then fails
    else if c == 10
    then ends
    else if c == 58
    then colon s cs
    else store s (segment_loop (c ∷ cs) 0 0)

-- How the loop ends.
pub data Parsed : Type 0 where
  failed overrun : Parsed
  parsed : Scan → Parsed

-- The loop, on fuel.
unfoldable pub ip_v6_loop : ℕ → List ℕ → Scan → Parsed
ip_v6_loop zero addr s = parsed s
ip_v6_loop (suc fuel) [] s = parsed s
ip_v6_loop (suc fuel) (c ∷ cs) s = elim (ip_v6_round c cs s) [
  | ends ↦ parsed s
  | fails ↦ failed
  | overruns ↦ overrun
  | goes_on rest s1 ↦ ip_v6_loop fuel rest s1
]

-- The loop that shifts the segments, from `j` down to `compress_pos`; `n` rounds are left.
unfoldable pub shift_loop : ℕ → ℕ → ℕ → List ℕ → Option (List ℕ)
shift_loop zero j shift segments = some segments
shift_loop (suc n) j shift segments =
    let to = sub_size (add_size j shift) 1 in
    let moved = set_at (j - 1) 0 (set_at to (get_or segments (j - 1) 0) segments) in
    let rest = shift_loop n (j - 1) shift moved in if leb 8 (j - 1) || leb 8 to then none else rest

unfoldable pub apply_compression : Scan → Option (List ℕ)
apply_compression s =
    let total_segs = s.seg_index in
    let shift = add_size (sub_size 8 total_segs) (if ltb s.compress_pos total_segs then 0 else 1) in
    if s.has_compression
    then shift_loop (total_segs - s.compress_pos) total_segs shift s.segments
    else some s.segments

-- The bytes of the segments, the high one first.
unfoldable pub to_bytes : List ℕ → List ℕ
to_bytes [] = []
to_bytes (x ∷ xs) = x / 256 % 256 ∷ x % 256 ∷ to_bytes xs

abbrev pub no_segments : Scan
no_segments = record {
  segments = 0 ∷ 0 ∷ 0 ∷ 0 ∷ 0 ∷ 0 ∷ 0 ∷ 0 ∷ [];
  seg_index = 0;
  compress_pos = 0;
  has_compression = false;
}

-- The result of `IpV6Parse`: it overruns its array, or has an address or none.
pub data Result : Type 0 where
  overran : Result
  done : Option (List ℕ) → Result

unfoldable pub ip_v6_address : Parsed → Result
ip_v6_address failed = done none
ip_v6_address overrun = overran
ip_v6_address (parsed s) = elim (apply_compression s) [
  | none ↦ done none
  | some segments ↦ done (some (to_bytes segments))
]

unfoldable pub ip_v6_parse : List ℕ → Result
ip_v6_parse addr = ip_v6_address (ip_v6_loop (length addr) addr no_segments)

-- `StringToAddress`; none is a write past the array.
unfoldable pub string_to_address : List ℕ → Option ParsedAddress
string_to_address addr_string = elim (ip_v4_parse addr_string) [
  | some a ↦ some (ip_v4 a)
  | none ↦ elim (ip_v6_parse addr_string) [
    | overran ↦ none
    | done a ↦ elim a [ none ↦ some (named addr_string) | some bytes ↦ some (ip_v6 bytes) ]
  ]
]
