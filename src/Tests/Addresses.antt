-- ===== src/Tests/Addresses.antt =====
-- address_parser.h on concrete inputs.
use aether_client_cpp.Prelude.{ℕ, ◌≡◌, refl, arith, List, [], ◌∷◌, none, some}
use aether_client_cpp.AddressParser.{
  ip_v4, ip_v6, is_digit, is_x_digit, from_hex, ip_v4_loop, ip_v4_parse, to_bytes,
  string_to_address,
}
use aether_client_cpp.AddressParser.Dotted.{number, all_digits, string_to_address-dotted}
use aether_client_cpp.AddressParser.Groups.{
  IsGroup, hex_number, all_hex, joined, zeros, string_to_address-groups,
}

-- "256.0..7"
string_to_address-dotted_example :
    string_to_address (50 ∷ 53 ∷ 54 ∷ 46 ∷ 48 ∷ 46 ∷ 46 ∷ 55 ∷ [])
    ≡ some (ip_v4 (0 ∷ 0 ∷ 0 ∷ 7 ∷ []))
unfolding number all_digits is_digit
string_to_address-dotted_example =
    string_to_address-dotted (50 ∷ 53 ∷ 54 ∷ []) (48 ∷ []) [] (55 ∷ []) refl

-- The name "cafe", which is a group.
cafe :
    string_to_address (99 ∷ 97 ∷ 102 ∷ 101 ∷ [])
    ≡ some (ip_v6 (202 ∷ 254 ∷ 0 ∷ 0 ∷ 0 ∷ 0 ∷ 0 ∷ 0 ∷ 0 ∷ 0 ∷ 0 ∷ 0 ∷ 0 ∷ 0 ∷ 0 ∷ 0 ∷ []))
unfolding hex_number all_hex is_x_digit from_hex joined zeros to_bytes ip_v4_parse ip_v4_loop
    is_digit
cafe =
    string_to_address-groups (99 ∷ 97 ∷ 102 ∷ 101 ∷ []) [] ((omega arith, omega arith, refl), tt)
      refl

abbrev one : List ℕ
one = 49 ∷ []

-- Nine groups.
string_to_address-groups_example :
    string_to_address (joined (one ∷ one ∷ one ∷ one ∷ one ∷ one ∷ one ∷ one ∷ one ∷ [])) ≡ none
unfolding all_hex is_x_digit joined ip_v4_parse ip_v4_loop is_digit
string_to_address-groups_example =
    let group : IsGroup one = (omega arith, omega arith, refl) in
    string_to_address-groups one (one ∷ one ∷ one ∷ one ∷ one ∷ one ∷ one ∷ one ∷ [])
      (group, (group, (group, (group, (group, (group, (group, (group, (group, tt))))))))) refl
