-- ===== src/Prelude/Sizes.antt =====
-- `std::size_t` of a 64-bit target, and the narrower unsigned types, with their wrap-around.
use Prim.Native.Nat.{ℕ, ◌+◌, ◌-◌, ◌%◌, ◌^◌}

abbrev pub size_mod : ℕ
size_mod = 2 ^ 64

abbrev pub add_size : ℕ → ℕ → ℕ
add_size a b = (a + b) % size_mod

abbrev pub sub_size : ℕ → ℕ → ℕ
sub_size a b = (a + size_mod - b) % size_mod

-- `static_cast<std::uint16_t>` and `static_cast<std::uint8_t>`.
abbrev pub to_uint16 : ℕ → ℕ
to_uint16 n = n % 2 ^ 16

abbrev pub to_uint8 : ℕ → ℕ
to_uint8 n = n % 2 ^ 8
