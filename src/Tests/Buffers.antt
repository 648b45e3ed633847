-- ===== src/Tests/Buffers.antt =====
-- The indices, the byte ring and the chunk list on concrete inputs over a ring of 16 indices.
use aether_client_cpp.Prelude.{ℕ, ◌+◌, ◌≡◌, arith, [], ◌∷◌}
use aether_client_cpp.Ring.{distance, plus, minus}
use aether_client_cpp.Ring.Distance.{IsCapacity}
use aether_client_cpp.Circular.{CircularBuffer, ok, push, read, size}
use aether_client_cpp.Circular.Contents.{IsValid, contents, window}
use aether_client_cpp.Circular.Push.{push_refines}
use aether_client_cpp.Circular.Read.{shown, read_list, read_refines}

abbrev sixteen : ℕ
sixteen = 16

sixteen-IsCapacity : IsCapacity sixteen
sixteen-IsCapacity = record { positive = omega arith; small = omega arith }

-- Six bytes, from index 14 on.
abbrev six : CircularBuffer
six = record { begin = 14; end = 4; buffer = λ i. i + 1 }

six-IsValid : IsValid sixteen six
six-IsValid = record { begin_in = omega arith; end_in = omega arith }

push_refines_example :
    (contents sixteen (push sixteen six (7 ∷ 8 ∷ [])).0 ≡ 15 ∷ 16 ∷ 1 ∷ 2 ∷ 3 ∷ 4 ∷ 7 ∷ 8 ∷ [])
    × ((push sixteen six (7 ∷ 8 ∷ [])).1 ≡ ok (record { left = 4; right = 5 }))
    × IsValid sixteen (push sixteen six (7 ∷ 8 ∷ [])).0
unfolding distance plus minus size contents window
push_refines_example = push_refines sixteen-IsCapacity six-IsValid (7 ∷ 8 ∷ [])

read_refines_example : shown (read sixteen six 15 3) ≡ ok (16 ∷ 1 ∷ 2 ∷ [])
unfolding distance plus size contents window read_list
read_refines_example = read_refines sixteen-IsCapacity six six-IsValid 15 3 (omega arith)
