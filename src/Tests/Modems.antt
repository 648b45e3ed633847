-- ===== src/Tests/Modems.antt =====
-- at_buffer.cpp on concrete inputs.
use aether_client_cpp.Prelude.{ℕ, ◌≡◌, refl, arith, List, [], ◌∷◌, some}
use aether_client_cpp.AtBuffer.{AtBuffer, get_crate, data_read}
use aether_client_cpp.AtBuffer.Crate.{joined, get_crate_lem}
use aether_client_cpp.AtBuffer.Lines.{printed, no_return, data_read-printed}

abbrev two_lines : List (List ℕ)
two_lines = (79 ∷ 75 ∷ []) ∷ (43 ∷ 67 ∷ 71 ∷ []) ∷ []

get_crate_lem_example : get_crate 3 1 two_lines ≡ some (75 ∷ 43 ∷ 67 ∷ [])
unfolding joined
get_crate_lem_example = get_crate_lem 3 1 two_lines

abbrev answered : AtBuffer
answered = record { data_lines = (65 ∷ []) ∷ []; log = [] }

data_read-printed_example :
    data_read answered (79 ∷ 75 ∷ 13 ∷ 10 ∷ 43 ∷ 67 ∷ 71 ∷ 13 ∷ 10 ∷ [])
    ≡ record { data_lines = (65 ∷ []) ∷ two_lines; log = two_lines ∷ [] }
unfolding printed no_return
data_read-printed_example =
    data_read-printed answered two_lines ((omega arith, refl), ((omega arith, refl), tt))
