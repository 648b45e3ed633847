-- ===== src/Tests/Requests.antt =====
-- protocol_context.cpp on concrete inputs: a registry of one place.
use aether_client_cpp.Prelude.{
  ℕ, ◌+◌, ◌≡◌, ◌⊎◌, refl, arith, ltb, if◌then◌else◌, List, [], ◌∷◌, Option, none, some, count,
}
use aether_client_cpp.Protocol.{
  PendingEntry, top, find_entry, Event, ProtocolContext, create_pending_response,
  set_send_result_response, set_send_error_response, init,
}
use aether_client_cpp.Protocol.Registry.{responses, requests}
use aether_client_cpp.Protocol.Bounds.{Succeeds, told, ended, IsValid, Keeps}
use aether_client_cpp.Protocol.Answers.{answer_lem}
use aether_client_cpp.Protocol.Callbacks.{requests_next, create-held}
use aether_client_cpp.Protocol.Order.{
  quiet, view, survivors, with_entry, AreDistinct, create_lem, create-AreDistinct,
}
use aether_client_cpp.Protocol.Outcomes.{
  Call, create_pending, result_comes, error_comes, push_parser, pop_parser, run, run_lem,
}

-- One request waits, of id 7.
abbrev full : ProtocolContext
full = record {
  pending_responses = record { request_id = 7; response = 0 } ∷ [];
  available = 0;
  next = 1;
  packet_stacks = [];
  parsers = 5 ∷ [];
  packers = [];
  log = [];
}

full-IsValid : IsValid 1 [] full
unfolding count told ended
full-IsValid = record { room = omega arith; alive = λ r. ground arith; notified = λ r. refl }

-- A callback that sets another parser, as the parsing within it does.
abbrev nested : Event → ProtocolContext → Option ProtocolContext
nested v c = some (record c { parsers = 6 ∷ c.parsers })

nested-Keeps : Keeps 1 nested
nested-Keeps v r c h = (
  record c { parsers = 6 ∷ c.parsers },
  refl,
  record { room = h.room; alive = h.alive; notified = h.notified },
)

abbrev calls : List Call
calls =
    push_parser 5
    ∷ create_pending 7
    ∷ create_pending 8
    ∷ result_comes 8
    ∷ create_pending 9
    ∷ error_comes 9 0 3
    ∷ pop_parser
    ∷ []

run_lem_example :
    (run 1 4 4 nested calls (init 1) ≡ none)
    ⊎ ((c : ProtocolContext) × (run 1 4 4 nested calls (init 1) ≡ some c)
        × ((r : ℕ)
            → told r c.log + count r (responses c.pending_responses)
              ≡ (if ltb r c.next then 1 else 0)))
run_lem_example = run_lem (omega arith) nested-Keeps 4 4 calls

create-held_example :
    (set_send_result_response 1 (requests_next 1 quiet quiet 8) full 7 ≡ none)
    × (set_send_error_response 1 (requests_next 1 quiet quiet 8) full 7 0 3 ≡ none)
unfolding find_entry top
create-held_example =
    create-held 1 quiet quiet 8 full 7 5 0 3 (record { request_id = 7; response = 0 }) full-IsValid
      refl refl refl refl

create_lem_example :
    view (create_pending_response 1 quiet full 8)
    ≡ some (with_entry 8 (survivors 1 8 full.pending_responses, 1))
create_lem_example = create_lem 1 full 8 (omega arith) full-IsValid

full-AreDistinct : AreDistinct full.pending_responses
unfolding count
full-AreDistinct k = ground arith

create-AreDistinct_example :
    (c1 : ProtocolContext) × (create_pending_response 1 quiet full 8 ≡ some c1)
    × IsValid 1 [] c1
    × AreDistinct c1.pending_responses
    × (count 8 (requests c1.pending_responses) ≡ 1)
create-AreDistinct_example = create-AreDistinct 1 full 8 (omega arith) full-IsValid full-AreDistinct

answer_lem_example :
    ((find_entry 8 full.pending_responses ≡ none)
      × (set_send_result_response 1 nested full 8 ≡ none)
      × (set_send_error_response 1 nested full 8 0 3 ≡ none))
    ⊎ ((e : PendingEntry) × (find_entry 8 full.pending_responses ≡ some e)
        × Succeeds 1 [] (set_send_error_response 1 nested full 8 0 3)
        × (((top full.parsers ≡ none) × (set_send_result_response 1 nested full 8 ≡ none))
            ⊎ Succeeds 1 [] (set_send_result_response 1 nested full 8)))
answer_lem_example = answer_lem nested-Keeps full 8 0 3 full-IsValid
