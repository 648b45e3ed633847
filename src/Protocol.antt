-- ===== src/Protocol.antt =====
-- aether/api_protocol/protocol_context.h and protocol_context.cpp: the requests that wait for a
-- response, and the stacks of packets, parsers and packers.
pub mod Registry
pub mod Bounds
pub mod Callbacks
pub mod Order
pub mod Answers
pub mod Outcomes
use aether_client_cpp.Prelude.{
  ℕ, zero, suc, ◌+◌, ◌-◌, ◌==◌, leb, if◌then◌else◌, List, [], ◌∷◌, ◌++◌, Option, none, some, length,
}

-- `response` tells the objects of the pool apart.
pub record PendingEntry : Type 0 where
  pub request_id : ℕ
  pub response : ℕ

-- What is done to a response: the calls of its methods, and the end of it in the pool.
pub data Event : Type 0 where
  on_result : ℕ → ℕ → Event
  on_error : ℕ → ℕ → ℕ → Event
  on_evicted : ℕ → Event
  destroyed : ℕ → Event

-- `available` counts the free places of the pool, and `next` the responses that were made. The
-- top of a stack is at its front, a parser and a packer are numbers, and `log` is oldest first.
pub record ProtocolContext : Type 0 where
  pub pending_responses : List PendingEntry
  pub available : ℕ
  pub next : ℕ
  pub packet_stacks : List ℕ
  pub parsers : List ℕ
  pub packers : List ℕ
  pub log : List Event

-- A step that reads a null pointer, or that breaks an assertion, gives none.
infixl 5 ◌>>=◌
abbrev pub ◌>>=◌ {ℓ κ} : {A : Type ℓ} {B : Type κ} → Option A → (A → Option B) → Option B
none >>= f = none
some a >>= f = f a

unfoldable pub push : ℕ → ℕ → List ℕ → Option (List ℕ)
push depth x xs = if leb depth (length xs) then none else some (x ∷ xs)

unfoldable pub pop : List ℕ → Option (List ℕ)
pop [] = none
pop (x ∷ xs) = some xs

-- `packet_stack`, `parser` and `packer`.
unfoldable pub top : List ℕ → Option ℕ
top [] = none
top (x ∷ xs) = some x

unfoldable pub find_entry : ℕ → List PendingEntry → Option PendingEntry
find_entry id [] = none
find_entry id (e ∷ es) = let rest = find_entry id es in if e.request_id == id then some e else rest

-- Without the first entry of the request.
unfoldable pub erase_entry : ℕ → List PendingEntry → List PendingEntry
erase_entry id [] = []
erase_entry id (e ∷ es) =
    let rest = erase_entry id es in if e.request_id == id then es else e ∷ rest

unfoldable pub take_pending : ProtocolContext → ℕ → Option PendingEntry × ProtocolContext
take_pending c id = (
  find_entry id c.pending_responses,
  record c { pending_responses = erase_entry id c.pending_responses },
)

unfoldable pub take_oldest_pending : ProtocolContext → Option (PendingEntry × ProtocolContext)
take_oldest_pending c = elim c.pending_responses [
  | [] ↦ none
  | e ∷ es ↦ some (e, record c { pending_responses = es })
]

unfoldable pub destroy_pending : ProtocolContext → PendingEntry → ProtocolContext
destroy_pending c e = record c {
  available = c.available + 1;
  log = c.log ++ destroyed e.response ∷ [];
}

-- `max_pending` is kMaxPendingResponses, and `react` is what the code outside does with the
-- context when a method of a response calls it.
module _ (max_pending : ℕ) (react : Event → ProtocolContext → Option ProtocolContext) where
  -- A call of a method of a response.
  unfoldable pub notify : ProtocolContext → Event → Option ProtocolContext
  notify c v = react v (record c { log = c.log ++ v ∷ [] })

  unfoldable pub evict_pending : ProtocolContext → PendingEntry → Option ProtocolContext
  evict_pending c e = do c1 ← notify c (on_evicted e.response); some (destroy_pending c1 e)

  unfoldable pub evict_oldest : ProtocolContext → Option ProtocolContext
  evict_oldest c = do (e, c1) ← take_oldest_pending c; evict_pending c1 e

  unfoldable pub make_room : ProtocolContext → Option ProtocolContext
  make_room c =
      let evicted = evict_oldest c in
      if leb max_pending (length c.pending_responses) then evicted else some c

  unfoldable pub prepare_pending_response_slot : ProtocolContext → ℕ → Option ProtocolContext
  prepare_pending_response_slot c id =
      let (taken, c1) = take_pending c id in
      elim taken [ none ↦ make_room c1 | some e ↦ evict_pending c1 e ]

  -- The response is made in the pool, and its entry is put at the end.
  unfoldable pub emplace : ProtocolContext → ℕ → Option ProtocolContext
  emplace c id = if leb max_pending (length c.pending_responses) then none else elim c.available [
    | zero ↦ none
    | suc rest ↦ some (record c {
      pending_responses = c.pending_responses ++ record { request_id = id; response = c.next } ∷ [];
      available = rest;
      next = c.next + 1;
    })
  ]

  unfoldable pub create_pending_response : ProtocolContext → ℕ → Option ProtocolContext
  create_pending_response c id = do c1 ← prepare_pending_response_slot c id; emplace c1 id

  -- With no entry, `Cancel` is called and then a method of the null pointer.
  unfoldable pub set_send_result_response : ProtocolContext → ℕ → Option ProtocolContext
  set_send_result_response c id = do
    let (taken, c1) = take_pending c id
    e ← taken
    p ← top c1.parsers
    c2 ← notify c1 (on_result e.response p)
    some (destroy_pending c2 e)

  unfoldable pub set_send_error_response : ProtocolContext → ℕ → ℕ → ℕ → Option ProtocolContext
  set_send_error_response c id error_type error_code = do
    let (taken, c1) = take_pending c id
    e ← taken
    c2 ← notify c1 (on_error e.response error_type error_code)
    some (destroy_pending c2 e)

-- The destructor.
unfoldable pub destroy_all : ProtocolContext → List PendingEntry → ProtocolContext
destroy_all c [] = c
destroy_all c (e ∷ es) = destroy_all (destroy_pending (record c { pending_responses = es }) e) es

unfoldable pub destroy : ProtocolContext → ProtocolContext
destroy c = destroy_all c c.pending_responses

unfoldable pub init : ℕ → ProtocolContext
init max_pending = record {
  pending_responses = [];
  available = max_pending;
  next = 0;
  packet_stacks = [];
  parsers = [];
  packers = [];
  log = [];
}
