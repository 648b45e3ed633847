-- ===== src/Protocol/Outcomes.antt =====
-- protocol_context.cpp: runs of calls of the context, from its making to its end.
use aether_client_cpp.Prelude.{
  ℕ, ◌+◌, ◌<◌, ◌≡◌, ◌⊎◌, refl, arith, ltb, if◌then◌else◌, List, [], ◌∷◌, map, Option, none, some,
  length, count, Option-cases, inl, inr,
}
use aether_client_cpp.Protocol.{
  PendingEntry, Event, destroyed, ProtocolContext, ◌>>=◌, push, pop, top, find_entry,
  destroy_pending, create_pending_response, set_send_result_response, set_send_error_response,
  destroy_all, destroy, init,
}
use aether_client_cpp.Protocol.Registry.{responses}
use aether_client_cpp.Protocol.Bounds.{
  told, ended, told-append, ended-append, IsValid, Keeps, Succeeds,
}
use aether_client_cpp.Protocol.Callbacks.{
  create-IsValid, result-IsValid, error-IsValid, answer_unknown, result-none,
}

pub data Call : Type 0 where
  create_pending result_comes : ℕ → Call
  error_comes : ℕ → ℕ → ℕ → Call
  push_parser push_packer push_packet_stack : ℕ → Call
  pop_parser pop_packer pop_packet_stack : Call

-- The depths are kMaxPacketStackDepth and kMaxParserPackerDepth.
module _ (max_pending packet_depth parser_depth : ℕ)
    (react : Event → ProtocolContext → Option ProtocolContext) where
  unfoldable pub handle : ProtocolContext → Call → Option ProtocolContext
  handle c (create_pending id) = create_pending_response max_pending react c id
  handle c (result_comes id) = set_send_result_response max_pending react c id
  handle c (error_comes id t k) = set_send_error_response max_pending react c id t k
  handle c (push_parser p) = do ps ← push parser_depth p c.parsers; some (record c { parsers = ps })
  handle c pop_parser = do ps ← pop c.parsers; some (record c { parsers = ps })
  handle c (push_packer p) = do ps ← push parser_depth p c.packers; some (record c { packers = ps })
  handle c pop_packer = do ps ← pop c.packers; some (record c { packers = ps })
  handle c (push_packet_stack p) = do
    ps ← push packet_depth p c.packet_stacks
    some (record c { packet_stacks = ps })
  handle c pop_packet_stack = do ps ← pop c.packet_stacks; some (record c { packet_stacks = ps })

  unfoldable pub run : List Call → ProtocolContext → Option ProtocolContext
  run [] c = some c
  run (call ∷ calls) c = do c1 ← handle c call; run calls c1

pub init-IsValid : (max_pending : ℕ) → IsValid max_pending [] (init max_pending)
unfolding init told ended count
init-IsValid max_pending = record {
  room = omega arith;
  alive = λ r. ground arith;
  notified = λ r. refl;
}

destroy_all-alive :
    (r : ℕ) (c : ProtocolContext) (es : List PendingEntry)
    → ended r (destroy_all c es).log ≡ count r (responses es) + ended r c.log
unfolding destroy_all destroy_pending count ended
destroy_all-alive r c [] = omega arith
destroy_all-alive r c (e ∷ es) = ground (
  arith,
  destroy_all-alive r (destroy_pending (record c { pending_responses = es }) e) es,
  ended-append r c.log (destroyed e.response ∷ []),
)

destroy_all-told :
    (r : ℕ) (c : ProtocolContext) (es : List PendingEntry)
    → told r (destroy_all c es).log ≡ told r c.log
unfolding destroy_all destroy_pending told
destroy_all-told r c [] = refl
destroy_all-told r c (e ∷ es) = ground (
  arith,
  destroy_all-told r (destroy_pending (record c { pending_responses = es }) e) es,
  told-append r c.log (destroyed e.response ∷ []),
)

destroy_all-available :
    (c : ProtocolContext) (es : List PendingEntry)
    → (destroy_all c es).available ≡ c.available + length es
unfolding destroy_all destroy_pending
destroy_all-available c [] = omega arith
destroy_all-available c (e ∷ es) =
    omega
      (arith, destroy_all-available (destroy_pending (record c { pending_responses = es }) e) es)

-- When the context is valid, its destructor destroys each response that was ever made exactly once
-- in all, tells none of them anything, and leaves the whole pool free.
pub destroy_lem :
    (max_pending : ℕ) (c : ProtocolContext) (r : ℕ)
    → IsValid max_pending [] c
    → (ended r (destroy c).log ≡ (if ltb r c.next then 1 else 0))
      × (told r (destroy c).log ≡ told r c.log)
      × ((destroy c).available ≡ max_pending)
unfolding destroy count
destroy_lem max_pending c r h =
    let es = c.pending_responses in
    (
      omega (arith, h.alive r, destroy_all-alive r c es),
      destroy_all-told r c es,
      omega (arith, h.room, destroy_all-available c es),
    )

-- A step stops at a null pointer or an assertion, or gives a valid context.
abbrev EndsValid : ℕ → Option ProtocolContext → Type 0
EndsValid max_pending o = (o ≡ none) ⊎ Succeeds max_pending [] o

stack-ends :
    {max_pending : ℕ} (f : List ℕ → ProtocolContext) (o : Option (List ℕ))
    → ((ps : List ℕ) → IsValid max_pending [] (f ps))
    → EndsValid max_pending (o >>= λ ps. some (f ps))
stack-ends f none h = inl refl
stack-ends f (some ps) h = inr ((f ps, refl, h ps))

stacks-IsValid :
    {max_pending : ℕ} (c : ProtocolContext) (packets parsers packers : List ℕ)
    → IsValid max_pending [] c
    → IsValid max_pending []
        (record c { packet_stacks = packets; parsers = parsers; packers = packers })
stacks-IsValid c packets parsers packers h = record {
  room = h.room;
  alive = h.alive;
  notified = h.notified;
}

module _ {max_pending : ℕ} {react : Event → ProtocolContext → Option ProtocolContext}
    (room : 0 < max_pending) (keeps : Keeps max_pending react) where
  result-ends :
      (c : ProtocolContext) (id : ℕ)
      → IsValid max_pending [] c
      → EndsValid max_pending (set_send_result_response max_pending react c id)
  result-ends c id h = elim (Option-cases (find_entry id c.pending_responses)) [
    | inl n ↦ inl (answer_unknown max_pending react c id 0 0 n).0
    | inr (e, f) ↦ elim (Option-cases (top c.parsers)) [
      | inl n ↦ inl (result-none max_pending react c id e f n)
      | inr (p, t) ↦ inr (result-IsValid keeps c id e p h f t)
    ]
  ]

  error-ends :
      (c : ProtocolContext) (id error_type error_code : ℕ)
      → IsValid max_pending [] c
      → EndsValid max_pending (set_send_error_response max_pending react c id error_type error_code)
  error-ends c id error_type error_code h =
      elim (Option-cases (find_entry id c.pending_responses)) [
        | inl n ↦ inl (answer_unknown max_pending react c id error_type error_code n).1
        | inr (e, f) ↦ inr (error-IsValid keeps c id error_type error_code e h f)
      ]

  -- Each call of a valid context stops at a null pointer or an assertion, or leaves it valid.
  handle-IsValid :
      (packet_depth parser_depth : ℕ) (c : ProtocolContext) (call : Call)
      → IsValid max_pending [] c
      → EndsValid max_pending (handle max_pending packet_depth parser_depth react c call)
  unfolding handle
  handle-IsValid m n c (create_pending id) h = inr (create-IsValid keeps c id room h)
  handle-IsValid m n c (result_comes id) h = result-ends c id h
  handle-IsValid m n c (error_comes id t k) h = error-ends c id t k h
  handle-IsValid m n c (push_parser p) h =
      stack-ends (λ ps. record c { parsers = ps }) (push n p c.parsers)
        (λ ps. stacks-IsValid c c.packet_stacks ps c.packers h)
  handle-IsValid m n c pop_parser h =
      stack-ends (λ ps. record c { parsers = ps }) (pop c.parsers)
        (λ ps. stacks-IsValid c c.packet_stacks ps c.packers h)
  handle-IsValid m n c (push_packer p) h =
      stack-ends (λ ps. record c { packers = ps }) (push n p c.packers)
        (λ ps. stacks-IsValid c c.packet_stacks c.parsers ps h)
  handle-IsValid m n c pop_packer h =
      stack-ends (λ ps. record c { packers = ps }) (pop c.packers)
        (λ ps. stacks-IsValid c c.packet_stacks c.parsers ps h)
  handle-IsValid m n c (push_packet_stack p) h =
      stack-ends (λ ps. record c { packet_stacks = ps }) (push m p c.packet_stacks)
        (λ ps. stacks-IsValid c ps c.parsers c.packers h)
  handle-IsValid m n c pop_packet_stack h =
      stack-ends (λ ps. record c { packet_stacks = ps }) (pop c.packet_stacks)
        (λ ps. stacks-IsValid c ps c.parsers c.packers h)

  run-ends :
      (packet_depth parser_depth : ℕ) (calls : List Call) (c : ProtocolContext)
      → IsValid max_pending [] c
      → EndsValid max_pending (run max_pending packet_depth parser_depth react calls c)
  unfolding run
  run-ends m n [] c h = inr ((c, refl, h))
  run-ends m n (call ∷ calls) c h = elim (handle-IsValid m n c call h) [
    | inl e ↦ rw e (inl refl)
    | inr (c1, e, h1) ↦ rw e (run-ends m n calls c1 h1)
  ]

  -- Whatever the callbacks do, if they leave the context valid: a run of calls on a new context
  -- stops at a null pointer or an assertion, or ends in a context where each response that was made
  -- either waits or was told exactly once how its request ended, and no other response was told
  -- anything.
  pub run_lem :
      (packet_depth parser_depth : ℕ) (calls : List Call)
      → (run max_pending packet_depth parser_depth react calls (init max_pending) ≡ none)
        ⊎ ((c : ProtocolContext) × (run max_pending packet_depth parser_depth react calls
                (init max_pending)
              ≡ some c)
            × ((r : ℕ)
                → told r c.log + count r (responses c.pending_responses)
                  ≡ (if ltb r c.next then 1 else 0)))
  unfolding count
  run_lem m n calls = elim (run-ends m n calls (init max_pending) (init-IsValid max_pending)) [
    | inl e ↦ inl e
    | inr (c, e, h) ↦ inr ((c, e, λ r. omega (arith, h.alive r, h.notified r)))
  ]

  -- Any number of requests, with any ids, are made one after the other without a stop, whatever the
  -- callbacks of the evicted ones do, if they leave the context valid.
  pub run-requests :
      (packet_depth parser_depth : ℕ) (ids : List ℕ) (c : ProtocolContext)
      → IsValid max_pending [] c
      → Succeeds max_pending []
          (run max_pending packet_depth parser_depth react (map create_pending ids) c)
  unfolding run handle
  run-requests m n [] c h = (c, refl, h)
  run-requests m n (id ∷ ids) c h =
      let (c1, e, h1) = create-IsValid keeps c id room h in rw e (run-requests m n ids c1 h1)
