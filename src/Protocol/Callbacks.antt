-- ===== src/Protocol/Callbacks.antt =====
-- protocol_context.cpp: a request that waits for a response, and its end, with callbacks that use
-- the context.
use aether_client_cpp.Prelude.{
  ℕ, suc, ◌+◌, ◌<◌, ◌≡◌, refl, sym, ap, subst, arith, ◌-◌, false, List, [], ◌∷◌, ◌++◌, Option, none,
  some, length, count, Option-cases, Bool-cases, leb, tests, inl, inr,
}
use aether_client_cpp.Protocol.{
  PendingEntry, Event, on_result, on_error, on_evicted, ProtocolContext, ◌>>=◌, find_entry,
  erase_entry, take_pending, take_oldest_pending, destroy_pending, notify, evict_pending,
  evict_oldest, make_room, prepare_pending_response_slot, emplace, create_pending_response,
  set_send_result_response, set_send_error_response, top,
}
use aether_client_cpp.Protocol.Registry.{
  responses, length-erase_entry, responses-erase_entry, erase_entry-none,
}
use aether_client_cpp.Protocol.Bounds.{
  told, ended, IsValid, IsCall, take_and_tell, destroy_pending-IsValid, emplaced, emplaced-IsValid,
  Succeeds, Frees, Keeps,
}

module _ {max_pending : ℕ} {react : Event → ProtocolContext → Option ProtocolContext}
    (keeps : Keeps max_pending react) where
  -- An entry is taken, its response is told, and destroyed.
  tell_and_destroy :
      (c : ProtocolContext) (e : PendingEntry) (es : List PendingEntry) (v : Event)
      → IsValid max_pending [] c
      → suc (length es) ≡ length c.pending_responses
      → ((r : ℕ) → count r (e.response ∷ responses es) ≡ count r (responses c.pending_responses))
      → IsCall e.response v
      → Frees max_pending (do
        c1 ← notify max_pending react (record c { pending_responses = es }) v
        some (destroy_pending c1 e))
  unfolding notify destroy_pending
  tell_and_destroy c e es v h l k i =
      let (c1, eq, h1) =
        keeps v e.response _ (take_and_tell {max_pending = max_pending} {c = c} e es v h l k i) in
      (
        destroy_pending c1 e,
        ap (λ o. o >>= λ c2. some (destroy_pending c2 e)) eq,
        destroy_pending-IsValid {max_pending = max_pending} {c = c1} e h1,
        omega (arith, h1.room),
      )

  taken-IsValid :
      (c : ProtocolContext) (id : ℕ) (e : PendingEntry) (v : Event)
      → IsValid max_pending [] c
      → find_entry id c.pending_responses ≡ some e
      → IsCall e.response v
      → Frees max_pending (do
        c1 ←
            notify max_pending react
              (record c { pending_responses = erase_entry id c.pending_responses })
              v
        some (destroy_pending c1 e))
  taken-IsValid c id e v h f i =
      tell_and_destroy c e (erase_entry id c.pending_responses) v h
        (length-erase_entry id c.pending_responses e f)
        (λ r. responses-erase_entry id r c.pending_responses e f) i

  evicts : (r : ℕ) → IsCall r (on_evicted r)
  unfolding told ended count
  evicts r k = (refl, refl)

  pub emplace_lem :
      (c : ProtocolContext) (id rest : ℕ)
      → c.available ≡ suc rest
      → length c.pending_responses < max_pending
      → emplace max_pending react c id ≡ some (emplaced c id rest)
  unfolding emplace
  emplace_lem c id rest e l = ground (arith, e)

  emplace-IsValid :
      (c : ProtocolContext) (id : ℕ)
      → IsValid max_pending [] c
      → length c.pending_responses < max_pending
      → Succeeds max_pending [] (emplace max_pending react c id)
  emplace-IsValid c id h l = (
    emplaced c id (c.available - 1),
    emplace_lem c id (c.available - 1) (omega (arith, h.room)) l,
    emplaced-IsValid {c = c} id (c.available - 1) (omega (arith, h.room)) h,
  )

  evict_oldest-Frees :
      (c : ProtocolContext) (es : List PendingEntry)
      → es ≡ c.pending_responses
      → 0 < length es
      → IsValid max_pending [] c
      → Frees max_pending (evict_oldest max_pending react c)
  unfolding evict_oldest take_oldest_pending evict_pending
  evict_oldest-Frees c [] e l h = absurd (omega (arith, l))
  evict_oldest-Frees c (x ∷ es) e l h = rw (← e) (
      tell_and_destroy c x es (on_evicted x.response) h (ap length e)
        (λ r. ap (λ ys. count r (responses ys)) e) (evicts x.response))

  make_room-Frees :
      (c : ProtocolContext)
      → 0 < max_pending
      → IsValid max_pending [] c
      → Frees max_pending (make_room max_pending react c)
  unfolding make_room
  make_room-Frees c p h = elim (Bool-cases (leb max_pending (length c.pending_responses))) [
    | inl full ↦ rw full (evict_oldest-Frees c c.pending_responses refl (omega (tests, full, p)) h)
    | inr free ↦ (c, ground (arith, free), h, ground (arith, free))
  ]

  -- After `PreparePendingResponseSlot` there is a free place.
  pub prepare-Frees :
      (c : ProtocolContext) (id : ℕ)
      → 0 < max_pending
      → IsValid max_pending [] c
      → Frees max_pending (prepare_pending_response_slot max_pending react c id)
  unfolding prepare_pending_response_slot take_pending evict_pending
  prepare-Frees c id p h = elim (Option-cases (find_entry id c.pending_responses)) [
    | inl n ↦
        rw (prepare_pending_response_slot, n, erase_entry-none id c.pending_responses n)
          (make_room-Frees c p h)
    | inr (e, f) ↦
        rw (prepare_pending_response_slot, f)
          (taken-IsValid c id e (on_evicted e.response) h f (evicts e.response))
  ]

  -- Whatever a response does when it is evicted, if it leaves the context valid, a request finds a
  -- place: `CreatePendingResponse` succeeds, and leaves the context valid.
  pub create-IsValid :
      (c : ProtocolContext) (id : ℕ)
      → 0 < max_pending
      → IsValid max_pending [] c
      → Succeeds max_pending [] (create_pending_response max_pending react c id)
  unfolding create_pending_response
  create-IsValid c id p h =
      let (c1, eq, h1, l) = prepare-Frees c id p h in
      subst (λ o. Succeeds max_pending [] (o >>= λ c2. emplace max_pending react c2 id)) (sym eq)
        (emplace-IsValid c1 id h1 l)

  -- When the request waits and a parser is set, its result succeeds and leaves the context valid.
  pub result-IsValid :
      (c : ProtocolContext) (id : ℕ) (e : PendingEntry) (p : ℕ)
      → IsValid max_pending [] c
      → find_entry id c.pending_responses ≡ some e
      → top c.parsers ≡ some p
      → Succeeds max_pending [] (set_send_result_response max_pending react c id)
  unfolding set_send_result_response take_pending told ended count
  result-IsValid c id e p h f t =
      let (c1, eq, h1, _) = taken-IsValid c id e (on_result e.response p) h f (λ k. (refl, refl)) in
      rw (f, t) ((c1, eq, h1))

  -- When the request waits, its error succeeds and leaves the context valid.
  pub error-IsValid :
      (c : ProtocolContext) (id error_type error_code : ℕ) (e : PendingEntry)
      → IsValid max_pending [] c
      → find_entry id c.pending_responses ≡ some e
      → Succeeds max_pending []
          (set_send_error_response max_pending react c id error_type error_code)
  unfolding set_send_error_response take_pending told ended count
  error-IsValid c id error_type error_code e h f =
      let (c1, eq, h1, _) =
        taken-IsValid c id e (on_error e.response error_type error_code) h f (λ k. (refl, refl)) in
      rw f ((c1, eq, h1))

-- A request that does not wait has no answer: with any context and whatever the code outside does,
-- its result and its error both go through a null pointer.
pub answer_unknown :
    (max_pending : ℕ) (react : Event → ProtocolContext → Option ProtocolContext)
    (c : ProtocolContext) (id error_type error_code : ℕ)
    → find_entry id c.pending_responses ≡ none
    → (set_send_result_response max_pending react c id ≡ none)
      × (set_send_error_response max_pending react c id error_type error_code ≡ none)
unfolding set_send_result_response set_send_error_response take_pending
answer_unknown max_pending react c id error_type error_code f = ground (arith, f)

-- With no parser a result goes through a null pointer, also where the request waits.
pub result-none :
    (max_pending : ℕ) (react : Event → ProtocolContext → Option ProtocolContext)
    (c : ProtocolContext) (id : ℕ) (e : PendingEntry)
    → find_entry id c.pending_responses ≡ some e
    → top c.parsers ≡ none
    → set_send_result_response max_pending react c id ≡ none
unfolding set_send_result_response take_pending
result-none max_pending react c id e f t = ground (arith, f, t)

-- While one response is told, the pool has no place in a full registry.
held-none :
    {max_pending : ℕ} (react : Event → ProtocolContext → Option ProtocolContext)
    (c : ProtocolContext) (id r : ℕ)
    → IsValid max_pending (r ∷ []) c
    → length c.pending_responses + 1 ≡ max_pending
    → find_entry id c.pending_responses ≡ none
    → create_pending_response max_pending react c id ≡ none
unfolding create_pending_response take_pending emplace prepare_pending_response_slot make_room
held-none {max_pending} react c id r h l f =
    let free : leb max_pending (length c.pending_responses) ≡ false = ground (arith, l) in
    let used : c.available ≡ 0 = omega (arith, h.room, l) in
    rw
      (prepare_pending_response_slot, f, erase_entry-none id c.pending_responses f, make_room, free)
      (ground (arith, free, used))

find_entry-erase_entry :
    (id k : ℕ) (es : List PendingEntry)
    → find_entry id es ≡ none
    → find_entry id (erase_entry k es) ≡ none
unfolding find_entry erase_entry
find_entry-erase_entry id k [] h = refl
find_entry-erase_entry id k (e ∷ es) h = ground (arith, h, find_entry-erase_entry id k es)

module _ (max_pending : ℕ) (inner after : Event → ProtocolContext → Option ProtocolContext)
    (next : ℕ) where
  -- A callback that makes a request, whatever it does after that.
  abbrev pub requests_next : Event → ProtocolContext → Option ProtocolContext
  requests_next v c = create_pending_response max_pending inner c next >>= after v

  -- The calls of a response that is taken out of a full registry.
  told-none :
      (c : ProtocolContext) (id : ℕ) (e : PendingEntry) (v : Event)
      → IsValid max_pending [] c
      → length c.pending_responses ≡ max_pending
      → find_entry id c.pending_responses ≡ some e
      → find_entry next c.pending_responses ≡ none
      → IsCall e.response v
      → notify max_pending requests_next
          (record c { pending_responses = erase_entry id c.pending_responses })
          v
        ≡ none
  unfolding notify
  told-none c id e v h full f new i =
      let es = erase_entry id c.pending_responses in
      let shorter = length-erase_entry id c.pending_responses e f in
      ap (λ o. o >>= after v)
        (held-none inner (record c { pending_responses = es; log = c.log ++ v ∷ [] }) next
          e.response
          (take_and_tell {max_pending = max_pending} {c = c} e es v h shorter
            (λ r. responses-erase_entry id r c.pending_responses e f) i)
          (omega (arith, shorter, full)) (find_entry-erase_entry next id c.pending_responses new))

  -- In a valid context whose registry is full, let a request wait and a parser be set, and let the
  -- callbacks of the responses first make a request of an id that does not wait, whatever they and
  -- the callbacks within that request do else. Then both the result and the error of the waiting
  -- request end at an assertion: the callback is called when the entry has left the registry and
  -- before its response leaves the pool, so that the pool has no place for the new one.
  pub create-held :
      (c : ProtocolContext) (id p error_type error_code : ℕ) (e : PendingEntry)
      → IsValid max_pending [] c
      → length c.pending_responses ≡ max_pending
      → find_entry id c.pending_responses ≡ some e
      → find_entry next c.pending_responses ≡ none
      → top c.parsers ≡ some p
      → (set_send_result_response max_pending requests_next c id ≡ none)
        × (set_send_error_response max_pending requests_next c id error_type error_code ≡ none)
  unfolding set_send_result_response set_send_error_response take_pending told ended count
  create-held c id p error_type error_code e h full f new t =
      let result = told-none c id e (on_result e.response p) h full f new (λ k. (refl, refl)) in
      let error =
        told-none c id e (on_error e.response error_type error_code) h full f new
          (λ k. (refl, refl)) in
      (rw (f, t, result) refl, rw (f, error) refl)
