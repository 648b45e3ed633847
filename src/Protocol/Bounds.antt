-- ===== src/Protocol/Bounds.antt =====
-- protocol_context.cpp: the registry, its pool and what the responses are told, with callbacks that
-- use the context.
use aether_client_cpp.Prelude.{
  ℕ, suc, ◌+◌, ◌<◌, ◌≡◌, arith, ltb, ◌==◌, if◌then◌else◌, List, [], ◌∷◌, ◌++◌, Option, some, length,
  count, length-append,
}
use aether_client_cpp.Protocol.{
  PendingEntry, Event, on_result, on_error, on_evicted, destroyed, ProtocolContext, destroy_pending,
}
use aether_client_cpp.Protocol.Registry.{responses, responses-append, responses-append}

-- How often a response was told how its request ended, and how often it was destroyed.
unfoldable pub told : ℕ → List Event → ℕ
told r [] = 0
told r (on_result s p ∷ vs) = if s == r then suc (told r vs) else told r vs
told r (on_error s t k ∷ vs) = if s == r then suc (told r vs) else told r vs
told r (on_evicted s ∷ vs) = if s == r then suc (told r vs) else told r vs
told r (destroyed s ∷ vs) = told r vs

unfoldable pub ended : ℕ → List Event → ℕ
ended r [] = 0
ended r (on_result s p ∷ vs) = ended r vs
ended r (on_error s t k ∷ vs) = ended r vs
ended r (on_evicted s ∷ vs) = ended r vs
ended r (destroyed s ∷ vs) = if s == r then suc (ended r vs) else ended r vs

pub told-append : (r : ℕ) (vs ws : List Event) → told r (vs ++ ws) ≡ told r vs + told r ws
unfolding told
told-append r [] ws = omega arith
told-append r (on_result s p ∷ vs) ws = ground (arith, told-append r vs ws)
told-append r (on_error s t k ∷ vs) ws = ground (arith, told-append r vs ws)
told-append r (on_evicted s ∷ vs) ws = ground (arith, told-append r vs ws)
told-append r (destroyed s ∷ vs) ws = told-append r vs ws

pub ended-append : (r : ℕ) (vs ws : List Event) → ended r (vs ++ ws) ≡ ended r vs + ended r ws
unfolding ended
ended-append r [] ws = omega arith
ended-append r (on_result s p ∷ vs) ws = ended-append r vs ws
ended-append r (on_error s t k ∷ vs) ws = ended-append r vs ws
ended-append r (on_evicted s ∷ vs) ws = ended-append r vs ws
ended-append r (destroyed s ∷ vs) ws = ground (arith, ended-append r vs ws)

-- `held` are the responses that were taken out of the registry and are not destroyed.
pub record IsValid (max_pending : ℕ) (held : List ℕ) (c : ProtocolContext) : Type 0 where
  pub room : length c.pending_responses + c.available + length held ≡ max_pending
  pub alive :
      (r : ℕ)
      → count r (responses c.pending_responses) + count r held + ended r c.log
        ≡ (if ltb r c.next then 1 else 0)
  pub notified : (r : ℕ) → told r c.log ≡ count r held + ended r c.log

-- A call of the response `r` that is not its destructor.
abbrev pub IsCall : ℕ → Event → Type 0
IsCall r v = ((k : ℕ) → (told k (v ∷ []) ≡ count k (r ∷ [])) × (ended k (v ∷ []) ≡ 0))

module _ {max_pending : ℕ} {c : ProtocolContext} where
  -- An entry is taken, and its response is told.
  pub take_and_tell :
      (e : PendingEntry) (es : List PendingEntry) (v : Event)
      → IsValid max_pending [] c
      → suc (length es) ≡ length c.pending_responses
      → ((r : ℕ) → count r (e.response ∷ responses es) ≡ count r (responses c.pending_responses))
      → IsCall e.response v
      → IsValid max_pending
          (e.response ∷ [])
          (record c { pending_responses = es; log = c.log ++ v ∷ [] })
  unfolding count
  take_and_tell e es v h l k i = record {
    room = omega (arith, h.room, l);
    alive = λ r. ground (arith, h.alive r, k r, ended-append r c.log (v ∷ []), i r);
    notified = λ r.
        ground
          (arith, h.notified r, told-append r c.log (v ∷ []), ended-append r c.log (v ∷ []), i r);
  }

  pub destroy_pending-IsValid :
      (e : PendingEntry)
      → IsValid max_pending (e.response ∷ []) c
      → IsValid max_pending [] (destroy_pending c e)
  unfolding destroy_pending count ended told
  destroy_pending-IsValid e h = record {
    room = omega (arith, h.room);
    alive = λ r. ground (arith, h.alive r, ended-append r c.log (destroyed e.response ∷ []));
    notified = λ r. ground (
      arith,
      h.notified r,
      told-append r c.log (destroyed e.response ∷ []),
      ended-append r c.log (destroyed e.response ∷ []),
    );
  }

-- The context with one more response.
abbrev pub emplaced : ProtocolContext → ℕ → ℕ → ProtocolContext
emplaced c id rest = record c {
  pending_responses = c.pending_responses ++ record { request_id = id; response = c.next } ∷ [];
  available = rest;
  next = c.next + 1;
}

pub emplaced-IsValid :
    {max_pending : ℕ} {c : ProtocolContext} (id rest : ℕ)
    → c.available ≡ suc rest
    → IsValid max_pending [] c
    → IsValid max_pending [] (emplaced c id rest)
unfolding count
emplaced-IsValid {max_pending} {c} id rest e h =
    let entry : PendingEntry = record { request_id = id; response = c.next } in
    record {
      room = omega (arith, h.room, length-append c.pending_responses (entry ∷ []));
      alive = λ r. ground (arith, h.alive r, responses-append r c.pending_responses entry);
      notified = h.notified;
    }

-- A step gives a context, and that is valid.
abbrev pub Succeeds : ℕ → List ℕ → Option ProtocolContext → Type 0
Succeeds max_pending held o = (c : ProtocolContext) × (o ≡ some c) × IsValid max_pending held c

-- The same, with a free place in the registry.
abbrev pub Frees : ℕ → Option ProtocolContext → Type 0
Frees max_pending o =
    (c : ProtocolContext) × (o ≡ some c)
    × IsValid max_pending [] c
    × (length c.pending_responses < max_pending)

-- What the code outside does with the context when a response is told something: it may use every
-- operation, and leaves the context valid, with that response still to be destroyed.
abbrev pub Keeps : ℕ → (Event → ProtocolContext → Option ProtocolContext) → Type 0
Keeps max_pending react =
    (v : Event) (r : ℕ) (c : ProtocolContext)
    → IsValid max_pending (r ∷ []) c
    → Succeeds max_pending (r ∷ []) (react v c)
