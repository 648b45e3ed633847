-- ===== src/Protocol/Order.antt =====
-- protocol_context.cpp: which requests wait, with callbacks that leave the context alone.
use aether_client_cpp.Prelude.{
  ℕ, zero, suc, ◌+◌, ◌-◌, ◌<◌, ◌≤◌, ◌≡◌, refl, sym, ap, subst, ◌∙◌, arith, leb, ◌==◌, if◌then◌else◌,
  Bool-cases, List, [], ◌∷◌, ◌++◌, drop, Option, none, some, length, count, Option-cases, inl, inr,
}
use aether_client_cpp.Protocol.{
  PendingEntry, Event, ProtocolContext, find_entry, erase_entry, take_pending, take_oldest_pending,
  destroy_pending, notify, evict_pending, evict_oldest, make_room, prepare_pending_response_slot,
  create_pending_response,
}
use aether_client_cpp.Protocol.Registry.{requests, length-erase_entry, erase_entry-none}
use aether_client_cpp.Protocol.Bounds.{IsValid, Keeps}
use aether_client_cpp.Protocol.Callbacks.{prepare-Frees, emplace_lem, create-IsValid}

-- What is pending when the request of an id is made: the request of that id is gone, and the oldest
-- is gone where the registry is full.
abbrev pub survivors : ℕ → ℕ → List PendingEntry → List PendingEntry
survivors max_pending id es =
    let others = erase_entry id es in drop (length others + 1 - max_pending) others

abbrev pub quiet : Event → ProtocolContext → Option ProtocolContext
quiet v c = some c

-- The ids of the registry are distinct.
abbrev pub AreDistinct : List PendingEntry → Type 0
AreDistinct es = (k : ℕ) → count k (requests es) ≤ 1

-- The registry, and how many responses were made, of the context that a step gives.
abbrev pub view : Option ProtocolContext → Option (List PendingEntry × ℕ)
view none = none
view (some c) = some (c.pending_responses, c.next)

count-erase_entry :
    (id : ℕ) (es : List PendingEntry)
    → count id (requests (erase_entry id es)) ≡ count id (requests es) - 1
unfolding erase_entry count
count-erase_entry id [] = omega arith
count-erase_entry id (x ∷ es) = ground (arith, count-erase_entry id es)

count-drop :
    (k n : ℕ) (es : List PendingEntry) → count k (requests (drop n es)) ≤ count k (requests es)
unfolding count
count-drop k zero es = omega arith
count-drop k (suc n) [] = omega arith
count-drop k (suc n) (x ∷ es) = ground (arith, count-drop k n es)

count-add :
    (k : ℕ) (es : List PendingEntry) (e : PendingEntry)
    → count k (requests (es ++ e ∷ []))
      ≡ count k (requests es) + (if e.request_id == k then 1 else 0)
unfolding count
count-add k [] e = ground arith
count-add k (x ∷ es) e = ground (arith, count-add k es e)

view-evict_oldest :
    (max_pending : ℕ) (c : ProtocolContext) (e : PendingEntry) (es : List PendingEntry)
    → c.pending_responses ≡ e ∷ es
    → view (evict_oldest max_pending quiet c) ≡ some (es, c.next)
unfolding evict_oldest take_oldest_pending evict_pending notify destroy_pending
view-evict_oldest max_pending c e es h = rw h refl

-- The front of a list of at most `n` elements is dropped where it has `n`.
view-make_room :
    (max_pending : ℕ) (c : ProtocolContext) (es : List PendingEntry)
    → c.pending_responses ≡ es
    → 0 < max_pending
    → length es ≤ max_pending
    → view (make_room max_pending quiet c) ≡ some (drop (length es + 1 - max_pending) es, c.next)
unfolding make_room
view-make_room max_pending c es h p l =
    elim (Bool-cases (leb max_pending (length c.pending_responses))) [
      | inr free ↦
          rw (free, h)
            (ap (λ (n : ℕ). some (drop n es, c.next)) {x = 0} (ground (arith, free, ap length h)))
      | inl full ↦ rw full (when_full es h (ground (arith, full, ap length h)))
    ]
  where
    when_full :
        (es : List PendingEntry)
        → c.pending_responses ≡ es
        → max_pending ≡ length es
        → view (evict_oldest max_pending quiet c)
          ≡ some (drop (length es + 1 - max_pending) es, c.next)
    when_full [] h e = absurd (omega arith)
    when_full (e ∷ es) h e' =
        view-evict_oldest max_pending c e es h
        ∙ ap (λ (n : ℕ). some (drop n (e ∷ es), c.next)) {x = 1} (omega arith)

view-prepare :
    (max_pending : ℕ) (c : ProtocolContext) (id : ℕ)
    → 0 < max_pending
    → length c.pending_responses ≤ max_pending
    → view (prepare_pending_response_slot max_pending quiet c id)
      ≡ some (survivors max_pending id c.pending_responses, c.next)
unfolding prepare_pending_response_slot take_pending evict_pending notify destroy_pending
view-prepare max_pending c id p l = elim (Option-cases (find_entry id c.pending_responses)) [
  | inl n ↦
      rw (prepare_pending_response_slot, n, erase_entry-none id c.pending_responses n)
        (view-make_room max_pending c c.pending_responses refl p l)
  | inr (e, f) ↦
      let shorter = length-erase_entry id c.pending_responses e f in
      rw (prepare_pending_response_slot, f)
        (ap (λ (n : ℕ). some (drop n (erase_entry id c.pending_responses), c.next)) {x = 0}
          (omega (arith, shorter)))
]

-- The registry with an entry for one more response.
abbrev pub with_entry : ℕ → List PendingEntry × ℕ → List PendingEntry × ℕ
with_entry id (es, n) = (es ++ record { request_id = id; response = n } ∷ [], n + 1)

abbrev keeps_quiet : {max_pending : ℕ} → Keeps max_pending quiet
keeps_quiet v r c h = (c, refl, h)

-- With callbacks that leave the context alone, `CreatePendingResponse` on a valid context succeeds:
-- the registry then holds what it held, in order, without the request of the same id and, where
-- that leaves it full, without the oldest, and then the new request at its end.
pub create_lem :
    (max_pending : ℕ) (c : ProtocolContext) (id : ℕ)
    → 0 < max_pending
    → IsValid max_pending [] c
    → view (create_pending_response max_pending quiet c id)
      ≡ some (with_entry id (survivors max_pending id c.pending_responses, c.next))
unfolding create_pending_response
create_lem max_pending c id p h =
    let (c1, eq, h1, l) =
      prepare-Frees {react = quiet} (keeps_quiet {max_pending = max_pending}) c id p h in
    let prepared = view-prepare max_pending c id p (omega (arith, h.room)) in
    let seen : view (some c1) ≡ some (survivors max_pending id c.pending_responses, c.next) =
      ap view (sym eq) ∙ prepared in
    let made =
      emplace_lem {react = quiet} (keeps_quiet {max_pending = max_pending}) c1 id (c1.available - 1)
        (omega (arith, h1.room, l)) l in
    rw eq (ap view made ∙ ap (λ o. elim o [ none ↦ none | some v ↦ some (with_entry id v) ]) seen)

count-erase_entry_le :
    (id k : ℕ) (es : List PendingEntry)
    → count k (requests (erase_entry id es)) ≤ count k (requests es)
unfolding erase_entry count
count-erase_entry_le id k [] = omega arith
count-erase_entry_le id k (x ∷ es) = ground (arith, count-erase_entry_le id k es)

with_entry-AreDistinct :
    (max_pending : ℕ) (id n : ℕ) (es : List PendingEntry)
    → AreDistinct es
    → let (es1, n1) = with_entry id (survivors max_pending id es, n) in
      AreDistinct es1 × (count id (requests es1) ≡ 1)
with_entry-AreDistinct max_pending id n es d =
    let others = erase_entry id es in
    let m = length others + 1 - max_pending in
    let gone = count-erase_entry id es in
    let entry : PendingEntry = record { request_id = id; response = n } in
    let added = λ (k : ℕ). count-add k (drop m others) entry in
    (
      (λ k.
          ground (arith, added k, count-drop k m others, count-erase_entry_le id k es, d k, gone)),
      ground (arith, added id, count-drop id m others, d id, gone),
    )

-- When a context is valid and the ids of its registry are distinct, with callbacks that leave the
-- context alone, `CreatePendingResponse` gives a valid context in which they are distinct, and the
-- id of the request is one of them.
pub create-AreDistinct :
    (max_pending : ℕ) (c : ProtocolContext) (id : ℕ)
    → 0 < max_pending
    → IsValid max_pending [] c
    → AreDistinct c.pending_responses
    → (c1 : ProtocolContext) × (create_pending_response max_pending quiet c id ≡ some c1)
      × IsValid max_pending [] c1
      × AreDistinct c1.pending_responses
      × (count id (requests c1.pending_responses) ≡ 1)
create-AreDistinct max_pending c id p h d =
    let (c1, eq, h1) =
      create-IsValid {react = quiet} (keeps_quiet {max_pending = max_pending}) c id p h in
    let seen : some (c1.pending_responses, c1.next)
        ≡ view (create_pending_response max_pending quiet c id) =
      ap view (sym eq) in
    let there =
      ap (λ o. elim o [ none ↦ [] | some v ↦ v.0 ]) (seen ∙ create_lem max_pending c id p h) in
    let (d1, k1) = with_entry-AreDistinct max_pending id c.next c.pending_responses d in
    (c1, eq, h1, subst AreDistinct (sym there) d1, rw there k1)
