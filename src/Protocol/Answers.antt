-- ===== src/Protocol/Answers.antt =====
-- protocol_context.cpp: the answers to requests, on every branch.
use aether_client_cpp.Prelude.{ℕ, ◌≡◌, ◌⊎◌, [], Option, none, some, Option-cases, inl, inr}
use aether_client_cpp.Protocol.{
  PendingEntry, Event, ProtocolContext, find_entry, set_send_result_response,
  set_send_error_response, top,
}
use aether_client_cpp.Protocol.Bounds.{IsValid, Succeeds, Keeps}
use aether_client_cpp.Protocol.Callbacks.{
  answer_unknown, result-none, result-IsValid, error-IsValid,
}

module _ {max_pending : ℕ} {react : Event → ProtocolContext → Option ProtocolContext}
    (keeps : Keeps max_pending react) where
  -- What becomes of a result for a request that waits.
  result_waiting :
      (c : ProtocolContext) (id : ℕ) (e : PendingEntry)
      → IsValid max_pending [] c
      → find_entry id c.pending_responses ≡ some e
      → ((top c.parsers ≡ none) × (set_send_result_response max_pending react c id ≡ none))
        ⊎ Succeeds max_pending [] (set_send_result_response max_pending react c id)
  result_waiting c id e h f = elim (Option-cases (top c.parsers)) [
    | inl t ↦ inl ((t, result-none max_pending react c id e f t))
    | inr (p, t) ↦ inr (result-IsValid keeps c id e p h f t)
  ]

  -- In a valid context, whatever the callbacks do, if they leave it valid: either the request does
  -- not wait, and its result and its error both go through a null pointer; or it waits, its error
  -- succeeds and leaves the context valid, and so does its result, unless there is no parser, where
  -- this goes through a null pointer.
  pub answer_lem :
      (c : ProtocolContext) (id error_type error_code : ℕ)
      → IsValid max_pending [] c
      → ((find_entry id c.pending_responses ≡ none)
          × (set_send_result_response max_pending react c id ≡ none)
          × (set_send_error_response max_pending react c id error_type error_code ≡ none))
        ⊎ ((e : PendingEntry) × (find_entry id c.pending_responses ≡ some e)
            × Succeeds max_pending []
                (set_send_error_response max_pending react c id error_type error_code)
            × (((top c.parsers ≡ none) × (set_send_result_response max_pending react c id ≡ none))
                ⊎ Succeeds max_pending [] (set_send_result_response max_pending react c id)))
  answer_lem c id error_type error_code h =
      elim (Option-cases (find_entry id c.pending_responses)) [
        | inl n ↦
            let (r, e) = answer_unknown max_pending react c id error_type error_code n in
            inl ((n, r, e))
        | inr (e, f) ↦ inr (
            (e, f, error-IsValid keeps c id error_type error_code e h f, result_waiting c id e h f))
      ]
