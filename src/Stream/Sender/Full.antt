-- ===== src/Stream/Sender/Full.antt =====
-- safe_stream_send_action.h: `SendChunk` while the window is full.
use aether_client_cpp.Prelude.{
  ℕ, ◌+◌, ◌≤◌, ◌<◌, ◌≡◌, ◌≢◌, refl, arith, ap, ◌∙◌, List, [], ◌∷◌, ◌++◌, none, some, drop, find_if,
}
use aether_client_cpp.Prelude.Sizes.{to_uint8}
use aether_client_cpp.Ring.{distance, plus, minus}
use aether_client_cpp.Ring.Distance.{IsCapacity, plus_lem}
use aether_client_cpp.Circular.{DSpan, dspan_size}
use aether_client_cpp.Chunks.Sending
use aether_client_cpp.Stream.Sender.{
  Sender, emit, enqueue_send, forget_up_to, reject_send, register_chunk, next_chunk,
  send_registered, send_next, send_chunk, count_repeat, send_failed,
}
use aether_client_cpp.Stream.Sender.Invariant.{IsWell, on_the_go, pending, reject_send-IsWell}
use aether_client_cpp.Stream.Sender.Send.{
  get_next_chunk-full, send_registered-empty, send_registered-reject, send_chunk-next,
  register_chunk-IsWell, repeats,
}

find_if-append_last :
    (left : ℕ) (cs : List Sending.Chunk) (c : Sending.Chunk)
    → find_if (Sending.starts_at left) cs ≡ none
    → c.range.left ≡ left
    → find_if (Sending.starts_at left) (cs ++ c ∷ []) ≡ some c
find_if-append_last left [] c h e = ground arith
find_if-append_last left (x ∷ cs) c h e = ground (arith, find_if-append_last left cs c)

reject_send-log :
    (cap : ℕ) (s : Sender) (end_index : ℕ)
    → (reject_send cap s end_index).log ≡ s.log ++ send_failed s.sending_buffer.begin end_index ∷ []
unfolding reject_send forget_up_to emit enqueue_send
reject_send-log capacity s end_index = refl

abbrev nothing : DSpan
nothing = record { first = []; second = [] }

module _ {cap : ℕ} (w : IsCapacity cap) (wait : List ℕ → ℕ → ℕ) {s : Sender} (i : IsWell cap s)
    (now : ℕ) (payload : s.max_payload_size ≢ 0) (full : on_the_go cap s ≡ s.window_size) where
  same_index : plus cap s.last_sent 0 ≡ s.last_sent
  same_index = ground (arith, plus_lem w s.last_sent 0 i.sent_in)

  run_full :
      send_chunk cap wait s now
      ≡ send_registered cap wait
          (register_chunk cap s nothing now)
          nothing
          (next_chunk cap s nothing now)
  unfolding send_next
  run_full =
      send_chunk-next w wait i now payload
      ∙ ap (send_next cap wait s now) (get_next_chunk-full w i (omega arith))

  empty_reg : IsWell cap (register_chunk cap s nothing now)
  unfolding dspan_size
  empty_reg =
      (register_chunk-IsWell w i nothing now (omega (arith, i.sent_window))
        (omega (arith, i.sent_held))).0

  -- If the sender is well-formed, a payload size is set, the window is full, the chunk that is next
  -- has repeats left and is registered at most once, `SendChunk` pushes and moves nothing, but
  -- counts one more repeat of that chunk.
  pub full_window_counts :
      to_uint8 (repeats w wait i now + 1) ≤ s.max_repeat_count
      → find_if
          (Sending.starts_at s.last_sent)
          (Sending.erase_first s.last_sent s.sending_chunks.chunks)
        ≡ none
      → let s' = send_chunk cap wait s now in
        (s'.log ≡ s.log)
        × (s'.last_sent ≡ s.last_sent)
        × (s'.sending_buffer ≡ s.sending_buffer)
        × ((Sending.registered s'.sending_chunks
              (record { left = s.last_sent; right = s.last_sent })
              0).repeat_count
            ≡ to_uint8 (repeats w wait i now + 1))
  unfolding register_chunk next_chunk count_repeat Sending.registered Sending.register dspan_size
  full_window_counts few unique =
      let chunk = next_chunk cap s nothing now in
      rw (run_full ∙ send_registered-empty w wait empty_reg nothing chunk few refl) (
        refl,
        same_index,
        refl,
        ground (
          arith,
          find_if-append_last s.last_sent (Sending.erase_first s.last_sent s.sending_chunks.chunks)
              chunk unique refl,
        ),
      )

  -- If the sender is well-formed, a payload size is set, the window is full and one more repeat of
  -- the chunk that is next exceeds the limit, `SendChunk` reports the failure of all that is on the
  -- way and drops it from what is pending.
  pub full_window_rejects :
      s.max_repeat_count < to_uint8 (repeats w wait i now + 1)
      → let s' = send_chunk cap wait s now in
        (s'.log ≡ s.log ++ send_failed s.sending_buffer.begin (minus cap s.last_sent 1) ∷ [])
        × (pending cap s' ≡ drop s.window_size (pending cap s))
        × (on_the_go cap s' ≡ 0)
  unfolding register_chunk next_chunk count_repeat Sending.registered Sending.register dspan_size
  full_window_rejects many =
      let chunk = next_chunk cap s nothing now in
      let s1 = register_chunk cap s nothing now in
      let rejected = reject_send-IsWell w empty_reg in
      rw (run_full ∙ send_registered-reject w wait empty_reg nothing chunk many) (
        reject_send-log cap s1 (minus cap s1.last_sent 1)
            ∙ ap (λ x. s.log ++ send_failed s.sending_buffer.begin (minus cap x 1) ∷ []) same_index,
        rejected.1
            ∙ ap (λ (k : ℕ). drop k (pending cap s))
                (ap (distance cap s.sending_buffer.begin) same_index ∙ full),
        rejected.2,
      )
