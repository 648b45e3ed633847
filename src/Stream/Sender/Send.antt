-- ===== src/Stream/Sender/Send.antt =====
-- safe_stream_send_action.h: `SendChunk` on every branch.
use aether_client_cpp.Prelude.{
  ℕ, ◌+◌, ◌-◌, ◌≤◌, ◌<◌, ◌≡◌, ◌≢◌, refl, arith, ap, ap₂, sym, ◌∙◌, subst, true, List, [], ◌∷◌, ◌++◌,
  length, take, drop, length-drop, length-take, length-append, min, dec_le, ℕ_discrete,
}
use aether_client_cpp.Prelude.Sizes.{to_uint16, to_uint8}
use aether_client_cpp.Ring.{distance, plus, minus}
use aether_client_cpp.Ring.Distance.{IsCapacity, plus-lt, distance-plus}
use aether_client_cpp.Circular
use aether_client_cpp.Circular.{CircularBuffer, DSpan, dspan_size, empty_buffer, size}
use aether_client_cpp.Circular.Contents.{contents, length-contents}
use aether_client_cpp.Circular.Read.{read_refines, read_list, shown_ok, shown_err}
use aether_client_cpp.Chunks.Sending
use aether_client_cpp.Stream.Message.{done, failed}
use aether_client_cpp.Stream.Sender.{
  Sender, emit, enqueue_send, reject_send, enqueue_repeat_timeout, payload_size, get_next_chunk,
  read_result, register_chunk, next_chunk, push_data, send_registered, send_next, send_chunk,
  count_repeat, pushed,
}
use aether_client_cpp.Stream.Sender.Invariant.{
  IsWell, IsWell-frame, on_the_go, pending, enqueue_repeat_timeout_lem, reject_send-IsWell,
}

module _ {cap : ℕ} (w : IsCapacity cap) {s : Sender} (i : IsWell cap s) where
  -- The payload that the window leaves room for, without wrap-around.
  abbrev pub room_left : ℕ
  room_left = min s.max_payload_size (s.window_size - on_the_go cap s)

  payload_size_lem : payload_size cap s ≡ room_left
  unfolding payload_size
  payload_size_lem = omega (arith, i.sent_window, i.window, w.small)

  -- The bytes that the next chunk carries.
  abbrev pub next_bytes : List ℕ
  next_bytes = take room_left (drop (on_the_go cap s) (pending cap s))

  -- The chunk: nothing while the window is full, an error with code 0 if all is sent, or else the
  -- next bytes.
  pub get_next_chunk-full :
      room_left ≡ 0 → get_next_chunk cap s ≡ done (record { first = []; second = [] })
  unfolding get_next_chunk
  get_next_chunk-full h = ground (arith, payload_size_lem)

  get_next_chunk-sent :
      room_left ≢ 0 → on_the_go cap s ≡ size cap s.sending_buffer → get_next_chunk cap s ≡ failed 0
  unfolding get_next_chunk read_result read_list
  get_next_chunk-sent h e = ground (
    arith,
    payload_size_lem,
    shown_err (Circular.read cap s.sending_buffer s.last_sent (payload_size cap s)) empty_buffer (
        read_refines w s.sending_buffer i.valid s.last_sent (payload_size cap s) i.sent_in
        ∙ ground (arith, length-contents w s.sending_buffer)),
  )

  get_next_chunk-more :
      room_left ≢ 0
      → on_the_go cap s < size cap s.sending_buffer
      → (d : DSpan) × (get_next_chunk cap s ≡ done d) × (d.first ++ d.second ≡ next_bytes)
  unfolding get_next_chunk read_result read_list
  get_next_chunk-more h e =
      let n = payload_size cap s in
      let (d, read, bytes) =
        shown_ok (Circular.read cap s.sending_buffer s.last_sent n)
          (take n (drop (on_the_go cap s) (pending cap s)))
          (read_refines w s.sending_buffer i.valid s.last_sent n i.sent_in
            ∙ ground (arith, length-contents w s.sending_buffer)) in
      (
        d,
        ground (arith, payload_size_lem, read),
        bytes ∙ ap (λ k. take k (drop (on_the_go cap s) (pending cap s))) payload_size_lem,
      )

  -- Registering a span moves the index past it.
  pub register_chunk-IsWell :
      (d : DSpan) (now : ℕ)
      → on_the_go cap s + dspan_size d ≤ s.window_size
      → on_the_go cap s + dspan_size d ≤ size cap s.sending_buffer
      → IsWell cap (register_chunk cap s d now)
        × (on_the_go cap (register_chunk cap s d now) ≡ on_the_go cap s + dspan_size d)
  unfolding register_chunk Sending.register
  register_chunk-IsWell d now h k =
      let moved : distance cap s.sending_buffer.begin (plus cap s.last_sent (dspan_size d))
          ≡ on_the_go cap s + dspan_size d =
        distance-plus w s.sending_buffer.begin s.last_sent (dspan_size d) i.valid.begin_in i.sent_in
          (omega (arith, i.window)) in
      (
        record {
          window = i.window;
          valid = i.valid;
          sent_in = plus-lt w s.last_sent (dspan_size d);
          sent_held = omega (arith, moved);
          sent_window = omega (arith, moved);
          begins = i.begins;
        },
        moved,
      )

-- `SendChunk` after the chunk is registered: a repeat too many rejects all that was sent, an empty
-- chunk is not pushed, and any other is pushed.
module _ {cap : ℕ} (w : IsCapacity cap) (wait : List ℕ → ℕ → ℕ) {s : Sender}
    (i : IsWell cap s) where
  -- What a push leaves: the timer may be set, the next task is enqueued, the message is logged.
  abbrev AfterPush : DSpan → Sending.Chunk → Sender → Type 0
  AfterPush d chunk s' =
      IsWell cap s'
      × (s'.log
          ≡ s.log
            ++ pushed (to_uint16 s.sending_buffer.begin) (record {
              reset = s.init_state;
              repeat_count = to_uint8 (chunk.repeat_count + 255);
              delta_offset = to_uint16 (distance cap s.sending_buffer.begin chunk.range.left);
              bytes = d.first ++ d.second;
            })
              ∷ [])
      × (s'.sending_buffer ≡ s.sending_buffer)
      × (s'.last_sent ≡ s.last_sent)

  send_registered-push :
      (d : DSpan) (chunk : Sending.Chunk)
      → chunk.repeat_count ≤ s.max_repeat_count
      → dspan_size d ≢ 0
      → AfterPush d chunk (send_registered cap wait s d chunk)
  unfolding send_registered push_data emit enqueue_send
  send_registered-push d chunk h k =
      let (timer, e) =
        enqueue_repeat_timeout_lem cap wait (
          enqueue_send
            (push_data cap s d chunk.range.left (to_uint8 (chunk.repeat_count + 255)))) in
      let eq : send_registered cap wait s d chunk
          ≡ enqueue_repeat_timeout cap wait (
              enqueue_send
                (push_data cap s d chunk.range.left (to_uint8 (chunk.repeat_count + 255)))) =
        ground arith in
      subst (AfterPush d chunk) (sym (eq ∙ e)) (
        IsWell-frame s.max_payload_size s.init_state s.response_statistics timer true _ i,
        refl,
        refl,
        refl,
      )

  pub send_registered-empty :
      (d : DSpan) (chunk : Sending.Chunk)
      → chunk.repeat_count ≤ s.max_repeat_count
      → dspan_size d ≡ 0
      → send_registered cap wait s d chunk ≡ s
  unfolding send_registered
  send_registered-empty d chunk h k = ground arith

  pub send_registered-reject :
      (d : DSpan) (chunk : Sending.Chunk)
      → s.max_repeat_count < chunk.repeat_count
      → send_registered cap wait s d chunk ≡ reject_send cap s (minus cap s.last_sent 1)
  unfolding send_registered
  send_registered-reject d chunk h = ground arith

  send_registered-IsWell :
      (d : DSpan) (chunk : Sending.Chunk) → IsWell cap (send_registered cap wait s d chunk)
  send_registered-IsWell d chunk = elim (dec_le chunk.repeat_count s.max_repeat_count) [
    | no many ↦
        subst (IsWell cap) (sym (send_registered-reject d chunk (omega arith)))
          (reject_send-IsWell w i).0
    | yes few ↦ elim (ℕ_discrete (dspan_size d) 0) [
      | yes none_left ↦ subst (IsWell cap) (sym (send_registered-empty d chunk few none_left)) i
      | no more ↦ (send_registered-push d chunk few more).0
    ]
  ]

dspan_size-length : (d : DSpan) → dspan_size d ≡ length (d.first ++ d.second)
unfolding dspan_size
dspan_size-length d = sym (length-append d.first d.second)

module _ {cap : ℕ} (w : IsCapacity cap) (wait : List ℕ → ℕ → ℕ) {s : Sender} (i : IsWell cap s)
    (now : ℕ) where
  pub send_chunk-next :
      s.max_payload_size ≢ 0
      → send_chunk cap wait s now ≡ send_next cap wait s now (get_next_chunk cap s)
  unfolding send_chunk
  send_chunk-next h = ground arith

  length-next_bytes :
      length (next_bytes w i)
      ≡ min
          (min s.max_payload_size (s.window_size - on_the_go cap s))
          (size cap s.sending_buffer - on_the_go cap s)
  length-next_bytes = omega (
    arith,
    length-take (room_left w i) (drop (on_the_go cap s) (pending cap s)),
    length-drop (on_the_go cap s) (pending cap s),
    length-contents w s.sending_buffer,
  )

  next-IsWell :
      (d : DSpan)
      → d.first ++ d.second ≡ next_bytes w i
      → IsWell cap (register_chunk cap s d now)
        × (on_the_go cap (register_chunk cap s d now) ≡ on_the_go cap s + dspan_size d)
  next-IsWell d e =
      let n : dspan_size d ≡ length (next_bytes w i) = dspan_size-length d ∙ ap length e in
      register_chunk-IsWell w i d now (omega (arith, length-next_bytes, i.sent_window))
        (omega (arith, length-next_bytes, i.sent_held))

  empty-IsWell : IsWell cap (register_chunk cap s (record { first = []; second = [] }) now)
  unfolding dspan_size
  empty-IsWell =
      (register_chunk-IsWell w i (record { first = []; second = [] }) now
        (omega (arith, i.sent_window)) (omega (arith, i.sent_held))).0

  -- Whatever `GetNextChunk` gives.
  send_next-IsWell : IsWell cap (send_next cap wait s now (get_next_chunk cap s))
  unfolding send_next
  send_next-IsWell = elim (ℕ_discrete (room_left w i) 0) [
    | yes full ↦ rw (get_next_chunk-full w i full) (send_registered-IsWell w wait empty-IsWell _ _)
    | no h ↦ elim (ℕ_discrete (on_the_go cap s) (size cap s.sending_buffer)) [
      | yes all_sent ↦ rw (get_next_chunk-sent w i h all_sent) i
      | no more ↦
          let (d, e, bytes) = get_next_chunk-more w i h (omega (arith, i.sent_held)) in
          rw e (send_registered-IsWell w wait (next-IsWell d bytes).0 _ _)
    ]
  ]

  -- How often the chunk that would be sent next was sent before.
  abbrev pub repeats : ℕ
  repeats =
      (Sending.registered s.sending_chunks (record { left = s.last_sent; right = s.last_sent })
        0).repeat_count

  -- If the sender is well-formed, a payload size is set, the window has room, bytes wait to be sent
  -- and the next chunk has repeats left, `SendChunk` pushes one message: as many of the next bytes
  -- as the payload and the window allow, at their distance from the buffer's begin. These are then
  -- on the way as well, and the buffer still holds them.
  pub send_chunk_pushes :
      s.max_payload_size ≢ 0
      → on_the_go cap s < s.window_size
      → on_the_go cap s < size cap s.sending_buffer
      → to_uint8 (repeats + 1) ≤ s.max_repeat_count
      → let s' = send_chunk cap wait s now in
        let bytes =
          take
            (min s.max_payload_size (s.window_size - on_the_go cap s))
            (drop (on_the_go cap s) (pending cap s)) in
        (s'.log
          ≡ s.log
            ++ pushed (to_uint16 s.sending_buffer.begin) (record {
              reset = s.init_state;
              repeat_count = to_uint8 (to_uint8 (repeats + 1) + 255);
              delta_offset = to_uint16 (on_the_go cap s);
              bytes = bytes;
            })
              ∷ [])
        × (on_the_go cap s' ≡ on_the_go cap s + length bytes)
        × (0 < length bytes)
        × (pending cap s' ≡ pending cap s)
  unfolding send_chunk send_next register_chunk next_chunk count_repeat Sending.registered
  send_chunk_pushes payload room waiting few =
      let (d, e, bytes) = get_next_chunk-more w i (omega arith) waiting in
      let reg = next-IsWell d bytes in
      let chunk = next_chunk cap s d now in
      let n : dspan_size d ≡ length (next_bytes w i) = dspan_size-length d ∙ ap length bytes in
      let pushes =
        send_registered-push w wait reg.0 d chunk few (omega (arith, length-next_bytes)) in
      let run : send_chunk cap wait s now
          ≡ send_registered cap wait (register_chunk cap s d now) d chunk =
        send_chunk-next payload ∙ ap (send_next cap wait s now) e in
      rw run (
        pushes.1
            ∙ ap
                (λ bs.
                  s.log
                  ++ pushed (to_uint16 s.sending_buffer.begin) (record {
                    reset = s.init_state;
                    repeat_count = to_uint8 (to_uint8 (repeats + 1) + 255);
                    delta_offset = to_uint16 (on_the_go cap s);
                    bytes = bs;
                  })
                    ∷ [])
                bytes,
        ap₂ (λ (c : CircularBuffer) (x : ℕ). distance cap c.begin x) pushes.2 pushes.3
            ∙ reg.1
            ∙ ap (λ k. on_the_go cap s + k) n,
        omega (arith, length-next_bytes),
        ap (contents cap) pushes.2,
      )

  -- `SendChunk` keeps a well-formed sender well-formed, on every branch: what is on the way is held
  -- by the buffer and fits the window, and the chunk list measures from the buffer's begin.
  pub send_chunk-IsWell : IsWell cap (send_chunk cap wait s now)
  unfolding send_chunk
  send_chunk-IsWell = elim (ℕ_discrete s.max_payload_size 0) [
    | yes unset ↦ subst (IsWell cap) (sym (unset_lem unset)) i
    | no h ↦ subst (IsWell cap) (sym (send_chunk-next h)) send_next-IsWell
  ]
    where
      unset_lem : s.max_payload_size ≡ 0 → send_chunk cap wait s now ≡ s
      unset_lem h = ground arith
