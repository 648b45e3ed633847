-- ===== src/Stream/Safe/Writes.antt =====
-- safe_stream.h: what becomes of the user's writes, and of the messages on their way.
use aether_client_cpp.Prelude.{
  ℕ, suc, ◌+◌, ◌-◌, ◌^◌, ◌≤◌, ◌<◌, ◌≡◌, ◌≢◌, inl, inr, refl, arith, ap, sym, ◌∙◌, ltb, ◌==◌, Bool,
  not, if◌then◌else◌, List, [], ◌∷◌, ◌++◌, none, map, erase_if, Bool-cases, take,
}
use aether_client_cpp.Ring.{RingIndex, RingRange, make, distance}
use aether_client_cpp.Ring.Distance.{IsCapacity}
use aether_client_cpp.Circular
use aether_client_cpp.Circular.{Bytes, size}
use aether_client_cpp.Circular.Contents.{IsValid, contents}
use aether_client_cpp.Circular.Erase.{erase_from_lem}
use aether_client_cpp.Chunks.Sending
use aether_client_cpp.Stream.Message.{
  DataMessage, SafeStreamConfig, CodeResult, done, failed, WriteStatus, success,
}
use aether_client_cpp.Stream.Sender
use aether_client_cpp.Stream.Sender.{Sender}
use aether_client_cpp.Stream.Sender.Invariant.{IsWell}
use aether_client_cpp.Stream.Sender.Ack.{acknowledge_lem}
use aether_client_cpp.Stream.Receiver
use aether_client_cpp.Stream.Receiver.{Receiver}
use aether_client_cpp.Stream.Safe.{
  SafeStream, Write, ApiCall, ack_call, request_repeat_call, send_reset_call, send_call, StreamInfo,
  api_call, data_call, on_receiver_event, on_receiver_events, with_receiver, status_of, payload_of,
  init, on_stream_update, is_up_to, finish_writes, on_sender_event, on_sender_events, with_sender,
  finish_write, write, stop_write, on_call, run_send, run_repeat, run_recv, run_ack, run_missing,
}

-- The call that carries a pushed message, handed to a stream, gives its receiver the message as it
-- was pushed, with or without a reset.
pub on_call-data_call :
    (cap : ℕ) (wait : List ℕ → ℕ → ℕ) (s : SafeStream) (now begin_offset : ℕ) (m : DataMessage)
    → on_call cap wait s now (data_call begin_offset m)
      ≡ with_receiver s (Receiver.push_data cap s.receiver begin_offset m)
unfolding on_call data_call
on_call-data_call capacity wait s now begin_offset m = elim (Bool-cases m.reset) [
  | inl r ↦ ground (arith, r)
  | inr r ↦ ground (arith, r)
]

-- How often an identity is waiting or has been reported.
pub waiting_count : ℕ → List Write → ℕ
waiting_count id [] = 0
waiting_count id (w ∷ ws) = if w.id == id then suc (waiting_count id ws) else waiting_count id ws

pub reported_count : ℕ → List (ℕ × WriteStatus) → ℕ
reported_count id [] = 0
reported_count id (r ∷ rs) = if r.0 == id then suc (reported_count id rs) else reported_count id rs

unfoldable pub accounted : ℕ → SafeStream → ℕ
accounted id s = waiting_count id s.sswas + reported_count id s.statuses

waiting_count-append :
    (id : ℕ) (xs ys : List Write)
    → waiting_count id (xs ++ ys) ≡ waiting_count id xs + waiting_count id ys
unfolding waiting_count
waiting_count-append id [] ys = omega arith
waiting_count-append id (x ∷ xs) ys = ground (arith, waiting_count-append id xs ys)

reported_count-append :
    (id : ℕ) (xs ys : List (ℕ × WriteStatus))
    → reported_count id (xs ++ ys) ≡ reported_count id xs + reported_count id ys
unfolding reported_count
reported_count-append id [] ys = omega arith
reported_count-append id (x ∷ xs) ys = ground (arith, reported_count-append id xs ys)

-- Each write is kept or reported.
count_split :
    (id : ℕ) (status : WriteStatus) (p : Write → Bool) (ws : List Write)
    → waiting_count id (erase_if p ws)
        + reported_count id (map (status_of status) (erase_if (λ w. not (p w)) ws))
      ≡ waiting_count id ws
unfolding waiting_count reported_count status_of
count_split id status p [] = omega arith
count_split id status p (w ∷ ws) = ground (arith, count_split id status p ws)

-- What leaves the account of every write as it was.
abbrev pub Keeps : SafeStream → SafeStream → Type 0
Keeps s s' = (s'.next_id ≡ s.next_id) × ((id : ℕ) → accounted id s' ≡ accounted id s)

module _ (cap : ℕ) where
  finish_writes-Keeps :
      (status : WriteStatus) (begin to : RingIndex) (s : SafeStream)
      → Keeps s (finish_writes cap status begin to s)
  unfolding finish_writes accounted
  finish_writes-Keeps status begin to s = (
    refl,
    λ id. omega (
      arith,
      count_split id status (is_up_to cap begin to) s.sswas,
      reported_count-append id s.statuses
          (map (status_of status) (erase_if (λ w. not (is_up_to cap begin to w)) s.sswas)),
    ),
  )

  on_sender_event-Keeps : (s : SafeStream) (e : Sender.Event) → Keeps s (on_sender_event cap s e)
  unfolding on_sender_event accounted api_call
  on_sender_event-Keeps s (Sender.acknowledged begin to) = finish_writes-Keeps _ begin to s
  on_sender_event-Keeps s (Sender.send_failed begin to) = finish_writes-Keeps _ begin to s
  on_sender_event-Keeps s (Sender.stopped begin to) = (refl, λ id. refl)
  on_sender_event-Keeps s (Sender.pushed begin_offset m) = (refl, λ id. refl)

  on_sender_events-Keeps :
      (s : SafeStream) (es : List Sender.Event) → Keeps s (on_sender_events cap s es)
  unfolding on_sender_events
  on_sender_events-Keeps s [] = (refl, λ id. refl)
  on_sender_events-Keeps s (e ∷ es) =
      let (n, k) = on_sender_event-Keeps s e in
      let (n', k') = on_sender_events-Keeps (on_sender_event cap s e) es in
      (n' ∙ n, λ id. k' id ∙ k id)

  with_sender-Keeps : (s : SafeStream) (sender : Sender) → Keeps s (with_sender cap s sender)
  unfolding with_sender accounted
  with_sender-Keeps s sender =
      on_sender_events-Keeps (record s { sender = record sender { log = [] } }) sender.log

on_receiver_events-Keeps :
    (s : SafeStream) (es : List Receiver.Event) → Keeps s (on_receiver_events s es)
unfolding on_receiver_events on_receiver_event accounted api_call
on_receiver_events-Keeps s [] = (refl, λ id. refl)
on_receiver_events-Keeps s (Receiver.received bytes ∷ es) =
    on_receiver_events-Keeps (on_receiver_event s (Receiver.received bytes)) es
on_receiver_events-Keeps s (Receiver.sent_ack index ∷ es) =
    on_receiver_events-Keeps (on_receiver_event s (Receiver.sent_ack index)) es
on_receiver_events-Keeps s (Receiver.sent_repeat_request index ∷ es) =
    on_receiver_events-Keeps (on_receiver_event s (Receiver.sent_repeat_request index)) es

with_receiver-Keeps : (s : SafeStream) (receiver : Receiver) → Keeps s (with_receiver s receiver)
unfolding with_receiver accounted
with_receiver-Keeps s receiver =
    on_receiver_events-Keeps (record s { receiver = record receiver { log = [] } }) receiver.log

-- What can happen to a stream: the user writes or stops a write, a call arrives, the stream below
-- changes, or a task runs.
pub data Step (cap : ℕ) (wait : List ℕ → ℕ → ℕ) : SafeStream → SafeStream → Type 0 where
  writes : (s : SafeStream) (bytes : List ℕ) → Step cap wait s (write cap s bytes).0
  stops : (s : SafeStream) (range : RingRange) → Step cap wait s (stop_write cap s range)
  calls : (s : SafeStream) (now : ℕ) (c : ApiCall) → Step cap wait s (on_call cap wait s now c)
  updates : (s : SafeStream) (info : StreamInfo) → Step cap wait s (on_stream_update cap s info)
  sends : (s : SafeStream) (now : ℕ) → Step cap wait s (run_send cap wait s now)
  repeats : (s : SafeStream) → Step cap wait s (run_repeat cap wait s)
  receives : (s : SafeStream) → Step cap wait s (run_recv cap s)
  acks : (s : SafeStream) → Step cap wait s (run_ack s)
  misses : (s : SafeStream) → Step cap wait s (run_missing cap s)

pub data Reach (cap : ℕ) (wait : List ℕ → ℕ → ℕ) (s : SafeStream) : SafeStream → Type 0 where
  here : Reach cap wait s s
  next : {t u : SafeStream} → Reach cap wait s t → Step cap wait t u → Reach cap wait s u

-- Each write that was accepted waits or was reported, and that once.
abbrev pub AllOnce : SafeStream → Type 0
AllOnce s = (id : ℕ) → accounted id s ≡ (if ltb id s.next_id then 1 else 0)

AllOnce-Keeps : (s s' : SafeStream) → Keeps s s' → AllOnce s → AllOnce s'
AllOnce-Keeps s s' (n, k) a id = k id ∙ a id ∙ ap (λ (m : ℕ). if ltb id m then 1 else 0) (sym n)

module _ (cap : ℕ) (wait : List ℕ → ℕ → ℕ) where
  finish_write-AllOnce :
      (s : SafeStream) (r : Sender × CodeResult RingRange)
      → AllOnce s
      → AllOnce (finish_write cap s r).0
  unfolding finish_write accounted waiting_count
  finish_write-AllOnce s (sender, failed code) a =
      AllOnce-Keeps s (with_sender cap s sender) (with_sender-Keeps cap s sender) a
  finish_write-AllOnce s (sender, done range) a = λ id.
      let s1 = with_sender cap s sender in
      let w : Write = record { index = range.right; id = s1.next_id; index_range = range } in
      ground (
        arith,
        AllOnce-Keeps s s1 (with_sender-Keeps cap s sender) a id,
        waiting_count-append id s1.sswas (w ∷ []),
      )

  on_call-Keeps : (s : SafeStream) (now : ℕ) (c : ApiCall) → Keeps s (on_call cap wait s now c)
  unfolding on_call
  on_call-Keeps s now (ack_call index) = with_sender-Keeps cap s _
  on_call-Keeps s now (request_repeat_call index) = with_sender-Keeps cap s _
  on_call-Keeps s now (send_reset_call b d n bytes) = with_receiver-Keeps s _
  on_call-Keeps s now (send_call b d n bytes) = with_receiver-Keeps s _

  Step-AllOnce : {s u : SafeStream} → Step cap wait s u → AllOnce s → AllOnce u
  unfolding write stop_write on_stream_update run_send run_repeat run_recv run_ack run_missing
      accounted
  Step-AllOnce (writes s bytes) a = finish_write-AllOnce s (Sender.send_data cap s.sender bytes) a
  Step-AllOnce (stops s range) a =
      AllOnce-Keeps s (stop_write cap s range) (with_sender-Keeps cap s _) a
  Step-AllOnce (calls s now c) a =
      AllOnce-Keeps s (on_call cap wait s now c) (on_call-Keeps s now c) a
  Step-AllOnce (updates s info) a = a
  Step-AllOnce (sends s now) a =
      AllOnce-Keeps s (run_send cap wait s now) (with_sender-Keeps cap s _) a
  Step-AllOnce (repeats s) a = AllOnce-Keeps s (run_repeat cap wait s) (with_sender-Keeps cap s _) a
  Step-AllOnce (receives s) a = AllOnce-Keeps s (run_recv cap s) (with_receiver-Keeps s _) a
  Step-AllOnce (acks s) a = AllOnce-Keeps s (run_ack s) (with_receiver-Keeps s _) a
  Step-AllOnce (misses s) a = AllOnce-Keeps s (run_missing cap s) (with_receiver-Keeps s _) a

  Reach-AllOnce : {s u : SafeStream} → Reach cap wait s u → AllOnce s → AllOnce u
  Reach-AllOnce here a = a
  Reach-AllOnce (next r st) a = Step-AllOnce st (Reach-AllOnce r a)

  -- From a new stream on, after any sequence of writes, stops, calls from the other end, updates of
  -- the stream below and runs of the tasks, each write that was accepted either still waits or has
  -- reported its status, and that exactly once; no other identity waits or was reported.
  pub writes_once :
      (config : SafeStreamConfig) (offset : ℕ) (memory recv_memory : Bytes) {s : SafeStream}
      (id : ℕ)
      → Reach cap wait (init cap config offset memory recv_memory) s
      → waiting_count id s.sswas + reported_count id s.statuses
        ≡ (if ltb id s.next_id then 1 else 0)
  unfolding init accounted waiting_count reported_count
  writes_once config offset memory recv_memory id r = Reach-AllOnce r start id
    where
      start : AllOnce (init cap config offset memory recv_memory)
      start k = ground arith

-- After an update of the stream below with a 64-bit element size, the payload is 0 for size 0, the
-- size less 8 from 8 on, and for the sizes from 1 to 7 a number that has wrapped round 2^64.
pub on_stream_update-payload :
    (cap : ℕ) (s : SafeStream) (info : StreamInfo)
    → info.rec_element_size < 2 ^ 64
    → (on_stream_update cap s info).sender.max_payload_size ≡ (
        if info.rec_element_size == 0
        then 0
        else if ltb info.rec_element_size 8
        then 2 ^ 64 + info.rec_element_size - 8
        else info.rec_element_size - 8)
unfolding on_stream_update payload_of Sender.set_max_payload Sender.enqueue_send
on_stream_update-payload capacity s info h = ground arith

-- For a stream whose sender is well-formed and has nothing to emit, an acknowledgement of a byte
-- that the sender holds, other than the one to be sent next, reports success for just the waiting
-- writes that end no further from the buffer's begin than that byte, and these no longer wait.
pub on_call-ack :
    {cap : ℕ} (w : IsCapacity cap) (wait : List ℕ → ℕ → ℕ) (s : SafeStream)
    (i : IsWell cap s.sender) (now index : ℕ)
    → s.sender.log ≡ []
    → distance cap s.sender.sending_buffer.begin (make cap index) < size cap s.sender.sending_buffer
    → make cap index ≢ s.sender.last_sent
    → let s' = on_call cap wait s now (ack_call index) in
      let done_now = is_up_to cap s.sender.sending_buffer.begin (make cap index) in
      (s'.statuses
        ≡ s.statuses ++ map (λ v. (v.id, success)) (erase_if (λ v. not (done_now v)) s.sswas))
      × (s'.sswas ≡ erase_if done_now s.sswas)
unfolding on_call with_sender on_sender_events on_sender_event finish_writes status_of
on_call-ack {cap} w wait s i now index quiet held other =
    let after = acknowledge_lem w wait i now index held other in
    let logged =
      after.4
      ∙ ap (λ es. es ++ Sender.acknowledged s.sender.sending_buffer.begin (make cap index) ∷ [])
          quiet in
    rw logged (refl, refl)

-- For a stream whose sender has nothing to emit and whose buffer's indices are in the ring,
-- stopping a write at a range of which no chunk was sent, and which begins no further from the
-- buffer's begin than its end, drops all bytes from the range's left end on, later writes included,
-- while all writes still wait and none is reported.
pub stop_write-unsent :
    {cap : ℕ} (w : IsCapacity cap) (s : SafeStream) (v : IsValid cap s.sender.sending_buffer)
    (range : RingRange)
    → s.sender.log ≡ []
    → Sending.select cap s.sender.sending_chunks range ≡ none
    → range.left < cap
    → distance cap s.sender.sending_buffer.begin range.left ≤ size cap s.sender.sending_buffer
    → let s' = stop_write cap s range in
      (contents cap s'.sender.sending_buffer
        ≡ take
            (distance cap s.sender.sending_buffer.begin range.left)
            (contents cap s.sender.sending_buffer))
      × (s'.sswas ≡ s.sswas)
      × (s'.statuses ≡ s.statuses)
unfolding stop_write with_sender on_sender_events on_sender_event Sender.stop_range Sender.emit
stop_write-unsent {cap} w s v range quiet unsent inside held =
    let told = Sender.emit s.sender (Sender.stopped s.sender.sending_buffer.begin range.right) in
    let shorter : Sender = record told {
      sending_buffer = Circular.erase_from cap s.sender.sending_buffer range.left;
    } in
    let run : stop_write cap s range ≡ with_sender cap s shorter =
      ap (with_sender cap s) {x = Sender.stop_range cap s.sender range} {y = shorter}
        (ground (arith, unsent)) in
    rw run (rw quiet (ground (arith, erase_from_lem w v range.left inside), refl, refl))
