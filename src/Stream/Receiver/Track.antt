-- ===== src/Stream/Receiver/Track.antt =====
-- safe_stream_recv_action.h: the receiver against the stream of bytes that its peer sends.
use aether_client_cpp.Prelude.{
  ℕ, ◌+◌, ◌-◌, ◌/◌, ◌≤◌, ◌<◌, max, subst, ◌≡◌, refl, arith, ap, sym, ◌∙◌, ltb, Bool, true, ◌||◌,
  if◌then◌else◌, List, [], ◌∷◌, ◌++◌, some, length, get_or, append_assoc, append-nil,
}
use aether_client_cpp.Ring.{RingRange, distance, plus}
use aether_client_cpp.Ring.Distance.{IsCapacity}
use aether_client_cpp.Circular.{CircularBuffer, size, insert}
use aether_client_cpp.Circular.Contents.{IsValid}
use aether_client_cpp.Circular.Insert.{begin-insert, size-insert, insert_at, insert-IsValid}
use aether_client_cpp.Chunks.Receiving.{ReceiveChunkList, ChunkAddResult, insert_range}
use aether_client_cpp.Chunks.Receiving.Ranges.{
  IsChain, covered, covers, insert_range-IsChain, covered-insert_range,
}
use aether_client_cpp.Stream.Positions.{segment, index_of, index_of-lt}
use aether_client_cpp.Chunks.Receiving.Adding.{
  AddOutcome, ignored, repeated, placed, add_chunk-AddOutcome,
}
use aether_client_cpp.Stream.Receiver.{
  enqueue_recv, enqueue_ack, handle_added, handle_range, Receiver, Event, received, sent_ack,
  sent_repeat_request,
}

-- What the receiver has handed to its user.
unfoldable pub emitted : List Event → List ℕ
emitted [] = []
emitted (received bytes ∷ es) = bytes ++ emitted es
emitted (sent_ack index ∷ es) = emitted es
emitted (sent_repeat_request index ∷ es) = emitted es

-- The receiver has handed on the first `done` bytes of `source`, and each byte that it holds ahead
-- of them is the stream's.
pub record Tracks (cap base : ℕ) (source : ℕ → ℕ) (done : ℕ) (s : Receiver) (l : ReceiveChunkList)
    : Type 0 where
  pub window : s.window_size < cap / 2
  pub valid : IsValid cap s.buffer
  pub current : s.chunks ≡ some l
  pub position : s.buffer.begin ≡ index_of cap base done
  pub begins : l.buffer_begin ≡ index_of cap base done
  pub chain : IsChain cap (index_of cap base done) 0 l.ranges
  pub held :
      (k : ℕ) → covered cap (index_of cap base done) l.ranges k ≡ true → k < size cap s.buffer
  pub small : size cap s.buffer ≤ s.window_size + 1
  pub agrees :
      (k : ℕ)
      → covered cap (index_of cap base done) l.ranges k ≡ true
      → s.buffer.buffer (plus cap (index_of cap base done) k) ≡ source (done + k)
  pub prefix : emitted s.log ≡ segment source 0 done

pub emitted-append : (es fs : List Event) → emitted (es ++ fs) ≡ emitted es ++ emitted fs
unfolding emitted
emitted-append [] fs = refl
emitted-append (received bytes ∷ es) fs =
    rw (emitted-append es fs) (sym (append_assoc bytes (emitted es) (emitted fs)))
emitted-append (sent_ack index ∷ es) fs = emitted-append es fs
emitted-append (sent_repeat_request index ∷ es) fs = emitted-append es fs

pub emitted-received :
    (es : List Event) (bytes : List ℕ) → emitted (es ++ received bytes ∷ []) ≡ emitted es ++ bytes
unfolding emitted
emitted-received es bytes =
    emitted-append es (received bytes ∷ []) ∙ ap (◌++◌ (emitted es)) (append-nil bytes)

pub emitted-sent_ack :
    (es : List Event) (index : ℕ) → emitted (es ++ sent_ack index ∷ []) ≡ emitted es
unfolding emitted
emitted-sent_ack es index = emitted-append es (sent_ack index ∷ []) ∙ append-nil (emitted es)

pub emitted-sent_repeat_request :
    (es : List Event) (index : ℕ) → emitted (es ++ sent_repeat_request index ∷ []) ≡ emitted es
unfolding emitted
emitted-sent_repeat_request es index =
    emitted-append es (sent_repeat_request index ∷ []) ∙ append-nil (emitted es)

-- Timers, and entries of the log that hand on no data, change nothing of this.
pub Tracks-frame :
    {cap base done : ℕ} {source : ℕ → ℕ} {s : Receiver} {l : ReceiveChunkList}
    (recv ack missing : Bool) (log : List Event)
    → emitted log ≡ emitted s.log
    → Tracks cap base source done s l
    → Tracks cap base source done
        (record s { recv_enqueued = recv; ack_timer = ack; missing_timer = missing; log = log })
        l
Tracks-frame recv ack missing log e t = record {
  window = t.window;
  valid = t.valid;
  current = t.current;
  position = t.position;
  begins = t.begins;
  chain = t.chain;
  held = t.held;
  small = t.small;
  agrees = t.agrees;
  prefix = e ∙ t.prefix;
}

-- `Insert` seen from the begin index, whatever it is called.
module _ {cap : ℕ} (w : IsCapacity cap) (b : ℕ) {c : CircularBuffer} (v : IsValid cap c)
    (e : c.begin ≡ b) (pos : ℕ) (bytes : List ℕ) (hp : pos < cap)
    (room : distance cap b pos + length bytes < cap) where
  insert_begin : (insert cap c pos bytes).0.begin ≡ b
  insert_begin = begin-insert w v pos bytes hp ∙ e

  size-insert_le :
      size cap (insert cap c pos bytes).0 ≡ max (size cap c) (distance cap b pos + length bytes)
  size-insert_le =
      subst
        (λ x.
          distance cap x pos + length bytes < cap
          → size cap (insert cap c pos bytes).0
            ≡ max (size cap c) (distance cap x pos + length bytes))
        e (size-insert w v pos bytes hp) room

  insert_byte :
      (k : ℕ)
      → k < cap
      → (insert cap c pos bytes).0.buffer (plus cap b k) ≡ (
          if ltb k (distance cap b pos)
          then c.buffer (plus cap b k)
          else if ltb k (distance cap b pos + length bytes)
          then get_or bytes (k - distance cap b pos) 0
          else c.buffer (plus cap b k))
  insert_byte =
      subst
        (λ x.
          distance cap x pos + length bytes < cap
          → (k : ℕ) → k < cap
          → (insert cap c pos bytes).0.buffer (plus cap x k) ≡ (
              if ltb k (distance cap x pos)
              then c.buffer (plus cap x k)
              else if ltb k (distance cap x pos + length bytes)
              then get_or bytes (k - distance cap x pos) 0
              else c.buffer (plus cap x k)))
        e (insert_at w v pos bytes hp) room

module _ {cap : ℕ} (w : IsCapacity cap) {base : ℕ} {source : ℕ → ℕ} {done : ℕ} {s : Receiver}
    {l : ReceiveChunkList} (t : Tracks cap base source done s l) where
  here_lt : index_of cap base done < cap
  here_lt = index_of-lt w base done

  -- A piece of the stream within the window goes in at its place.
  module _ (range : RingRange) (bytes : List ℕ) (hl : range.left < cap) (hr : range.right < cap)
      (some_bytes : 0 < length bytes)
      (ends : distance cap (index_of cap base done) range.right + 1
        ≡ distance cap (index_of cap base done) range.left + length bytes)
      (fits : distance cap (index_of cap base done) range.right ≤ s.window_size)
      (honest : (i : ℕ)
        → i < length bytes
        → get_or bytes i 0
          ≡ source (done + (distance cap (index_of cap base done) range.left + i))) where
    placed-Tracks :
        (l' : ReceiveChunkList)
        → l'.ranges ≡ insert_range cap l.buffer_begin range l.ranges
        → l'.buffer_begin ≡ l.buffer_begin
        → Tracks cap base source done
            (enqueue_recv
              (record s { chunks = some l'; buffer = (insert cap s.buffer range.left bytes).0 }))
            l'
    unfolding enqueue_recv
    placed-Tracks l' er eb =
        let b = index_of cap base done in
        let room : distance cap b range.left + length bytes < cap = omega (arith, t.window) in
        let ranges : l'.ranges ≡ insert_range cap b range l.ranges =
          er ∙ ap (λ x. insert_range cap x range l.ranges) t.begins in
        let size_eq = size-insert_le w b t.valid t.position range.left bytes hl room in
        let cover : (k : ℕ)
            → covered cap b l'.ranges k ≡ (covers cap b range k || covered cap b l.ranges k) =
          λ k.
            ap (λ rs. covered cap b rs k) ranges
            ∙ covered-insert_range w b here_lt range l.ranges k in
        record {
          window = t.window;
          valid = insert-IsValid w t.valid range.left bytes hl;
          current = refl;
          position = insert_begin w b t.valid t.position range.left bytes hl room;
          begins = eb ∙ t.begins;
          chain = rw ranges (
              insert_range-IsChain w b here_lt 0 range l.ranges (omega arith)
                (hl, hr, omega arith, omega (arith, t.window)) t.chain);
          held = λ k h. ground (arith, size_eq, cover k, t.held k);
          small = omega (arith, size_eq, t.small);
          agrees = λ k h.
              let o = distance cap b range.left in
              ground (
                arith,
                cover k,
                size_eq,
                t.held k,
                t.small,
                t.window,
                insert_byte w b t.valid t.position range.left bytes hl room k,
                t.agrees k,
                honest (k - o),
                ap source {x = done + (o + (k - o))} {y = done + k},
              );
          prefix = t.prefix;
        }

    handled :
        (l' : ReceiveChunkList) (result : ChunkAddResult)
        → AddOutcome cap l range l' result
        → (l'' : ReceiveChunkList) × Tracks cap base source done
            (handle_added cap (record s { chunks = some l' }) range.left bytes result)
            l''
    unfolding handle_added enqueue_ack
    handled l' _ (ignored e) = (l', ground (arith, t))
    handled l' _ (repeated er eb) = (
      l',
      record {
        window = t.window;
        valid = t.valid;
        current = refl;
        position = t.position;
        begins = eb ∙ t.begins;
        chain = rw er t.chain;
        held = rw er t.held;
        small = t.small;
        agrees = rw er t.agrees;
        prefix = t.prefix;
      },
    )
    handled l' _ (placed er eb) = (l', placed-Tracks l' er eb)

    pub handle_range-Tracks :
        (n : ℕ)
        → (l' : ReceiveChunkList) × Tracks cap base source done
            (handle_range cap s l range n bytes)
            l'
    unfolding handle_range
    handle_range-Tracks n = handled _ _ (add_chunk-AddOutcome cap l range n)
