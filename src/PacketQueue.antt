-- ===== src/PacketQueue.antt =====
-- aether/transport/packet_queue_manager.h: the queue of packets to send. The packets' own class is
-- a template argument: `is_finished`, `is_done`, `re_enqueue` and `send` stand for its methods.
use aether_client_cpp.Prelude.{
  ℕ, zero, suc, ◌+◌, ◌-◌, leb, ◌==◌, Bool, true, false, not, ◌||◌, if◌then◌else◌, List, [], ◌∷◌,
  ◌++◌, length, take, drop,
}
pub mod Sending

pub record PacketQueue (P : Type 0) : Type 0 where
  pub queue : List P
  pub index : ℕ
  pub enqueued : Bool

abbrev pub max_size : ℕ
max_size = 10

module _ {P : Type 0} where
  -- False for a packet that is dropped because the queue is full.
  unfoldable pub add_packet : PacketQueue P → P → PacketQueue P × Bool
  add_packet q p =
      if length q.queue == max_size
      then (q, false)
      else (record q { queue = q.queue ++ p ∷ []; enqueued = true }, true)

  unfoldable pub pop : List P → List P
  pop ps = drop 1 ps

  module _ (is_finished : P → Bool) where
    -- The test of the first loop of `Send`: that the packet at an index is there and not finished.
    unfoldable pub finished_at : ℕ → List P → Bool
    finished_at i ps = elim (drop i ps) [ [] ↦ false | p ∷ rest ↦ is_finished p ]

    -- The first loop of `Send`, on fuel: the index that it stops at, and the queue.
    unfoldable pub remove_finished : ℕ → ℕ → List P → ℕ × List P
    remove_finished zero i ps = (i, ps)
    remove_finished (suc fuel) i ps =
        let rest = remove_finished fuel (i + 1) (pop ps) in
        if finished_at i ps then rest else (i, ps)

    module _ (is_done re_enqueue : P → Bool) (send : P → P) where
      -- The second loop of `Send`, from `index_` on: the packets, how many it passed, and whether it
      -- enqueued another run.
      unfoldable pub send_loop : List P → List P × ℕ × Bool
      send_loop [] = ([], 0, false)
      send_loop (p ∷ ps) =
          let (rest, n, again) = send_loop ps in
          if is_done p
          then (p ∷ rest, suc n, again)
          else if is_done (send p)
          then (send p ∷ rest, suc n, again)
          else (send p ∷ ps, 0, re_enqueue (send p))

      unfoldable pub send_queue : PacketQueue P → PacketQueue P
      send_queue q =
          let (i, ps) = remove_finished (length q.queue) 0 q.queue in
          let index = if leb q.index i then 0 else q.index - i in
          let (after, n, again) = send_loop (drop index ps) in
          record {
            queue = take index ps ++ after;
            index = index + n;
            enqueued = q.enqueued || again;
          }

      -- The task of `enqueue_sub_`.
      unfoldable pub on_task : PacketQueue P → PacketQueue P
      on_task q = if q.enqueued then send_queue (record q { enqueued = false }) else q
