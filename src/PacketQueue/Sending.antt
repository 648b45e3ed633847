-- ===== src/PacketQueue/Sending.antt =====
-- packet_queue_manager.h: what `Send` leaves in the queue.
use aether_client_cpp.Prelude.{
  ℕ, zero, suc, ◌+◌, ◌-◌, ◌≤◌, ◌≡◌, refl, arith, ap, ◌∙◌, leb, Bool, true, false, ◌&&◌,
  if◌then◌else◌, List, [], ◌∷◌, ◌++◌, length, take, drop, length-drop,
}
use aether_client_cpp.PacketQueue.{
  PacketQueue, pop, finished_at, remove_finished, send_loop, send_queue,
}

drop-nil : {P : Type 0} (n : ℕ) → drop {A = P} n [] ≡ []
drop-nil zero = refl
drop-nil (suc n) = refl

module _ {P : Type 0} (is_finished : P → Bool) where
  remove_finished-shrinks :
      (fuel i : ℕ) (ps : List P) → length (remove_finished is_finished fuel i ps).1 ≤ length ps
  unfolding remove_finished pop
  remove_finished-shrinks zero i ps = omega arith
  remove_finished-shrinks (suc fuel) i ps =
      ground (arith, remove_finished-shrinks fuel (i + 1) (drop 1 ps), length-drop 1 ps)

  -- If the first and the third packet of a queue are finished, the loop that removes finished
  -- packets removes the first two, whether or not the second one is finished.
  pub remove_finished-skips :
      (a b c : P) (rest : List P) (fuel : ℕ)
      → is_finished a ≡ true
      → is_finished c ≡ true
      → remove_finished is_finished (suc (suc fuel)) 0 (a ∷ b ∷ c ∷ rest)
        ≡ remove_finished is_finished fuel 2 (c ∷ rest)
  unfolding remove_finished finished_at pop
  remove_finished-skips a b c rest fuel ha hc = ground (arith, ha, hc)

  module _ (is_done : P → Bool) where
    -- Whether the first packet of a list is done.
    abbrev pub front_done : List P → Bool
    front_done [] = false
    front_done (p ∷ ps) = is_done p

    abbrev pub all_done : List P → Bool
    all_done [] = true
    all_done (p ∷ ps) = is_done p && all_done ps

  module _ (is_done re_enqueue : P → Bool) (send : P → P) where
    send_loop_lem :
        (ps : List P)
        → let (ps', n, again) = send_loop is_finished is_done re_enqueue send ps in
          (length ps' ≡ length ps)
          × (all_done is_done (take n ps') ≡ true)
          × (front_done is_done (drop n ps') ≡ false)
    unfolding send_loop
    send_loop_lem [] = (refl, refl, refl)
    send_loop_lem (p ∷ ps) = ground (arith, send_loop_lem ps)

  -- On fuel that is at least the length of the queue, the loop that removes finished packets ends
  -- for its own test: at the index where it stops there is no packet, or one that is not finished.
  pub remove_finished-stops :
      (fuel i : ℕ) (ps : List P)
      → length ps ≤ fuel
      → let (i', ps') = remove_finished is_finished fuel i ps in
        finished_at is_finished i' ps' ≡ false
  unfolding remove_finished finished_at pop
  remove_finished-stops zero i [] h =
      ap (λ (xs : List P). elim xs [ [] ↦ false | p ∷ rest ↦ is_finished p ]) {x = drop i []}
        {y = []} (drop-nil i)
  remove_finished-stops zero i (p ∷ ps) h = absurd (omega arith)
  remove_finished-stops (suc fuel) i ps h =
      ground (arith, remove_finished-stops fuel (i + 1) (drop 1 ps), length-drop 1 ps)

  module _ (is_done re_enqueue : P → Bool) (send : P → P) where
    -- The second loop, past the packets that `index_` skips.
    parts :
        (index : ℕ) (ps : List P)
        → let (after, n, again) = send_loop is_finished is_done re_enqueue send (drop index ps) in
          (front_done is_done (drop (index + n) (take index ps ++ after)) ≡ false)
          × (length (take index ps ++ after) ≡ length ps)
    unfolding send_loop
    parts zero ps =
        let (after, n, again) = send_loop is_finished is_done re_enqueue send ps in
        let (sizes, all, stop) = send_loop_lem is_done re_enqueue send ps in
        (
          ap (λ (k : ℕ). front_done is_done (drop k after)) {x = 0 + n} {y = n} (omega arith)
              ∙ stop,
          sizes,
        )
    parts (suc index) [] = (ap (front_done is_done) (drop-nil (suc index + 0)), refl)
    parts (suc index) (p ∷ ps) =
        let (after, n, again) = send_loop is_finished is_done re_enqueue send (drop index ps) in
        let (stop, sizes) = parts index ps in
        (
          ap (λ (k : ℕ). front_done is_done (drop k (p ∷ take index ps ++ after)))
                {x = suc index + n} {y = suc (index + n)} (omega arith)
              ∙ stop,
          ap suc sizes,
        )

    -- After `Send`, the packet at `index_`, if there is one, is not done, so that the loop has
    -- passed all packets that it could; and the queue is no longer than it was.
    pub send_queue_lem :
        (q : PacketQueue P)
        → let q' = send_queue is_finished is_done re_enqueue send q in
          (front_done is_done (drop q'.index q'.queue) ≡ false) × (length q'.queue ≤ length q.queue)
    unfolding send_queue
    send_queue_lem q =
        let (i, ps) = remove_finished is_finished (length q.queue) 0 q.queue in
        let (stop, sizes) = parts (if leb q.index i then 0 else q.index - i) ps in
        (stop, omega (arith, sizes, remove_finished-shrinks (length q.queue) 0 q.queue))
