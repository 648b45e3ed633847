-- ===== src/Chunks/Receiving/Chain.antt =====
-- receiving_chunk_list.h: `ReceiveChunk` finds how far the data reaches without a gap.
use aether_client_cpp.Prelude.{
  ℕ, ◌+◌, ◌≤◌, ◌<◌, ◌≡◌, ◌≢◌, ◌⊎◌, inl, inr, refl, arith, ltb, true, false, if◌then◌else◌, List, [],
  ◌∷◌, Bool-cases, ap, ◌∙◌,
}
use aether_client_cpp.Ring.{RingIndex, RingRange, distance, plus}
use aether_client_cpp.Ring.Distance.{IsCapacity, plus-lt, distance-plus, distance_self, distance-lt}
use aether_client_cpp.Ring.Order.{is_after_lem}
use aether_client_cpp.Chunks.Receiving.{receive_loop}
use aether_client_cpp.Chunks.Receiving.Ranges.{IsRange, IsChain, covered, covered_below}

-- What the loop has found from a range on that ends at `right`.
pub record Reaches (cap begin right right' : ℕ) (rs : List RingRange) : Type 0 where
  pub inside : right' < cap
  pub further : distance cap begin right ≤ distance cap begin right'
  pub room : distance cap begin right' + 1 < cap
  pub no_gap :
      (k : ℕ)
      → distance cap begin right < k
      → k ≤ distance cap begin right'
      → covered cap begin rs k ≡ true
  pub farthest : covered cap begin rs (distance cap begin right' + 1) ≡ false

-- The farther of two right ends, as the loop chooses it.
abbrev farther : ℕ → ℕ → RingIndex → RingRange → RingIndex
farther cap begin right r =
    if ltb (distance cap begin right) (distance cap begin r.right) then r.right else right

module _ {cap : ℕ} (w : IsCapacity cap) (begin : ℕ) (hb : begin < cap) where
  Reaches-gap :
      (right low : ℕ) (rs : List RingRange)
      → right < cap
      → distance cap begin right + 1 < cap
      → distance cap begin right + 1 < low
      → IsChain cap begin low rs
      → Reaches cap begin right right rs
  Reaches-gap right low rs hr room gap c = record {
    inside = hr;
    further = omega arith;
    room = room;
    no_gap = λ k h h'. absurd (omega arith);
    farthest = covered_below w begin hb low (distance cap begin right + 1) rs gap c;
  }

  Reaches-step :
      (right out : ℕ) (r : RingRange) (rs : List RingRange)
      → IsRange cap begin r
      → distance cap begin r.left ≤ distance cap begin right + 1
      → Reaches cap begin (farther cap begin right r) out rs
      → Reaches cap begin right out (r ∷ rs)
  Reaches-step right out r rs v h ih = record {
    inside = ih.inside;
    further = ground arith;
    room = ih.room;
    no_gap = λ k lo hi. ground (arith, ih.no_gap k);
    farthest = ground (arith, ih.farthest);
  }

  receive_loop-Reaches :
      (right expected low : ℕ) (rs : List RingRange)
      → right < cap
      → expected < cap
      → distance cap begin expected ≡ distance cap begin right + 1
      → IsChain cap begin low rs
      → Reaches cap begin right (receive_loop cap begin right expected rs) rs
  unfolding receive_loop
  receive_loop-Reaches right expected low [] hr he e c =
      Reaches-gap right (distance cap begin right + 2) [] hr
        (omega (arith, distance-lt w begin expected hb he)) (omega arith) tt
  receive_loop-Reaches right expected low (r ∷ rs) hr he e c =
      let next = farther cap begin right r in
      let after_eq = is_after_lem w begin r.left expected hb c.1.0 he in
      let right_eq = is_after_lem w begin r.right right hb c.1.1 hr in
      let room : distance cap begin right + 1 < cap =
        omega (arith, distance-lt w begin expected hb he) in
      let next_in : next < cap = ground arith in
      let next_room : distance cap begin next + 1 < cap = ground arith in
      let ih =
        receive_loop-Reaches next (plus cap next 1) (distance cap begin r.left) rs next_in
          (plus-lt w next 1) (distance-plus w begin next 1 hb next_in next_room) c.2 in
      rw (receive_loop, after_eq, right_eq)
        (elim (Bool-cases (ltb (distance cap begin expected) (distance cap begin r.left))) [
          | inl gap ↦ rw gap (
              Reaches-gap right (distance cap begin r.left) (r ∷ rs) hr room (ground arith)
                (omega arith, c.1, c.2))
          | inr near ↦ rw near (Reaches-step right _ r rs c.1 (ground arith) ih)
        ])

  pub receive_from_begin :
      (low : ℕ) (rs : List RingRange)
      → IsChain cap begin low rs
      → let right = receive_loop cap begin begin begin rs in
        (right ≢ begin
          → (right < cap)
            × ((k : ℕ) → k ≤ distance cap begin right → covered cap begin rs k ≡ true)
            × (covered cap begin rs (distance cap begin right + 1) ≡ false))
        × (right ≡ begin → (covered cap begin rs 0 ≡ false) ⊎ (covered cap begin rs 1 ≡ false))
  unfolding receive_loop
  receive_from_begin low [] c = (λ h. absurd (h refl), λ _. inl refl)
  receive_from_begin low (r ∷ rs) c =
      let next = farther cap begin begin r in
      let zero_eq = distance_self w begin begin hb hb in
      let next_in : next < cap = ground arith in
      let next_room : distance cap begin next + 1 < cap = ground (arith, zero_eq) in
      let out = receive_loop cap begin next (plus cap next 1) rs in
      let ih =
        receive_loop-Reaches next (plus cap next 1) (distance cap begin r.left) rs next_in
          (plus-lt w next 1) (distance-plus w begin next 1 hb next_in next_room) c.2 in
      rw
        (
          receive_loop,
          is_after_lem w begin r.left begin hb c.1.0 hb,
          is_after_lem w begin r.right begin hb c.1.1 hb,
        )
        (elim (Bool-cases (ltb (distance cap begin begin) (distance cap begin r.left))) [
          | inl gap ↦ rw gap (
            λ h. absurd (h refl),
            λ _. inl (
                covered_below w begin hb (distance cap begin r.left) 0 (r ∷ rs)
                  (ground (arith, zero_eq)) (omega arith, c.1, c.2)),
          )
          | inr near ↦ rw near (
            (λ h. (
              ih.inside,
              λ k hk. ground (arith, zero_eq, ih.no_gap k),
              ground (arith, ih.farthest),
            )),
            (λ e. inr (
                let e0 : distance cap begin out ≡ 0 = ap (distance cap begin) e ∙ zero_eq in
                let far : covered cap begin rs 1 ≡ false = rw e0 at (ih.farthest) in
                ground (arith, ih.further))),
          )
        ])
