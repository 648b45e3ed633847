-- ===== src/Stream/Positions.antt =====
-- A stream of bytes by position, and the ring indices of its positions.
use native.Mathlib.Nat.{mod-add-mod, mod-lt}
use aether_client_cpp.Prelude.{
  ℕ, zero, suc, ◌+◌, ◌-◌, ◌%◌, ◌^◌, ◌≤◌, ◌<◌, ◌≡◌, refl, arith, ap, ap₂, sym, ◌∙◌, List, [], ◌∷◌,
  ◌++◌, length, get_or,
}
use aether_client_cpp.Ring.{RingIndex, distance, plus, minus}
use aether_client_cpp.Ring.Distance.{
  IsCapacity, distance-plus_self, distance_flip, distance_self, minus-plus,
}

-- The bytes of a stream from position `p` on.
unfoldable pub segment : (ℕ → ℕ) → ℕ → ℕ → List ℕ
segment source p zero = []
segment source p (suc n) = source p ∷ segment source (p + 1) n

-- The ring index of a stream position.
unfoldable pub index_of : ℕ → ℕ → ℕ → RingIndex
index_of cap base p = (base + p) % cap

pub length-segment : (source : ℕ → ℕ) (p n : ℕ) → length (segment source p n) ≡ n
unfolding segment
length-segment source p zero = refl
length-segment source p (suc n) = ap suc (length-segment source (p + 1) n)

pub get_or-segment :
    (source : ℕ → ℕ) (p n k : ℕ) → k < n → get_or (segment source p n) k 0 ≡ source (p + k)
unfolding segment
get_or-segment source p zero k h = absurd (omega arith)
get_or-segment source p (suc n) zero h = ap source (omega arith)
get_or-segment source p (suc n) (suc k) h =
    get_or-segment source (p + 1) n k (omega arith) ∙ ap source (omega arith)

pub segment-append :
    (source : ℕ → ℕ) (p m n : ℕ)
    → segment source p m ++ segment source (p + m) n ≡ segment source p (m + n)
unfolding segment
segment-append source p zero n = ap₂ (segment source) (omega arith) (omega arith)
segment-append source p (suc m) n =
    ap (◌∷◌ (source p)) (
      ap (λ q. segment source (p + 1) m ++ segment source q n) (omega arith)
      ∙ segment-append source (p + 1) m n)
    ∙ ap (segment source p) {x = suc (m + n)} {y = suc m + n} (omega arith)

module _ {cap : ℕ} (w : IsCapacity cap) (base : ℕ) where
  pub index_of-lt : (p : ℕ) → index_of cap base p < cap
  unfolding index_of
  index_of-lt p = mod-lt _ w.positive

  pub index_of-plus :
      (p k : ℕ) → k ≤ cap → plus cap (index_of cap base p) k ≡ index_of cap base (p + k)
  unfolding index_of plus
  index_of-plus p k h =
      let v = (base + p) % cap in
      let small : (v + k) % 2 ^ 64 ≡ v + k = omega (arith, mod-lt (base + p) w.positive) in
      ap (λ (t : ℕ). t % cap) small
      ∙ mod-add-mod (base + p) cap k
      ∙ ap (λ (t : ℕ). t % cap) (omega arith)

  pub distance-index_of :
      (p q : ℕ)
      → p ≤ q
      → q < p + cap
      → distance cap (index_of cap base p) (index_of cap base q) ≡ q - p
  distance-index_of p q h h' =
      ap (distance cap (index_of cap base p))
        (sym (index_of-plus p (q - p) (omega arith) ∙ ap (index_of cap base) (omega arith)))
      ∙ distance-plus_self w (index_of cap base p) (q - p) (index_of-lt p) (omega arith)

  pub minus-index_of : (p : ℕ) → minus cap (index_of cap base (p + 1)) 1 ≡ index_of cap base p
  minus-index_of p =
      ap (λ i. minus cap i 1) (sym (index_of-plus p 1 w.positive))
      ∙ minus-plus w (index_of cap base p) 1 (index_of-lt p) w.positive

  -- A position behind another is nearly a whole round ahead of it.
  pub distance-index_of_behind :
      (p q : ℕ)
      → q < p
      → p < q + cap
      → distance cap (index_of cap base p) (index_of cap base q) ≡ cap - (p - q)
  distance-index_of_behind p q h h' = ground (
    arith,
    distance-index_of q p,
    distance_flip w (index_of cap base p) (index_of cap base q) (index_of-lt p) (index_of-lt q),
    distance_self w (index_of cap base p) (index_of cap base p) (index_of-lt p) (index_of-lt p),
  )
