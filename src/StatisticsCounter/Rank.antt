-- ===== src/StatisticsCounter/Rank.antt =====
-- statistic_counter.h: the rank of a percentile among the values.
use aether_client_cpp.Prelude.{
  ℕ, zero, suc, ◌+◌, ◌-◌, ◌*◌, ◌/◌, ◌≤◌, ◌<◌, ◌≡◌, refl, sym, ap, subst, ◌∙◌, arith, leb, ◌==◌,
  if◌then◌else◌, Bool-cases, inl, inr, List, [], ◌∷◌, some, length, get_or, All,
}
use native.Mathlib.Nat.{mul-le-mul_left}
use aether_client_cpp.StatisticsCounter.{
  min_element, max_element, put_sorted, sort, index_of, percentile,
}

-- How many values are at most, and at least, a value.
unfoldable pub at_most : ℕ → List ℕ → ℕ
at_most v [] = 0
at_most v (x ∷ xs) = if leb x v then suc (at_most v xs) else at_most v xs

unfoldable pub at_least : ℕ → List ℕ → ℕ
at_least v [] = 0
at_least v (x ∷ xs) = if leb v x then suc (at_least v xs) else at_least v xs

at_most-put_sorted : (v x : ℕ) (ys : List ℕ) → at_most v (put_sorted x ys) ≡ at_most v (x ∷ ys)
unfolding at_most put_sorted
at_most-put_sorted v x [] = refl
at_most-put_sorted v x (y ∷ ys) = ground (arith, at_most-put_sorted v x ys)

at_most-sort : (v : ℕ) (xs : List ℕ) → at_most v (sort xs) ≡ at_most v xs
unfolding at_most sort
at_most-sort v [] = refl
at_most-sort v (x ∷ xs) = at_most-put_sorted v x (sort xs) ∙ ground (arith, at_most-sort v xs)

at_least-put_sorted : (v x : ℕ) (ys : List ℕ) → at_least v (put_sorted x ys) ≡ at_least v (x ∷ ys)
unfolding at_least put_sorted
at_least-put_sorted v x [] = refl
at_least-put_sorted v x (y ∷ ys) = ground (arith, at_least-put_sorted v x ys)

at_least-sort : (v : ℕ) (xs : List ℕ) → at_least v (sort xs) ≡ at_least v xs
unfolding at_least sort
at_least-sort v [] = refl
at_least-sort v (x ∷ xs) = at_least-put_sorted v x (sort xs) ∙ ground (arith, at_least-sort v xs)

length-put_sorted : (x : ℕ) (ys : List ℕ) → length (put_sorted x ys) ≡ suc (length ys)
unfolding put_sorted
length-put_sorted x [] = refl
length-put_sorted x (y ∷ ys) = ground (arith, length-put_sorted x ys)

length-sort : (xs : List ℕ) → length (sort xs) ≡ length xs
unfolding sort
length-sort [] = refl
length-sort (x ∷ xs) = length-put_sorted x (sort xs) ∙ ap suc (length-sort xs)

-- Values in order.
abbrev IsSorted : List ℕ → Type 0
IsSorted [] = Unit
IsSorted (x ∷ xs) = All (λ y. x ≤ y) xs × IsSorted xs

put_sorted-All :
    (b x : ℕ) (ys : List ℕ) → b ≤ x → All (λ y. b ≤ y) ys → All (λ y. b ≤ y) (put_sorted x ys)
unfolding put_sorted
put_sorted-All b x [] h a = (h, tt)
put_sorted-All b x (y ∷ ys) h a = ground (arith, h, a.0, a.1, put_sorted-All b x ys h a.1)

All-le : (b c : ℕ) (ys : List ℕ) → b ≤ c → All (λ y. c ≤ y) ys → All (λ y. b ≤ y) ys
All-le b c [] h a = tt
All-le b c (y ∷ ys) h a = (omega (arith, h, a.0), All-le b c ys h a.1)

put_sorted-IsSorted : (x : ℕ) (ys : List ℕ) → IsSorted ys → IsSorted (put_sorted x ys)
unfolding put_sorted
put_sorted-IsSorted x [] s = (tt, tt)
put_sorted-IsSorted x (y ∷ ys) s = elim (Bool-cases (leb x y)) [
  | inl le ↦ let below : x ≤ y = ground (arith, le) in rw le (((below, All-le x y ys below s.0), s))
  | inr gt ↦
      let above : y ≤ x = ground (arith, gt) in
      rw gt ((put_sorted-All y x ys above s.0, put_sorted-IsSorted x ys s.1))
]

sort-IsSorted : (xs : List ℕ) → IsSorted (sort xs)
unfolding sort
sort-IsSorted [] = tt
sort-IsSorted (x ∷ xs) = put_sorted-IsSorted x (sort xs) (sort-IsSorted xs)

All-get_or : (b i : ℕ) (ys : List ℕ) → i < length ys → All (λ y. b ≤ y) ys → b ≤ get_or ys i 0
All-get_or b i [] l a = absurd (omega (arith, l))
All-get_or b zero (y ∷ ys) l a = a.0
All-get_or b (suc i) (y ∷ ys) l a = All-get_or b i ys (omega (arith, l)) a.1

at_least-All : (b : ℕ) (ys : List ℕ) → All (λ y. b ≤ y) ys → at_least b ys ≡ length ys
unfolding at_least
at_least-All b [] a = refl
at_least-All b (y ∷ ys) a = ground (arith, a.0, at_least-All b ys a.1)

-- The rank of a value: at least this many values are at most it, and this many at least it.
abbrev pub HasRank : ℕ → List ℕ → ℕ → Type 0
HasRank v xs i = (i + 1 ≤ at_most v xs) × (length xs ≤ at_least v xs + i)

get_or-HasRank : (i : ℕ) (ys : List ℕ) → i < length ys → IsSorted ys → HasRank (get_or ys i 0) ys i
unfolding at_most at_least
get_or-HasRank i [] l s = absurd (omega (arith, l))
get_or-HasRank zero (y ∷ ys) l s = (ground arith, ground (arith, at_least-All y ys s.0))
get_or-HasRank (suc i) (y ∷ ys) l s =
    let rest = get_or-HasRank i ys (omega (arith, l)) s.1 in
    let below = All-get_or y i ys (omega (arith, l)) s.0 in
    (ground (arith, below, rest.0), ground (arith, rest.1))

sort-HasRank : (i : ℕ) (xs : List ℕ) → i < length xs → HasRank (get_or (sort xs) i 0) xs i
sort-HasRank i xs l =
    let v = get_or (sort xs) i 0 in
    let (a, b) = get_or-HasRank i (sort xs) (omega (arith, l, length-sort xs)) (sort-IsSorted xs) in
    (omega (arith, a, at_most-sort v xs), omega (arith, b, at_least-sort v xs, length-sort xs))

at_least-length : (v : ℕ) (xs : List ℕ) → at_least v xs ≤ length xs
unfolding at_least
at_least-length v [] = omega arith
at_least-length v (x ∷ xs) = ground (arith, at_least-length v xs)

at_most-length : (v : ℕ) (xs : List ℕ) → at_most v xs ≤ length xs
unfolding at_most
at_most-length v [] = omega arith
at_most-length v (x ∷ xs) = ground (arith, at_most-length v xs)

min_element-HasRank : (m : ℕ) (xs : List ℕ) → HasRank (min_element m xs) (m ∷ xs) 0
unfolding min_element at_most at_least
min_element-HasRank m [] = (ground arith, ground arith)
min_element-HasRank m (x ∷ xs) =
    let (a, b) = min_element-HasRank x xs in
    let (c, d) = min_element-HasRank m xs in
    let short = at_least-length (min_element x xs) xs in
    let brief = at_least-length (min_element m xs) xs in
    (ground (arith, a, c), ground (arith, b, d, short, brief))

max_element-HasRank : (m : ℕ) (xs : List ℕ) → HasRank (max_element m xs) (m ∷ xs) (length xs)
unfolding max_element at_most at_least
max_element-HasRank m [] = (ground arith, ground arith)
max_element-HasRank m (x ∷ xs) =
    let (a, b) = max_element-HasRank x xs in
    let (c, d) = max_element-HasRank m xs in
    let short = at_most-length (max_element x xs) xs in
    let brief = at_most-length (max_element m xs) xs in
    (ground (arith, a, c, short, brief), ground (arith, b, d))

-- Of a counter of `size` values, the percentile `p`, up to 100, is the value at the place `i`,
-- `(size - 1) p / 100` rounded up, of their order: at least `i + 1` of the values are at most it,
-- and at least `size - i` of them are at least it.
pub percentile-HasRank :
    (p x : ℕ) (xs : List ℕ)
    → p ≤ 100
    → (v : ℕ) × (percentile p (x ∷ xs) ≡ some v)
      × HasRank v (x ∷ xs) (((length (x ∷ xs) - 1) * p + 99) / 100)
unfolding percentile index_of
percentile-HasRank p x xs h =
    let n = length xs in
    let HasIt = λ (v i : ℕ). HasRank v (x ∷ xs) i in
    elim (Bool-cases (p == 0)) [
      | inl least ↦
          let zero_p : p ≡ 0 = ground (arith, least) in
          let index : 0 ≡ ((suc n - 1) * p + 99) / 100 =
            subst (λ q. 0 ≡ ((suc n - 1) * q + 99) / 100) (sym zero_p) (omega arith) in
          (
            min_element x xs,
            rw least refl,
            subst (HasIt (min_element x xs)) index (min_element-HasRank x xs),
          )
      | inr other ↦ elim (Bool-cases (p == 100)) [
        | inl most ↦
            let whole : p ≡ 100 = ground (arith, most) in
            let index : n ≡ ((suc n - 1) * p + 99) / 100 =
              subst (λ q. n ≡ ((suc n - 1) * q + 99) / 100) (sym whole) (omega arith) in
            (
              max_element x xs,
              rw (other, most) refl,
              subst (HasIt (max_element x xs)) index (max_element-HasRank x xs),
            )
        | inr part ↦
            let below : p ≤ 99 = ground (arith, part, h) in
            let scaled = mul-le-mul_left (suc n - 1) below in
            let inside : ((suc n - 1) * p + 99) / 100 < suc n = omega (arith, scaled) in
            (
              get_or (sort (x ∷ xs)) (index_of (suc n) p) 0,
              rw (other, part) refl,
              sort-HasRank (((suc n - 1) * p + 99) / 100) (x ∷ xs) inside,
            )
      ]
    ]
