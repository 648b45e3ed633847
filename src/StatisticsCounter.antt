-- ===== src/StatisticsCounter.antt =====
-- aether/types/statistic_counter.h: `StatisticsCounter` of numbers, with a capacity `n`. The buffer
-- is the list of the values that it holds, oldest first, and a stream the list of what is read.
pub mod Rank
pub mod Stored
use aether_client_cpp.Prelude.{
  ℕ, zero, suc, ◌+◌, ◌-◌, ◌*◌, ◌/◌, ltb, leb, ◌==◌, if◌then◌else◌, List, [], ◌∷◌, ◌++◌, Option,
  none, some, length, drop, get_or,
}

-- `etl::circular_buffer::push` writes over the oldest value where the buffer is full.
unfoldable pub add : ℕ → List ℕ → ℕ → List ℕ
add n b v = if leb n (length b) then drop 1 (b ++ v ∷ []) else b ++ v ∷ []

unfoldable pub insert : ℕ → List ℕ → List ℕ → List ℕ
insert n b [] = b
insert n b (v ∷ vs) = insert n (add n b v) vs

-- `std::min_element` and `std::max_element`, from an element on.
unfoldable pub min_element : ℕ → List ℕ → ℕ
min_element m [] = m
min_element m (x ∷ xs) = min_element (if ltb x m then x else m) xs

unfoldable pub max_element : ℕ → List ℕ → ℕ
max_element m [] = m
max_element m (x ∷ xs) = max_element (if ltb m x then x else m) xs

-- `std::sort`
unfoldable pub put_sorted : ℕ → List ℕ → List ℕ
put_sorted x [] = x ∷ []
put_sorted x (y ∷ ys) = let rest = put_sorted x ys in if leb x y then x ∷ y ∷ ys else y ∷ rest

unfoldable pub sort : List ℕ → List ℕ
sort [] = []
sort (x ∷ xs) = put_sorted x (sort xs)

-- `std::ceil` of the quotient by 100.
unfoldable pub index_of : ℕ → ℕ → ℕ
index_of size percentile = ((size - 1) * percentile + 99) / 100

-- An empty buffer breaks an assertion.
unfoldable pub percentile : ℕ → List ℕ → Option ℕ
percentile p [] = none
percentile p (x ∷ xs) = some (
    if p == 0
    then min_element x xs
    else if p == 100
    then max_element x xs
    else get_or (sort (x ∷ xs)) (index_of (length (x ∷ xs)) p) 0)

-- `operator<<`
unfoldable pub write_to : List ℕ → List ℕ
write_to b = length b ∷ b

-- The loop of `operator>>`: at most `size` values, and at most the capacity. A value that is not in
-- the stream is not set, which gives none.
unfoldable pub read_loop : ℕ → ℕ → ℕ → List ℕ → List ℕ → Option (List ℕ × List ℕ)
read_loop n zero size b is = some (b, is)
read_loop n (suc left) zero b is = some (b, is)
read_loop n (suc left) (suc size) b [] = none
read_loop n (suc left) (suc size) b (v ∷ is) = read_loop n left size (add n b v) is

unfoldable pub read_from : ℕ → List ℕ → List ℕ → Option (List ℕ × List ℕ)
read_from n b [] = none
read_from n b (size ∷ is) = read_loop n n size b is
