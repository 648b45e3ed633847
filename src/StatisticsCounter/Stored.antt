-- ===== src/StatisticsCounter/Stored.antt =====
-- statistic_counter.h: `operator<<` and `operator>>`.
use aether_client_cpp.Prelude.{
  ℕ, zero, suc, ◌+◌, ◌≤◌, ◌≡◌, refl, sym, ap, ◌∙◌, arith, leb, false, List, [], ◌∷◌, ◌++◌,
  append_assoc, append-nil, some, length, length-append, take, drop,
}
use aether_client_cpp.StatisticsCounter.{add, write_to, read_loop, read_from}

read_loop_lem :
    (n left : ℕ) (b vs rest : List ℕ)
    → length b + left ≤ n
    → read_loop n left (length vs) b (vs ++ rest) ≡ some (b ++ take left vs, drop left vs ++ rest)
unfolding read_loop add
read_loop_lem n zero b vs rest k = ap (λ (xs : List ℕ). some (xs, vs ++ rest)) (sym (append-nil b))
read_loop_lem n (suc left) b [] rest k = ap (λ (xs : List ℕ). some (xs, rest)) (sym (append-nil b))
read_loop_lem n (suc left) b (v ∷ vs) rest k =
    let free : leb n (length b) ≡ false = ground (arith, k) in
    let added : add n b v ≡ b ++ v ∷ [] = rw (add, free) refl in
    rw added (
      read_loop_lem n left (b ++ v ∷ []) vs rest (omega (arith, k, length-append b (v ∷ [])))
      ∙ ap (λ (xs : List ℕ). some (xs, drop left vs ++ rest))
          (append_assoc b (v ∷ []) (take left vs)))

-- A new counter of capacity `n` that reads what `operator<<` wrote, whatever follows it in the
-- stream, holds the first `n` of the values; the other values are still in the stream, before what
-- follows.
pub read_from-write_to :
    (n : ℕ) (vs rest : List ℕ)
    → read_from n [] (write_to vs ++ rest) ≡ some (take n vs, drop n vs ++ rest)
unfolding read_from write_to
read_from-write_to n vs rest = read_loop_lem n n [] vs rest (omega arith)
