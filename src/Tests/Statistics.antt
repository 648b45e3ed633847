-- ===== src/Tests/Statistics.antt =====
-- statistic_counter.h on concrete inputs.
use aether_client_cpp.Prelude.{ℕ, ◌≡◌, arith, [], ◌∷◌, ◌++◌, some}
use aether_client_cpp.StatisticsCounter.{percentile, write_to, read_from}
use aether_client_cpp.StatisticsCounter.Rank.{HasRank, percentile-HasRank}
use aether_client_cpp.StatisticsCounter.Stored.{read_from-write_to}

percentile-HasRank_example :
    (v : ℕ) × (percentile 50 (9 ∷ 4 ∷ 7 ∷ 5 ∷ []) ≡ some v) × HasRank v (9 ∷ 4 ∷ 7 ∷ 5 ∷ []) 2
percentile-HasRank_example = percentile-HasRank 50 9 (4 ∷ 7 ∷ 5 ∷ []) (omega arith)

read_from-write_to_example :
    read_from 2 [] (write_to (9 ∷ 4 ∷ 7 ∷ []) ++ 1 ∷ []) ≡ some (9 ∷ 4 ∷ [], 7 ∷ 1 ∷ [])
read_from-write_to_example = read_from-write_to 2 (9 ∷ 4 ∷ 7 ∷ []) (1 ∷ [])
