-- ===== src/Latency/Rank.antt =====
-- The integer rank is the nearest rank: the least one that covers the percentage.
use lowlatency_exec_core.Latency.{nearest_rank}
use lowlatency_exec_core.Common.{◌⊎◌, ◌^◌, ◌-◌, ◌*◌, ◌<◌, ◌≤◌, ℕ, arith, ◌≡◌}

-- Of `n` samples the rank covers at least `h` hundredths of a percent, and no smaller one does.
pub record IsNearest (h n k : ℕ) : Type 0 where
  pub low : 1 ≤ k
  pub high : k ≤ n
  pub covers : h * n ≤ k * 10000
  pub least : (k ≡ 1) ⊎ ((k - 1) * 10000 < h * n)

product_fits : (h n : ℕ) → h ≤ 10000 → n < 2 ^ 64 → h * n ≤ 10000 * n
product_fits h n p q = grind arith

-- For a percentage of h hundredths with h at most 10000 and n samples with n from 1 to below 2 ^
-- 64, the integer rank lies between 1 and n, covers the percentage of n, and is 1 or the least rank
-- that covers it.
pub nearest_rank-IsNearest :
    (h n : ℕ) → h ≤ 10000 → 0 < n → n < 2 ^ 64 → IsNearest h n (nearest_rank h n)
unfolding nearest_rank
nearest_rank-IsNearest h n p q r = let k = product_fits h n p r in ground arith
