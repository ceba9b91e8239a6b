-- ===== src/Latency.antt =====
-- include/exec_core/latency_harness.hpp and src/latency_harness.cpp: nearest-rank percentiles in
-- integer arithmetic, the summary of the samples, and the timed loop. `double` is a parameter.
use lowlatency_exec_core.Common.Int.{ℤ, pos, negsuc}
use lowlatency_exec_core.Common.{
  zero, ◌+◌, get_or, suc, ◌-◌, if◌then◌else◌, ◌*◌, List, leb, ℕ, [], ltb, ◌^◌, ◌/◌, ◌%◌, ◌∷◌, ◌≤◌,
  ◌≡◌, length,
}
pub mod Rank
pub mod Sort
pub mod Percentile
pub mod Loop
pub mod Tests

-- `double` with what the harness uses of it. `of_hundredths h` is the literal `h / 100`, such as
-- 99.9 for 9990. A percentage of at most two decimals survives the scaling and the rounding.
pub record Doubles : Type 1 where
  pub Double : Type 0
  pub of_hundredths : ℕ → Double
  pub of_uint64 : ℕ → Double
  pub clamp : Double → Double → Double → Double
  pub add : Double → Double → Double
  pub mul : Double → Double → Double
  pub div : Double → Double → Double
  pub llround : Double → ℤ
  pub scaled_literal :
      (h : ℕ)
      → h ≤ 10000
      → llround (
          mul
            (clamp (of_hundredths h) (of_hundredths 0) (of_hundredths 10000))
            (of_hundredths 10000))
        ≡ pos h

-- An `std::int64_t` as `unsigned __int128`, with its sign extended.
unfoldable pub to_uint128 : ℤ → ℕ
to_uint128 (pos n) = n % 2 ^ 128
to_uint128 (negsuc n) = 2 ^ 128 - 1 - n % 2 ^ 128

-- The 1-based rank of the percentile `h / 100` among `n` samples, in `unsigned __int128` and then
-- cut back to at least 1 and at most `n`.
unfoldable pub nearest_rank : (h n : ℕ) → ℕ
nearest_rank h n =
    let numerator = h * n % 2 ^ 128 in
    let rank128 = (numerator + 10000 - 1) % 2 ^ 128 / 10000 in
    let rank = if ltb rank128 1 then 1 else rank128 % 2 ^ 64 in if ltb n rank then n else rank

-- `std::sort` of the standard library, by insertion: the result is all that shows.
unfoldable pub insert : ℕ → List ℕ → List ℕ
insert v [] = v ∷ []
insert v (x ∷ xs) = if leb v x then v ∷ x ∷ xs else x ∷ insert v xs

unfoldable pub sort : List ℕ → List ℕ
unfolding insert
sort [] = []
sort (x ∷ xs) = insert x (sort xs)

-- `samples.back()`, of a list that has a first sample.
unfoldable pub last_from : ℕ → List ℕ → ℕ
last_from x [] = x
last_from x (y ∷ ys) = last_from y ys

module _ (f : Doubles) where
  open f use {Double, of_hundredths, of_uint64, clamp, add, mul, div, llround}

  unfoldable pub nearest_rank_percentile : List ℕ → Double → ℕ
  unfolding nearest_rank to_uint128
  nearest_rank_percentile [] p = 0
  nearest_rank_percentile (x ∷ xs) p =
      let clamped_p = clamp p (of_hundredths 0) (of_hundredths 10000) in
      let p_scaled_1e2 = to_uint128 (llround (mul clamped_p (of_hundredths 10000))) in
      get_or (x ∷ xs) (nearest_rank p_scaled_1e2 (length (x ∷ xs)) - 1) 0

  pub record LatencyStats : Type 0 where
    pub count : ℕ
    pub min_ns : ℕ
    pub max_ns : ℕ
    pub mean_ns : Double
    pub p50_ns : ℕ
    pub p90_ns : ℕ
    pub p99_ns : ℕ
    pub p999_ns : ℕ
    pub p9999_ns : ℕ

  unfoldable pub sum_double : Double → List ℕ → Double
  sum_double sum [] = sum
  sum_double sum (v ∷ vs) = sum_double (add sum (of_uint64 v)) vs

  -- The fields that are read from the sorted samples, which are not empty.
  unfoldable pub stats_of_sorted : List ℕ → LatencyStats
  unfolding last_from sum_double
  stats_of_sorted sorted = record {
    count = length sorted;
    min_ns = get_or sorted 0 0;
    max_ns = elim sorted [ [] ↦ 0 | x ∷ xs ↦ last_from x xs ];
    mean_ns = div (sum_double (of_hundredths 0) sorted) (of_uint64 (length sorted));
    p50_ns = nearest_rank_percentile sorted (of_hundredths 5000);
    p90_ns = nearest_rank_percentile sorted (of_hundredths 9000);
    p99_ns = nearest_rank_percentile sorted (of_hundredths 9900);
    p999_ns = nearest_rank_percentile sorted (of_hundredths 9990);
    p9999_ns = nearest_rank_percentile sorted (of_hundredths 9999);
  }

  -- `LatencyStats{}`
  abbrev pub no_stats : LatencyStats
  no_stats = record {
    count = 0;
    min_ns = 0;
    max_ns = 0;
    mean_ns = of_hundredths 0;
    p50_ns = 0;
    p90_ns = 0;
    p99_ns = 0;
    p999_ns = 0;
    p9999_ns = 0;
  }

  unfoldable pub compute_latency_stats : List ℕ → LatencyStats
  unfolding stats_of_sorted sort
  compute_latency_stats [] = no_stats
  compute_latency_stats (x ∷ xs) = stats_of_sorted (sort (x ∷ xs))

  -- A workload and the steady clock, over whatever state they share.
  module _ {S : Type 0} (workload : S → S) (now : S → ℕ × S) where
    unfoldable pub warm_up : ℕ → S → S
    warm_up zero s = s
    warm_up (suc n) s = warm_up n (workload s)

    -- One timed iteration: its duration in nanoseconds, as `std::uint64_t`.
    unfoldable pub timed : S → ℕ × S
    timed s =
        let (start, s1) = now s in
        let (end, s2) = now (workload s1) in ((end + 2 ^ 64 - start) % 2 ^ 64, s2)

    unfoldable pub timed_loop : ℕ → S → List ℕ × S
    timed_loop zero s = ([], s)
    timed_loop (suc n) s =
        let (sample, s1) = timed s in let (samples, s2) = timed_loop n s1 in (sample ∷ samples, s2)

    unfoldable pub measure_latency_ns : (warmup_iters measured_iters : ℕ) → S → LatencyStats × S
    unfolding warm_up timed_loop
    measure_latency_ns warmup_iters measured_iters s =
        let (samples, s') = timed_loop measured_iters (warm_up warmup_iters s) in
        (compute_latency_stats samples, s')
