-- ===== src/Latency/Percentile.antt =====
-- What the percentiles of `compute_latency_stats` say of the samples that it was given.
use lowlatency_exec_core.Latency.{
  Doubles, to_uint128, nearest_rank_percentile, compute_latency_stats, last_from, LatencyStats,
  sort, stats_of_sorted,
}
use lowlatency_exec_core.Common.Int.{pos}
use lowlatency_exec_core.Latency.Sort.{
  at_most, less_than, get_or_rank, IsSorted, sort-IsSorted, less_than-sort, at_most-sort,
  less_than-none, length-sort,
}
use lowlatency_exec_core.Latency.Rank.{nearest_rank-IsNearest, IsNearest}
use lowlatency_exec_core.Common.{
  ℕ, ◌≤◌, [], ◌*◌, List, ◌-◌, length, ◌<◌, arith, get_or, ◌∷◌, ◌≡◌, ◌^◌, le_trans, dec_lt, ◌∙◌, suc,
  refl, sym, subst₂,
}

-- `v` is the nearest-rank percentile `h / 100` of `samples`: at least that part of them is at most
-- `v`, and less than that part lies below it.
pub record IsPercentile (h : ℕ) (samples : List ℕ) (v : ℕ) : Type 0 where
  pub enough : h * length samples ≤ at_most v samples * 10000
  pub tight : less_than v samples * 10000 < h * length samples

-- The value is one of the samples: some sample is at most it and not less.
pub IsPercentile-sample :
    {h : ℕ} {samples : List ℕ} {v : ℕ}
    → IsPercentile h samples v
    → less_than v samples < at_most v samples
IsPercentile-sample p = omega arith

rank-IsPercentile :
    (h k : ℕ) (sorted : List ℕ)
    → 0 < h
    → IsSorted sorted
    → IsNearest h (length sorted) k
    → IsPercentile h sorted (get_or sorted (k - 1) 0)
rank-IsPercentile h k sorted pos_h s r =
    let (above, below) = get_or_rank (k - 1) sorted s (omega arith) in
    let at_least_one : length sorted ≤ h * length sorted = grind arith in
    record { enough = omega arith; tight = ground arith }

module _ (f : Doubles) where
  open f use {of_hundredths, scaled_literal}

  pub nearest_rank_percentile-IsPercentile :
      (h : ℕ) (sorted : List ℕ)
      → 0 < h
      → h ≤ 10000
      → IsSorted sorted
      → 0 < length sorted
      → length sorted < 2 ^ 64
      → IsPercentile h sorted (nearest_rank_percentile f sorted (of_hundredths h))
  unfolding nearest_rank_percentile
  nearest_rank_percentile-IsPercentile h [] pos_h le s some_n few = absurd (omega arith)
  nearest_rank_percentile-IsPercentile h (x ∷ xs) pos_h le s some_n few =
      rw (scaled_literal h le, nearest_rank_percentile)
        (rw (to_uint128_small h le) (
          rank-IsPercentile h _ (x ∷ xs) pos_h s
            (nearest_rank-IsNearest h (length (x ∷ xs)) le some_n few)))
    where
      to_uint128_small : (m : ℕ) → m ≤ 10000 → to_uint128 (pos m) ≡ m
      to_uint128_small m h = unfold to_uint128 in omega arith

-- The same of samples with the same counts, such as those before sorting.
IsPercentile-sort : (h : ℕ) (xs : List ℕ) (v : ℕ) → IsPercentile h (sort xs) v → IsPercentile h xs v
IsPercentile-sort h xs v p = record {
  enough = subst₂ (λ n a. h * n ≤ a * 10000) (length-sort xs) (at_most-sort v xs) p.enough;
  tight = subst₂ (λ n a. a * 10000 < h * n) (length-sort xs) (less_than-sort v xs) p.tight;
}

at_most-le-less_than : (v w : ℕ) (xs : List ℕ) → v < w → at_most v xs ≤ less_than w xs
at_most-le-less_than v w [] h = omega arith
at_most-le-less_than v w (x ∷ xs) h = ground (arith, at_most-le-less_than v w xs h)

-- A higher percentage gives no smaller value.
pub IsPercentile-mono :
    (h k : ℕ) (xs : List ℕ) (v w : ℕ) → h ≤ k → IsPercentile h xs v → IsPercentile k xs w → v ≤ w
IsPercentile-mono h k xs v w le p q = elim (dec_lt w v) [
  | no down ↦ omega arith
  | yes up ↦
      let counts = at_most-le-less_than w v xs up in
      let grows : h * length xs ≤ k * length xs = grind arith in
      absurd (omega (arith, p.tight, q.enough, counts))
]

pub record IsSummary {f : Doubles} (samples : List ℕ) (s : LatencyStats f) : Type 0 where
  pub count : s.count ≡ length samples
  -- a sample with none below it, and one with none above it
  pub least : (less_than s.min_ns samples ≡ 0) × (0 < at_most s.min_ns samples)
  pub greatest :
      (at_most s.max_ns samples ≡ length samples) × (less_than s.max_ns samples < length samples)
  pub p50 : IsPercentile 5000 samples s.p50_ns
  pub p90 : IsPercentile 9000 samples s.p90_ns
  pub p99 : IsPercentile 9900 samples s.p99_ns
  pub p999 : IsPercentile 9990 samples s.p999_ns
  pub p9999 : IsPercentile 9999 samples s.p9999_ns

at_most-last :
    (x : ℕ) (xs : List ℕ) → IsSorted (x ∷ xs) → at_most (last_from x xs) (x ∷ xs) ≡ suc (length xs)
unfolding last_from
at_most-last x [] s = ground arith
at_most-last x (y ∷ ys) s = ground (arith, at_most-last y ys s.1, le-last y ys s.1)
  where
    le-last : (y : ℕ) (ys : List ℕ) → IsSorted (y ∷ ys) → y ≤ last_from y ys
    le-last y [] s = omega arith
    le-last y (z ∷ zs) s = le_trans s.0.0 (le-last z zs s.1)

less_than-last : (x : ℕ) (xs : List ℕ) → less_than (last_from x xs) (x ∷ xs) < suc (length xs)
unfolding last_from
less_than-last x [] = ground arith
less_than-last x (y ∷ ys) = ground (arith, less_than-last y ys)

module _ (f : Doubles) where
  stats_of_sorted-IsSummary :
      (xs : List ℕ)
      → IsSorted xs
      → 0 < length xs
      → length xs < 2 ^ 64
      → IsSummary xs (stats_of_sorted f xs)
  unfolding stats_of_sorted
  stats_of_sorted-IsSummary [] s some_n few = absurd (omega arith)
  stats_of_sorted-IsSummary (x ∷ xs) s some_n few =
      let p = λ (h : ℕ) (pos_h : 0 < h) (le : h ≤ 10000).
        nearest_rank_percentile-IsPercentile f h (x ∷ xs) pos_h le s some_n few in
      record {
        count = refl;
        least = (less_than-none x (x ∷ xs) (omega arith, s.0), ground arith);
        greatest = (at_most-last x xs s, less_than-last x xs);
        p50 = p 5000 (omega arith) (omega arith);
        p90 = p 9000 (omega arith) (omega arith);
        p99 = p 9900 (omega arith) (omega arith);
        p999 = p 9990 (omega arith) (omega arith);
        p9999 = p 9999 (omega arith) (omega arith);
      }

  -- The summary of at least one sample, and of less than 2 ^ 64, describes the samples as they were
  -- given: their number, the least and the greatest, and the percentiles 50, 90, 99, 99.9 and 99.99
  -- by the nearest-rank method.
  pub compute_latency_stats-IsSummary :
      (x : ℕ) (xs : List ℕ)
      → length (x ∷ xs) < 2 ^ 64
      → IsSummary (x ∷ xs) (compute_latency_stats f (x ∷ xs))
  unfolding compute_latency_stats
  compute_latency_stats-IsSummary x xs few =
      let n = length-sort (x ∷ xs) in
      let r =
        stats_of_sorted-IsSummary (sort (x ∷ xs)) (sort-IsSorted (x ∷ xs)) (omega (arith, n))
          (omega (arith, n)) in
      let st = stats_of_sorted f (sort (x ∷ xs)) in
      record {
        count = r.count ∙ n;
        least = (
          sym (less_than-sort st.min_ns (x ∷ xs)) ∙ r.least.0,
          omega (arith, at_most-sort st.min_ns (x ∷ xs), r.least.1),
        );
        greatest = (
          sym (at_most-sort st.max_ns (x ∷ xs)) ∙ (r.greatest.0 ∙ n),
          omega (arith, n, less_than-sort st.max_ns (x ∷ xs), r.greatest.1),
        );
        p50 = IsPercentile-sort 5000 (x ∷ xs) _ r.p50;
        p90 = IsPercentile-sort 9000 (x ∷ xs) _ r.p90;
        p99 = IsPercentile-sort 9900 (x ∷ xs) _ r.p99;
        p999 = IsPercentile-sort 9990 (x ∷ xs) _ r.p999;
        p9999 = IsPercentile-sort 9999 (x ∷ xs) _ r.p9999;
      }
