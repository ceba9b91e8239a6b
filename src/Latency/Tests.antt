-- ===== src/Latency/Tests.antt =====
-- The theorems of the harness at concrete samples, with `double` instantiated by hundredths.
use lowlatency_exec_core.Common.{
  ℕ, ◌≡◌, [], ◌∷◌, arith, refl, ap, ◌*◌, ◌+◌, ◌/◌, ◌≤◌, ltb, if◌then◌else◌,
}
use lowlatency_exec_core.Common.Int.{pos}
use lowlatency_exec_core.Latency.{Doubles, compute_latency_stats, measure_latency_ns}
use lowlatency_exec_core.Latency.Percentile.{IsSummary, compute_latency_stats-IsSummary}
use lowlatency_exec_core.Latency.Loop.{measure_latency_ns-counts}

-- Numbers of hundredths, without negative ones.
abbrev pub cut : ℕ → ℕ → ℕ → ℕ
cut v lo hi = if ltb v lo then lo else if ltb hi v then hi else v

pub hundredths_literal :
    (h : ℕ) → h ≤ 10000 → pos ((cut h 0 10000 * 10000 / 100 + 50) / 100) ≡ pos h
hundredths_literal h p = ap pos (ground arith)

abbrev pub hundredths : Doubles
hundredths = record {
  Double = ℕ;
  of_hundredths = λ h. h;
  of_uint64 = λ n. n * 100;
  clamp = cut;
  add = λ a b. a + b;
  mul = λ a b. a * b / 100;
  div = λ a b. a * 100 / b;
  llround = λ a. pos ((a + 50) / 100);
  scaled_literal = hundredths_literal;
}

compute_latency_stats-IsSummary_example :
    IsSummary (30 ∷ 10 ∷ 20 ∷ []) (compute_latency_stats hundredths (30 ∷ 10 ∷ 20 ∷ []))
compute_latency_stats-IsSummary_example =
    compute_latency_stats-IsSummary hundredths 30 (10 ∷ 20 ∷ []) (omega arith)

-- A clock that advances by seven at each reading, and a count of the workload's runs.
abbrev tick : ℕ × ℕ → ℕ × (ℕ × ℕ)
tick s = (s.0, (s.0 + 7, s.1))

abbrev work : ℕ × ℕ → ℕ × ℕ
work s = (s.0 + 1, s.1 + 1)

measure_latency_ns-counts_example :
    ((measure_latency_ns hundredths work tick 3 5 (0, 0)).0.count ≡ 5)
    × ((measure_latency_ns hundredths work tick 3 5 (0, 0)).1.1 ≡ 0 + 3 + 5)
measure_latency_ns-counts_example =
    measure_latency_ns-counts work tick hundredths (λ s. s.1) (λ s. refl) (λ s. refl) 3 5 (0, 0)
