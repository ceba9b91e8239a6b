-- ===== src/Bench/Tests.antt =====
-- The workloads of src/bench_main.cpp with its numbers of iterations, on a clock that advances by
-- forty nanoseconds from one reading to the next.
use lowlatency_exec_core.Common.{ℕ, ◌*◌, ◌≡◌, arith, some}
use lowlatency_exec_core.Common.Int.{pos}
use lowlatency_exec_core.Latency.Tests.{hundredths}
use lowlatency_exec_core.PriceScan.Avx.{portable}
use lowlatency_exec_core.Bench.Program.{bench_main, bench_main_report}
use lowlatency_exec_core.Affinity.{Os, apple}

abbrev ticks : ℕ → ℕ
ticks k = 40 * k

-- A system that refuses to pin, as on Apple's platforms.
abbrev refusing : Os
refusing = record {
  CpuSet = ℕ;
  cpu_zero = 0;
  cpu_set = λ c set. set;
  pthread_setaffinity_np = λ set. pos 22;
  thread_policy_set = λ tag. pos 46;
  sched_getcpu = pos 0;
}

abbrev clocks : ℕ → ℕ → ℕ
clocks i = ticks

bench_main_report_example :
    ((bench_main refusing apple hundredths clocks portable 1000 0).resting.1 ≡ some 52000)
    × ((bench_main refusing apple hundredths clocks portable 1000 0).crossing.1 ≡ some 0)
    × ((bench_main refusing apple hundredths clocks portable 1000 0).cancel.1 ≡ some 0)
    × ((bench_main refusing apple hundredths clocks portable 1000 0).ring.1 ≡ 51999)
    × ((bench_main refusing apple hundredths clocks portable 1000 0).shallow_scan.1 ≡ some (pos 90))
    × ((bench_main refusing apple hundredths clocks portable 1000 0).deep_scan.1 ≡ some (pos 330))
bench_main_report_example =
    bench_main_report refusing apple hundredths clocks portable 1000 0 (omega arith)
