-- ===== src/Bench/Program.antt =====
-- The main function of src/bench_main.cpp: the report of the pinning attempt and the workloads in
-- turn, with the summaries and the last values that it prints.
use lowlatency_exec_core.Common.{ℕ, ◌<◌, ◌≡◌, ap, ◌∙◌, Option, none, some, arith}
use lowlatency_exec_core.Common.Int.{ℤ, pos}
use lowlatency_exec_core.Types.{Quantity}
use lowlatency_exec_core.Slab.{Ptr}
use lowlatency_exec_core.Affinity.{
  Os, Platform, PinResult, pin_current_thread_to_core, current_core_id,
}
use lowlatency_exec_core.Latency.{Doubles, LatencyStats}
use lowlatency_exec_core.PriceScan.Avx.{Target}
use lowlatency_exec_core.Book.{OrderBook, Result, ok, fault, invalid_quantity, duplicate_id}
use lowlatency_exec_core.Book.Queries.{order_count}
use lowlatency_exec_core.Bench.{
  warmup_iters, measured_iters, bench_resting_insert, bench_crossing_insert, bench_cancel,
  bench_ring_buffer_round_trip, bench_price_scan,
}
use lowlatency_exec_core.Bench.Resting.{bench_resting_insert-order_count}
use lowlatency_exec_core.Bench.Crossing.{bench_crossing_insert-order_count}
use lowlatency_exec_core.Bench.Cancelling.{bench_cancel-order_count}
use lowlatency_exec_core.Bench.RingRounds.{bench_ring_buffer_round_trip-sink}
use lowlatency_exec_core.Bench.Scans.{bench_price_scan-sink}

pub record Report (f : Doubles) : Type 0 where
  pub pin : PinResult
  pub core : Option ℤ
  pub resting : LatencyStats f × Option ℕ
  pub crossing : LatencyStats f × Option ℕ
  pub cancel : LatencyStats f × Option ℕ
  pub ring : LatencyStats f × ℕ
  pub shallow_scan : LatencyStats f × Option Quantity
  pub deep_scan : LatencyStats f × Option Quantity

-- `book.order_count()` at the end, `none` where the workload ended the program.
abbrev pub final_count : Result OrderBook → Option ℕ
unfolding order_count
final_count (ok b) = some (order_count b)
final_count fault = none
final_count invalid_quantity = none
final_count duplicate_id = none

-- The i-th workload reads the clock `ticks i`; the pool of each book starts at `brk`.
module _ (os : Os) (platform : Platform) (f : Doubles) (ticks : ℕ → ℕ → ℕ) (target : Target)
    (brk : Ptr) (fill : ℕ) where
  unfoldable pub bench_main : Report f
  unfolding pin_current_thread_to_core current_core_id bench_resting_insert bench_crossing_insert
      bench_cancel bench_ring_buffer_round_trip bench_price_scan
  bench_main =
      let resting = bench_resting_insert f (ticks 0) brk warmup_iters measured_iters in
      let crossing = bench_crossing_insert f (ticks 1) brk warmup_iters measured_iters in
      let cancel = bench_cancel f (ticks 2) brk warmup_iters measured_iters in
      let ring = bench_ring_buffer_round_trip f (ticks 3) 10 fill warmup_iters measured_iters in
      let shallow_scan = bench_price_scan f (ticks 4) target 16 warmup_iters measured_iters in
      let deep_scan = bench_price_scan f (ticks 5) target 64 warmup_iters measured_iters in
      record {
        pin = pin_current_thread_to_core os platform 0;
        core = current_core_id os platform;
        resting = (resting.0, final_count resting.1.book);
        crossing = (crossing.0, final_count crossing.1.book);
        cancel = (cancel.0, final_count cancel.1.book);
        ring = (ring.0, ring.1.sink);
        shallow_scan = (shallow_scan.0, shallow_scan.1.sink);
        deep_scan = (deep_scan.0, deep_scan.1.sink);
      }

final_count_of :
    (r : Result OrderBook) (n : ℕ)
    → (b : OrderBook) × (r ≡ ok b) × (order_count b ≡ n)
    → final_count r ≡ some n
unfolding final_count
final_count_of r n (b, e, total) = ap final_count e ∙ ap some total

-- Whatever the operating system answers, the six clocks read and the target is, and for a first
-- address that is not zero, the benchmark's main function runs all workloads to their end; the
-- values it prints after them are 52000 orders that rest, none after the crossing orders, none
-- after the cancellations, the popped value 51999, and the scans' lots 90 and 330.
pub bench_main_report :
    (os : Os) (platform : Platform) (f : Doubles) (ticks : ℕ → ℕ → ℕ) (target : Target) (brk : Ptr)
    (fill : ℕ)
    → 0 < brk
    → ((bench_main os platform f ticks target brk fill).resting.1 ≡ some 52000)
      × ((bench_main os platform f ticks target brk fill).crossing.1 ≡ some 0)
      × ((bench_main os platform f ticks target brk fill).cancel.1 ≡ some 0)
      × ((bench_main os platform f ticks target brk fill).ring.1 ≡ 51999)
      × ((bench_main os platform f ticks target brk fill).shallow_scan.1 ≡ some (pos 90))
      × ((bench_main os platform f ticks target brk fill).deep_scan.1 ≡ some (pos 330))
unfolding bench_main
bench_main_report os platform f ticks target brk fill positive =
    let w = warmup_iters in
    let m = measured_iters in
    let last =
      (bench_ring_buffer_round_trip-sink f (ticks 3) 10 fill w m (omega arith) (omega arith)).0 in
    (
      final_count_of _ 52000
          (bench_resting_insert-order_count f (ticks 0) brk w m (omega arith) positive),
      final_count_of _ 0
          (bench_crossing_insert-order_count f (ticks 1) brk w m (omega arith) positive),
      final_count_of _ 0 (bench_cancel-order_count f (ticks 2) brk w m (omega arith) positive),
      omega (arith, last),
      bench_price_scan-sink f (ticks 4) target 16 w m (omega arith) (omega arith) (omega arith),
      bench_price_scan-sink f (ticks 5) target 64 w m (omega arith) (omega arith) (omega arith),
    )
