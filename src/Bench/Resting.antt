-- ===== src/Bench/Resting.antt =====
-- The first workload of src/bench_main.cpp: orders that rest.
use lowlatency_exec_core.Common.{ℕ, ◌+◌, ◌<◌, ◌^◌, ◌≡◌, arith}
use lowlatency_exec_core.Types.{buy}
use lowlatency_exec_core.Slab.{Ptr}
use lowlatency_exec_core.Latency.{Doubles}
use lowlatency_exec_core.Latency.Loop.{measured_rule}
use lowlatency_exec_core.Book.{OrderBook, ok}
use lowlatency_exec_core.Book.Queries.{order_count}
use lowlatency_exec_core.Bench.{add_next, now, start, bench_resting_insert}
use lowlatency_exec_core.Bench.Running.{Running, add_next-Running, start-Running}

-- For n iterations, warm-up and measured, with n + 8192 below 2 ^ 64 and a first address that is
-- not zero, whatever the clock reads: measuring the orders that rest throws nothing, and leaves n
-- orders.
pub bench_resting_insert-order_count :
    (f : Doubles) (ticks : ℕ → ℕ) (brk : Ptr) (warmup measured : ℕ)
    → warmup + measured + 8192 < 2 ^ 64
    → 0 < brk
    → (b : OrderBook) × ((bench_resting_insert f ticks brk warmup measured).1.book ≡ ok b)
      × (order_count b ≡ warmup + measured)
unfolding bench_resting_insert
bench_resting_insert-order_count f ticks brk warmup measured fits positive =
    let r =
      measured_rule (add_next buy) (now ticks) f (Running buy) (warmup + measured)
        (λ k s less r. add_next-Running buy k s (omega (arith, less, fits)) r)
        (λ k s r. record { at = r.at; book = r.book; next = r.next; seeded = r.seeded }) warmup
        measured (start brk) (omega arith) (start-Running buy brk positive) in
    (r.at, r.book, r.seeded.count)
