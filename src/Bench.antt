-- ===== src/Bench.antt =====
-- The workloads of src/bench_main.cpp on the order book, each run by `measure_latency_ns`: a state
-- holds the book, the loop's counter, and how often the clock has been read. The clock is the
-- parameter `ticks`, its k-th reading. An exception or a fault ends the program.

pub mod Seeding
pub mod Running
pub mod Resting
pub mod Cancelling
pub mod Crossing
pub mod RingRounds
pub mod Scans
pub mod Program
mod Tests
use lowlatency_exec_core.Common.{
  ℕ, zero, suc, ◌+◌, ◌/◌, Option, none, some, List, [], ◌∷◌, ◌++◌, get_elem?,
}
use lowlatency_exec_core.Common.Int.{pos}
use lowlatency_exec_core.Words.{inc64}
use lowlatency_exec_core.Types.{Side, buy, sell, OrderId, Price, Quantity}
use lowlatency_exec_core.Slab.{Ptr}
use lowlatency_exec_core.Latency.{Doubles, LatencyStats, measure_latency_ns}
use lowlatency_exec_core.Ring.{Ring, empty_ring, try_push, try_pop}
use lowlatency_exec_core.PriceScan.{PriceLevel, ScanResult}
use lowlatency_exec_core.PriceScan.Avx.{Target, scan_quantity_at_or_better}
use lowlatency_exec_core.Book.{
  OrderBook, Result, ok, fault, invalid_quantity, duplicate_id, new_book, default_initial_capacity,
  add_limit_order, cancel_order,
}

abbrev pub warmup_iters : ℕ
warmup_iters = 2000

abbrev pub measured_iters : ℕ
measured_iters = 50000

abbrev pub fixed_price : Price
fixed_price = pos 100

pub record BookRun : Type 0 where
  pub book : Result OrderBook
  pub next : ℕ
  pub reads : ℕ

-- The book alone of what an operation gives.
abbrev pub book_of {ℓ} : {A : Type ℓ} → Result (A × OrderBook) → Result OrderBook
book_of (ok (a, b)) = ok b
book_of invalid_quantity = invalid_quantity
book_of duplicate_id = duplicate_id
book_of fault = fault

abbrev pub with_book : Result OrderBook → (OrderBook → Result OrderBook) → Result OrderBook
with_book (ok b) f = f b
with_book invalid_quantity f = invalid_quantity
with_book duplicate_id f = duplicate_id
with_book fault f = fault

-- `book.add_limit_order(next++, side, kFixedPrice, 1)`
unfoldable pub add_next : Side → BookRun → BookRun
unfolding inc64
add_next side s = record s {
  book = with_book s.book (λ b. book_of (add_limit_order s.next side fixed_price (pos 1) b));
  next = inc64 s.next;
}

-- `book.cancel_order(ids[next++])`
unfoldable pub cancel_next : List OrderId → BookRun → BookRun
unfolding inc64
cancel_next ids s = record s {
  book =
      with_book s.book
        (λ b. elim (get_elem? ids s.next) [ none ↦ fault | some id ↦ book_of (cancel_order id b) ]);
  next = inc64 s.next;
}

-- The untimed loops that fill a book before the measurement.
unfoldable pub seed : Side → ℕ → BookRun → BookRun
unfolding add_next
seed side zero s = s
seed side (suc n) s = seed side n (add_next side s)

-- The ids that `bench_cancel` collects: those from `first` on.
unfoldable pub ids_from : ℕ → ℕ → List OrderId
ids_from first zero = []
ids_from first (suc n) = first ∷ ids_from (first + 1) n

abbrev pub run_on : Result OrderBook → ℕ → BookRun
run_on book next = record { book = book; next = next; reads = 0 }

abbrev pub start : Ptr → BookRun
start brk = run_on (ok (new_book default_initial_capacity brk)) 1

abbrev pub now : (ℕ → ℕ) → BookRun → ℕ × BookRun
now ticks s = (ticks s.reads, record s { reads = s.reads + 1 })

module _ (f : Doubles) (ticks : ℕ → ℕ) (brk : Ptr) (warmup measured : ℕ) where
  unfoldable pub bench_resting_insert : LatencyStats f × BookRun
  unfolding measure_latency_ns add_next
  bench_resting_insert = measure_latency_ns f (add_next buy) (now ticks) warmup measured (start brk)

  unfoldable pub bench_crossing_insert : LatencyStats f × BookRun
  unfolding measure_latency_ns add_next seed
  bench_crossing_insert =
      let seeded = seed sell (warmup + measured) (start brk) in
      measure_latency_ns f (add_next buy) (now ticks) warmup measured
        (run_on seeded.book 1000000000)

  unfoldable pub bench_cancel : LatencyStats f × BookRun
  unfolding measure_latency_ns cancel_next seed ids_from
  bench_cancel =
      let seeded = seed buy (warmup + measured) (start brk) in
      measure_latency_ns f (cancel_next (ids_from 1 (warmup + measured))) (now ticks) warmup
        measured (run_on seeded.book 0)

-- The fourth workload: the ring, the next value, and the last value popped.
pub record RingRun : Type 0 where
  pub ring : Ring ℕ
  pub next_value : ℕ
  pub sink : ℕ
  pub reads : ℕ

abbrev out_of : Option ℕ → ℕ
out_of none = 0
out_of (some value) = value

-- `ring.try_push(next_value++)`, then `ring.try_pop(out)`, by one thread.
unfoldable pub push_pop : (k : ℕ) → RingRun → RingRun
unfolding try_push try_pop inc64
push_pop k s =
    let ring = (try_push k s.ring.head s.next_value s.ring).1 in
    let popped = try_pop k ring.tail ring in
    record s { ring = popped.1; next_value = inc64 s.next_value; sink = out_of popped.0 }

abbrev pub ring_now : (ℕ → ℕ) → RingRun → ℕ × RingRun
ring_now ticks s = (ticks s.reads, record s { reads = s.reads + 1 })

-- The ring has 2 ^ k slots, in the source 1024, which hold `fill` at first.
unfoldable pub bench_ring_buffer_round_trip :
    (f : Doubles) (ticks : ℕ → ℕ) (k fill warmup measured : ℕ) → LatencyStats f × RingRun
unfolding measure_latency_ns push_pop
bench_ring_buffer_round_trip f ticks k fill warmup measured =
    measure_latency_ns f (push_pop k) (ring_now ticks) warmup measured
      (record { ring = empty_ring fill; next_value = 0; sink = 0; reads = 0 })

-- The fifth workload: the lots that the last scan gave, zero before the first one, and `none` where
-- an addition overflows.
pub record ScanRun : Type 0 where
  pub sink : Option Quantity
  pub reads : ℕ

-- The levels from the `i`-th on: ten lots each, at 100 + i.
unfoldable pub levels_from : (i count : ℕ) → List PriceLevel
levels_from i zero = []
levels_from i (suc count) =
    (record { price = pos (100 + i); quantity = pos 10 }) ∷ levels_from (i + 1) count

abbrev pub limit_of : (depth : ℕ) → Price
limit_of depth = pos (100 + depth / 2)

unfoldable pub scan_once : Target → (depth : ℕ) → ScanRun → ScanRun
unfolding scan_quantity_at_or_better levels_from
scan_once target depth s = record s {
  sink = elim (scan_quantity_at_or_better target (levels_from 0 depth) (limit_of depth) buy) [
    | none ↦ none
    | some result ↦ some (result.total_quantity)
  ];
}

abbrev pub scan_now : (ℕ → ℕ) → ScanRun → ℕ × ScanRun
scan_now ticks s = (ticks s.reads, record s { reads = s.reads + 1 })

unfoldable pub bench_price_scan :
    (f : Doubles) (ticks : ℕ → ℕ) (target : Target) (depth warmup measured : ℕ)
    → LatencyStats f × ScanRun
unfolding measure_latency_ns scan_once
bench_price_scan f ticks target depth warmup measured =
    measure_latency_ns f (scan_once target depth) (scan_now ticks) warmup measured
      (record { sink = some (pos 0); reads = 0 })
