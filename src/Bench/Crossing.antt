-- ===== src/Bench/Crossing.antt =====
-- The second workload of src/bench_main.cpp: each order takes one lot of a book that was filled with
-- as many.
use lowlatency_exec_core.Common.{
  ℕ, ◌+◌, ◌<◌, ◌≡◌, ◌∙◌, refl, sym, ap, true, false, none, [], ◌∷◌, arith, subst, if◌then◌else◌,
  length, List, All,
}
use lowlatency_exec_core.Common.Int.{pos, ◌-ℤ◌}
use lowlatency_exec_core.Words.{inc64_small}
use lowlatency_exec_core.Types.{buy, sell, OrderId, Price, Trade}
use lowlatency_exec_core.Slab.{Ptr}
use lowlatency_exec_core.Latency.{Doubles}
use lowlatency_exec_core.Latency.Loop.{measured_rule}
use lowlatency_exec_core.Locations.{lookup}
use lowlatency_exec_core.Levels.{OrderNode, PriceLevel, Levels, is_empty}
use lowlatency_exec_core.Book.{
  OrderBook, Taker, Engine, Run, before_run, trade_of, retire, next_event, ok, is_positive,
  fill_level, sweep, execute, engine_of, run_of,
}
use lowlatency_exec_core.Book.Valid.{IsLevel}
use lowlatency_exec_core.Book.Loops.{fill_level_take, fill_level_stop, sub_self}
use lowlatency_exec_core.Book.Queries.{order_count}
use lowlatency_exec_core.Book.Sides.{
  taker, accepted, sweep_of, execute-opposite, execute_own_filled,
}
use lowlatency_exec_core.Book.Tracked.{side_entries}
use lowlatency_exec_core.Book.Agreement.{tracked, sweep-Kept}
use lowlatency_exec_core.Book.Executed.{filled_locations}
use lowlatency_exec_core.Book.Consistent.{IsConsistent, add_limit_order-IsConsistent, HasRoom}
use lowlatency_exec_core.Book.Reachable.{order_count-used_blocks, same_book}
use lowlatency_exec_core.Bench.{
  BookRun, book_of, add_next, now, start, seed, run_on, bench_crossing_insert, fixed_price,
}
use lowlatency_exec_core.Bench.Seeding.{Seeded, Lots, IsLot}
use lowlatency_exec_core.Bench.Running.{seed-Running}

-- A buy of one lot takes the first of a queue of orders of one lot.
abbrev buyer : OrderId → Taker
buyer id = taker id buy fixed_price

abbrev orders : Levels → ℕ
orders ls = length (side_entries sell ls)

-- What the loops leave of the levels `ls`: one order less, and no lot to trade.
record TakesOne (ls : Levels) (r : Run Levels) : Type 0 where
  spent : is_positive r.remaining ≡ false
  lots : Lots r.rest
  fewer : orders r.rest + 1 ≡ orders ls

fill_level_zero :
    (t : Taker) (p : Price) (level : PriceLevel) (e : Engine)
    → fill_level t p (pos 0) level e ≡ run_of [] (pos 0) level e
fill_level_zero t p [] e = unfold fill_level in refl
fill_level_zero t p (n ∷ ns) e = fill_level_stop t p (pos 0) n ns e refl

sweep_zero : (t : Taker) (ls : Levels) (e : Engine) → sweep t (pos 0) ls e ≡ run_of [] (pos 0) ls e
unfolding sweep
sweep_zero t [] e = refl
sweep_zero t ((p, level) ∷ ls) e = refl

module _ (id : OrderId) (n : OrderNode) (ns : PriceLevel) (ls : Levels) (e : Engine)
    (lot : IsLot n) where
  abbrev trade : List Trade
  trade = trade_of (buyer id) fixed_price n.order.quantity n e.next_sequence ∷ []

  abbrev taken : Run PriceLevel
  taken = run_of trade (pos 0) ns (retire n ns (next_event e)).1

  fill_level_one : fill_level (buyer id) fixed_price (pos 1) (n ∷ ns) e ≡ taken
  fill_level_one =
      let rest : pos 1 -ℤ n.order.quantity ≡ pos 0 = rw lot (sub_self (pos 1)) in
      fill_level_take (buyer id) fixed_price (pos 1) n ns e refl (rw lot refl)
      ∙ (ap
            (λ r.
              before_run trade
                (fill_level (buyer id) fixed_price r ns (retire n ns (next_event e)).1))
            rest
          ∙ ap (before_run trade)
              (fill_level_zero (buyer id) fixed_price ns (retire n ns (next_event e)).1))

  abbrev finish : Run PriceLevel → Run Levels
  finish f =
      if is_empty f.rest
      then before_run f.trades (sweep (buyer id) f.remaining ls f.engine)
      else run_of f.trades f.remaining ((fixed_price, f.rest) ∷ ls) f.engine

  sweep-finish :
      sweep (buyer id) (pos 1) ((fixed_price, n ∷ ns) ∷ ls) e
      ≡ finish (fill_level (buyer id) fixed_price (pos 1) (n ∷ ns) e)
  unfolding sweep
  sweep-finish = refl

taken-TakesOne :
    (id : OrderId) (n : OrderNode) (ns : PriceLevel) (ls : Levels) (e : Engine) (lot : IsLot n)
    → All IsLot ns
    → Lots ls
    → TakesOne ((fixed_price, n ∷ ns) ∷ ls) (finish id n ns ls e lot (taken id n ns ls e lot))
taken-TakesOne id n [] ls e lot h k =
    subst (λ r. TakesOne ((fixed_price, n ∷ []) ∷ ls) (before_run (trade id n [] ls e lot) r))
      (sym (sweep_zero (buyer id) ls _)) (record { spent = refl; lots = k; fewer = omega arith })
taken-TakesOne id n (j ∷ ns) ls e lot h k = record {
  spent = refl;
  lots = ((refl, h), k);
  fewer = omega arith;
}

sweep-TakesOne :
    (id : OrderId) (ls : Levels) (e : Engine)
    → Lots ls
    → All IsLevel ls
    → 0 < orders ls
    → TakesOne ls (sweep (buyer id) (pos 1) ls e)
sweep-TakesOne id [] e h v some_left = absurd (omega (arith, some_left))
sweep-TakesOne id ((p, []) ∷ ls) e h v some_left = absurd (let clash : true ≡ false = v.0.0 in cc)
sweep-TakesOne id ((p, n ∷ ns) ∷ ls) e h v some_left =
    subst (λ q. TakesOne ((q, n ∷ ns) ∷ ls) (sweep (buyer id) (pos 1) ((q, n ∷ ns) ∷ ls) e))
      (sym h.0.0)
      (subst (TakesOne ((fixed_price, n ∷ ns) ∷ ls))
        (sym (
          sweep-finish id n ns ls e h.0.1.0
          ∙ ap (finish id n ns ls e h.0.1.0) (fill_level_one id n ns ls e h.0.1.0)))
        (taken-TakesOne id n ns ls e h.0.1.0 h.0.1.1 h.1))

-- After `k` of the `total` orders.
record Crossed (total k : ℕ) (s : BookRun) : Type 0 where
  at : OrderBook
  book : s.book ≡ ok at
  next : s.next ≡ 1000000000 + k
  consistent : IsConsistent at
  no_bids : at.bids ≡ []
  lots : Lots at.asks
  left : orders at.asks + k ≡ total
  room : HasRoom at
  later : (id : OrderId) → total < id → lookup id at.locations ≡ none

add_next-Crossed :
    (total k : ℕ) (s : BookRun)
    → k < total
    → total < 1000000000
    → Crossed total k s
    → Crossed total (k + 1) (add_next buy s)
unfolding add_next
add_next-Crossed total k s less small r =
    let id = 1000000000 + k in
    let b = r.at in
    let after = (execute (buyer id) (pos 1) b).1 in
    let fresh = r.later id (omega (arith, small)) in
    let e = accepted id buy fixed_price (pos 1) b refl fresh in
    let (ts, c, e', w) =
      add_limit_order-IsConsistent id buy fixed_price (pos 1) b r.consistent r.room refl fresh in
    let one =
      sweep-TakesOne id b.asks (engine_of b) r.lots r.consistent.formed.asks.levels
        (omega (arith, r.left, less)) in
    let kept = filled_locations (buyer id) (pos 1) b one.spent in
    let asks : after.asks ≡ (sweep_of (buyer id) (pos 1) b).rest =
      execute-opposite (buyer id) (pos 1) b in
    record {
      at = after;
      book = rw (r.book, r.next) (ap book_of e);
      next = rw (r.next) (inc64_small id (omega (arith, less, small)) ∙ omega arith);
      consistent = subst IsConsistent (same_book e' e) w;
      no_bids = execute_own_filled (buyer id) (pos 1) b one.spent ∙ r.no_bids;
      lots = subst Lots (sym asks) one.lots;
      left = let fewer = one.fewer in rw asks (omega (arith, fewer, r.left));
      room =
          let same = (sweep-Kept id (buyer id) (pos 1) b.asks (engine_of b)).room in
          rw (kept.1) (omega (arith, same, r.room));
      later = λ j h.
          rw (kept.0) ((sweep-Kept j (buyer id) (pos 1) b.asks (engine_of b)).fresh (r.later j h));
    }

Seeded-Crossed :
    (total : ℕ) (b : OrderBook)
    → total < 1000000000
    → Seeded sell total b
    → Crossed total 0 (run_on (ok b) 1000000000)
Seeded-Crossed total b small v =
    let count = (order_count-used_blocks b v.consistent).0 in
    let no_bids : b.bids ≡ [] = v.alone in
    let all : length (tracked b) ≡ orders b.asks = rw no_bids refl in
    record {
      at = b;
      book = refl;
      next = refl;
      consistent = v.consistent;
      no_bids = no_bids;
      lots = v.lots;
      left = omega (arith, count, all, v.count);
      room = omega (arith, v.growing, v.reserved, small);
      later = v.later;
    }

-- For fewer than 10 ^ 9 iterations and a first address that is not zero, whatever the clock reads:
-- filling the book with one offer for each iteration and measuring the crossing orders throws
-- nothing, and leaves no order, which is the count that the benchmark expects.
pub bench_crossing_insert-order_count :
    (f : Doubles) (ticks : ℕ → ℕ) (brk : Ptr) (warmup measured : ℕ)
    → warmup + measured < 1000000000
    → 0 < brk
    → (b : OrderBook) × ((bench_crossing_insert f ticks brk warmup measured).1.book ≡ ok b)
      × (order_count b ≡ 0)
unfolding bench_crossing_insert
bench_crossing_insert-order_count f ticks brk warmup measured small positive =
    let total = warmup + measured in
    let filled = seed-Running sell total brk (omega (arith, small)) positive in
    let r =
      measured_rule (add_next buy) (now ticks) f (Crossed total) total
        (λ k s less r. add_next-Crossed total k s less small r)
        (λ k s r. record {
          at = r.at;
          book = r.book;
          next = r.next;
          consistent = r.consistent;
          no_bids = r.no_bids;
          lots = r.lots;
          left = r.left;
          room = r.room;
          later = r.later;
        })
        warmup measured (run_on (seed sell total (start brk)).book 1000000000) (omega arith)
        (rw (filled.book) (Seeded-Crossed total filled.at small filled.seeded)) in
    let count = (order_count-used_blocks r.at r.consistent).0 in
    let all : length (tracked r.at) ≡ orders r.at.asks = rw (r.no_bids) refl in
    (r.at, r.book, omega (arith, count, all, r.left))
