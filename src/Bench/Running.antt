-- ===== src/Bench/Running.antt =====
-- The state of a workload of src/bench_main.cpp that adds one order a round to an empty book.
use lowlatency_exec_core.Common.{ℕ, suc, zero, ◌+◌, ◌<◌, ◌^◌, ◌≡◌, refl, sym, ap, subst, [], arith}
use lowlatency_exec_core.Words.{inc64_small}
use lowlatency_exec_core.Types.{Side, buy, sell}
use lowlatency_exec_core.Slab.{Ptr}
use lowlatency_exec_core.Slab.Used.{construct_size}
use lowlatency_exec_core.Levels.{node_layout}
use lowlatency_exec_core.Locations.{lookup}
use lowlatency_exec_core.Book.{
  OrderBook, ok, new_book, default_initial_capacity, levels_of, opposite,
}
use lowlatency_exec_core.Book.Queries.{order_count}
use lowlatency_exec_core.Book.Consistent.{new_book-IsConsistent}
use lowlatency_exec_core.Bench.{BookRun, add_next, seed, start, book_of}
use lowlatency_exec_core.Bench.Seeding.{Seeded, Lots, placed, after-Seeded, after}

pub record Running (side : Side) (k : ℕ) (s : BookRun) : Type 0 where
  pub at : OrderBook
  pub book : s.book ≡ ok at
  pub next : s.next ≡ k + 1
  pub seeded : Seeded side k at

pub add_next-Running :
    (side : Side) (k : ℕ) (s : BookRun)
    → k + 8192 < 2 ^ 64
    → Running side k s
    → Running side (k + 1) (add_next side s)
unfolding add_next
add_next-Running side k s fits r = record {
  at = after side k r.at r.seeded fits;
  book = rw (r.book, r.next) (ap book_of (placed side k r.at r.seeded fits));
  next = rw (r.next) (inc64_small (k + 1) (omega (arith, fits)));
  seeded = after-Seeded side k r.at r.seeded fits;
}

new_book-Seeded :
    (side : Side) (brk : Ptr) → 0 < brk → Seeded side 0 (new_book default_initial_capacity brk)
unfolding new_book order_count lookup
new_book-Seeded side brk positive =
    let size = construct_size node_layout default_initial_capacity brk (omega arith) in
    record {
      consistent = new_book-IsConsistent default_initial_capacity brk (omega arith) positive;
      count = refl;
      alone = none_on (opposite side);
      lots = subst Lots (sym (none_on side)) tt;
      later = λ id h. refl;
      zeroth = refl;
      growing = size.0;
      reserved = let total = size.1 in omega (arith, total);
    }
  where
    none_on : (s : Side) → levels_of s (new_book default_initial_capacity brk) ≡ []
    none_on buy = refl
    none_on sell = refl

pub start-Running : (side : Side) (brk : Ptr) → 0 < brk → Running side 0 (start brk)
start-Running side brk positive = record {
  at = new_book default_initial_capacity brk;
  book = refl;
  next = refl;
  seeded = new_book-Seeded side brk positive;
}

seed_rule :
    (side : Side) (n k : ℕ) (s : BookRun)
    → k + n + 8192 < 2 ^ 64
    → Running side k s
    → Running side (k + n) (seed side n s)
unfolding seed
seed_rule side zero k s h r = let e : k ≡ k + 0 = omega arith in subst (λ j. Running side j s) e r
seed_rule side (suc n) k s h r =
    let e : k + 1 + n ≡ k + suc n = omega arith in
    subst (λ j. Running side j (seed side n (add_next side s))) e
      (seed_rule side n (k + 1) (add_next side s) (omega (arith, h))
        (add_next-Running side k s (omega (arith, h)) r))

pub seed-Running :
    (side : Side) (n : ℕ) (brk : Ptr)
    → n + 8192 < 2 ^ 64
    → 0 < brk
    → Running side n (seed side n (start brk))
seed-Running side n brk h positive =
    let e : 0 + n ≡ n = omega arith in
    subst (λ j. Running side j (seed side n (start brk))) e
      (seed_rule side n 0 (start brk) (omega (arith, h)) (start-Running side brk positive))
