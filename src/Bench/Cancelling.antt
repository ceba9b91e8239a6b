-- ===== src/Bench/Cancelling.antt =====
-- The third workload of src/bench_main.cpp: the orders that a book was filled with are cancelled.
use lowlatency_exec_core.Nodes.Detach.{less}
use lowlatency_exec_core.Common.{
  ℕ, zero, suc, ◌+◌, ◌<◌, ◌≤◌, ◌^◌, ◌≡◌, ◌==◌, ◌∙◌, refl, ap, true, false, none, some, [], ◌∷◌,
  arith, subst, get_elem?, Bool-cases, inr, ltb, inl,
}
use lowlatency_exec_core.Words.{inc64_small}
use lowlatency_exec_core.Types.{buy, OrderId}
use lowlatency_exec_core.Slab.{Ptr}
use lowlatency_exec_core.Latency.{Doubles}
use lowlatency_exec_core.Latency.Loop.{measured_rule}
use lowlatency_exec_core.Locations.{Locations, lookup}
use lowlatency_exec_core.Locations.Keys.{lookup-forget}
use lowlatency_exec_core.Book.{OrderBook, ok}
use lowlatency_exec_core.Book.Queries.{order_count}
use lowlatency_exec_core.Book.Consistent.{IsConsistent}
use lowlatency_exec_core.Book.Reachable.{cancel_order-IsConsistent}
use lowlatency_exec_core.Bench.{
  BookRun, book_of, cancel_next, now, start, seed, run_on, ids_from, bench_cancel,
}
use lowlatency_exec_core.Bench.Running.{seed-Running}

ids_from-get_elem? : (first n k : ℕ) → k < n → get_elem? (ids_from first n) k ≡ some (first + k)
unfolding ids_from
ids_from-get_elem? first zero k h = absurd (omega (arith, h))
ids_from-get_elem? first (suc n) zero h = ap some (omega arith)
ids_from-get_elem? first (suc n) (suc k) h =
    ids_from-get_elem? (first + 1) n k (omega (arith, h)) ∙ ap some (omega arith)

-- After `k` of the `total` cancellations, the ids above `k` are left.
record Cancelled (total k : ℕ) (s : BookRun) : Type 0 where
  at : OrderBook
  book : s.book ≡ ok at
  next : s.next ≡ k
  consistent : IsConsistent at
  gone : (id : OrderId) → id ≤ k → lookup id at.locations ≡ none
  later : (id : OrderId) → total < id → lookup id at.locations ≡ none

cancel_next-Cancelled :
    (total k : ℕ) (s : BookRun)
    → k < total
    → total + 8192 < 2 ^ 64
    → Cancelled total k s
    → Cancelled total (k + 1) (cancel_next (ids_from 1 total) s)
unfolding cancel_next
cancel_next-Cancelled total k s less fits r =
    let (found, b, e, named, index, gone, w) =
      cancel_order-IsConsistent (1 + k) r.at r.consistent in
    let id = ids_from-get_elem? 1 total k less in
    record {
      at = b;
      book = rw (r.book, r.next, id) (ap book_of e);
      next = rw (r.next) (inc64_small k (omega (arith, less, fits)));
      consistent = w;
      gone = λ j h. elim (Bool-cases (j == 1 + k)) [
        | inl here ↦
            let same : 1 + k ≡ j = ground (arith, here) in
            subst (λ i. lookup i b.locations ≡ none) same gone
        | inr past ↦
            rw index
              (lookup-forget (1 + k) j r.at.locations past ∙ r.gone j (ground (arith, h, past)))
      ];
      later = λ j h.
          let past : (j == 1 + k) ≡ false = ground (arith, h, less) in
          rw index (lookup-forget (1 + k) j r.at.locations past ∙ r.later j h);
    }

no_entry : (m : Locations) → ((id : OrderId) → lookup id m ≡ none) → m ≡ []
unfolding lookup
no_entry [] h = refl
no_entry ((k, v) ∷ m) h =
    let self : (k == k) ≡ true = ground arith in let here : some v ≡ none = rw self at (h k) in cc

-- For n iterations with n + 8192 below 2 ^ 64 and a first address that is not zero, whatever the
-- clock reads: filling the book with n orders and measuring their cancellation never faults, and
-- leaves no order, which is the count that the benchmark expects.
pub bench_cancel-order_count :
    (f : Doubles) (ticks : ℕ → ℕ) (brk : Ptr) (warmup measured : ℕ)
    → warmup + measured + 8192 < 2 ^ 64
    → 0 < brk
    → (b : OrderBook) × ((bench_cancel f ticks brk warmup measured).1.book ≡ ok b)
      × (order_count b ≡ 0)
unfolding bench_cancel order_count
bench_cancel-order_count f ticks brk warmup measured fits positive =
    let total = warmup + measured in
    let filled = seed-Running buy total brk fits positive in
    let r =
      measured_rule (cancel_next (ids_from 1 total)) (now ticks) f (Cancelled total) total
        (λ k s less r. cancel_next-Cancelled total k s less fits r)
        (λ k s r. record {
          at = r.at;
          book = r.book;
          next = r.next;
          consistent = r.consistent;
          gone = r.gone;
          later = r.later;
        })
        warmup measured (run_on (seed buy total (start brk)).book 0) (omega arith)
        (record {
          at = filled.at;
          book = filled.book;
          next = refl;
          consistent = filled.seeded.consistent;
          gone = λ id h.
              let none_yet : 0 ≡ id = omega (arith, h) in
              subst (λ i. lookup i filled.at.locations ≡ none) none_yet filled.seeded.zeroth;
          later = filled.seeded.later;
        }) in
    let none_left : (id : OrderId) → lookup id r.at.locations ≡ none = λ id.
      elim (Bool-cases (ltb total id)) [
        | inl past ↦ r.later id (ground (arith, past))
        | inr inside ↦ r.gone id (ground (arith, inside))
      ] in
    (r.at, r.book, rw (no_entry r.at.locations none_left) refl)
