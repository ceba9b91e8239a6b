-- ===== src/Bench/Seeding.antt =====
-- Books that src/bench_main.cpp fills with orders of one lot, one after another, on one side at one
-- price.
use lowlatency_exec_core.Nodes.Writes.{behind}
use lowlatency_exec_core.Common.{
  ℕ, ◌+◌, ◌<◌, ◌≤◌, ◌^◌, ◌≡◌, refl, sym, ap, ◌∙◌, subst, true, false, none, [], ◌∷◌, ◌==◌, arith,
  All, All-append, Bool-cases, inl, inr, length,
}
use lowlatency_exec_core.Common.Int.{pos}
use lowlatency_exec_core.Types.{Side, OrderId, Price}
use lowlatency_exec_core.Slab.{allocate, used_blocks}
use lowlatency_exec_core.Slab.Used.{allocate_chunk, allocate_total}
use lowlatency_exec_core.Levels.{
  OrderNode, PriceLevel, Levels, node_layout, level_at, put_level, before, same_price, find,
}
use lowlatency_exec_core.Locations.{lookup, emplace}
use lowlatency_exec_core.Book.{
  OrderBook, Taker, ok, opposite, levels_of, rest_order, too_far, add_limit_order,
}
use lowlatency_exec_core.Book.Valid.{Prices}
use lowlatency_exec_core.Book.Queries.{order_count}
use lowlatency_exec_core.Book.Lookup.{level_at_past, level_at-none}
use lowlatency_exec_core.Book.Sides.{taker, accepted, rest_order_own, rest_order-opposite}
use lowlatency_exec_core.Book.Tracked.{location}
use lowlatency_exec_core.Book.Executed.{rest_order_locations, rest_order_pool}
use lowlatency_exec_core.Book.Consistent.{IsConsistent, add_limit_order-IsConsistent}
use lowlatency_exec_core.Book.Reachable.{order_count-used_blocks, same_book}
use lowlatency_exec_core.Book.RoundTrip.{execute_idle}
use lowlatency_exec_core.Bench.{fixed_price}

abbrev pub IsLot : OrderNode → Type 0
IsLot n = n.order.quantity ≡ pos 1

-- All orders are of one lot, at one price.
abbrev pub Lots : Levels → Type 0
Lots ls = All (λ entry. (entry.0 ≡ fixed_price) × All IsLot entry.1) ls

level_at_same :
    (p q : Price) (m : PriceLevel) (ls : Levels)
    → same_price p q ≡ true
    → level_at p ((q, m) ∷ ls) ≡ m
unfolding level_at find
level_at_same p q m ls here = rw (here, level_at) refl

level_at-Lots : (p : Price) (ls : Levels) → Lots ls → All IsLot (level_at p ls)
level_at-Lots p [] h = subst (All IsLot) (sym (level_at-none p [] (unfold find in refl))) tt
level_at-Lots p ((q, m) ∷ ls) h = elim (Bool-cases (same_price p q)) [
  | inl here ↦ subst (All IsLot) (sym (level_at_same p q m ls here)) h.0.1
  | inr past ↦ subst (All IsLot) (sym (level_at_past p q m ls past)) (level_at-Lots p ls h.1)
]

put_level-Lots :
    (s : Side) (l : PriceLevel) (ls : Levels)
    → All IsLot l
    → Lots ls
    → Lots (put_level s fixed_price l ls)
unfolding put_level
put_level-Lots s l [] h k = ((refl, h), tt)
put_level-Lots s l ((q, m) ∷ ls) h k = elim (Bool-cases (before s fixed_price q)) [
  | inl first ↦ rw first ((refl, h), k)
  | inr later ↦ elim (Bool-cases (before s q fixed_price)) [
    | inl behind ↦ rw (later, behind) (k.0, put_level-Lots s l ls h k.1)
    | inr here ↦ rw (later, here) ((refl, h), k.1)
  ]
]

-- The book after `k` orders, of the ids 1 to `k`, on `side`.
pub record Seeded (side : Side) (k : ℕ) (b : OrderBook) : Type 0 where
  pub consistent : IsConsistent b
  pub count : order_count b ≡ k
  pub alone : levels_of (opposite side) b ≡ []
  pub lots : Lots (levels_of side b)
  pub later : (id : OrderId) → k < id → lookup id b.locations ≡ none
  pub zeroth : lookup 0 b.locations ≡ none
  pub growing : b.node_pool.chunk_size ≡ 4096
  pub reserved : b.node_pool.total_capacity ≤ k + 4096

module _ (side : Side) (k : ℕ) (b : OrderBook) (v : Seeded side k b)
    (fits : k + 8192 < 2 ^ 64) where
  abbrev id : OrderId
  id = k + 1

  abbrev t : Taker
  t = taker id side fixed_price

  abbrev pub after : OrderBook
  after = rest_order t (pos 1) b

  fresh : lookup id b.locations ≡ none
  fresh = v.later id (omega arith)

  room : b.node_pool.total_capacity + b.node_pool.chunk_size < 2 ^ 64
  room = omega (arith, v.growing, v.reserved, fits)

  pub placed : add_limit_order id side fixed_price (pos 1) b ≡ ok ([], after)
  placed =
      accepted id side fixed_price (pos 1) b refl fresh
      ∙ ap ok (
          execute_idle t (pos 1) b
            (subst (Prices (λ p. too_far side fixed_price p ≡ true)) (sym v.alone) tt) refl)

  index :
      after.locations
      ≡ (id, location side fixed_price (allocate node_layout b.node_pool).0) ∷ b.locations
  unfolding emplace
  index = rest_order_locations t (pos 1) b ∙ rw (fresh, emplace) refl

  pub after-Seeded : Seeded side (k + 1) after
  unfolding order_count lookup used_blocks
  after-Seeded =
      let (ts, c, e, w) =
        add_limit_order-IsConsistent id side fixed_price (pos 1) b v.consistent room refl fresh in
      let live = v.consistent.in_step.live in
      let chunk = (allocate_chunk node_layout b.node_pool).0 in
      let pool = rest_order_pool t (pos 1) b in
      let used = (order_count-used_blocks b v.consistent).1 in
      record {
        consistent = subst IsConsistent (same_book e placed) w;
        count = ap length index ∙ (let n = v.count in omega (arith, n));
        alone = rest_order-opposite t (pos 1) b ∙ v.alone;
        lots = subst Lots (sym (rest_order_own t (pos 1) b)) (
            put_level-Lots side _ (levels_of side b)
              (All-append IsLot _ _ (level_at-Lots fixed_price (levels_of side b) v.lots)
                (refl, tt))
              v.lots);
        later = λ j h.
            let other : (id == j) ≡ false = ground (arith, h) in
            rw (index, other) (v.later j (omega (arith, h)));
        zeroth = let other : (id == 0) ≡ false = ground arith in rw (index, other) v.zeroth;
        growing = ap (λ a. a.chunk_size) pool ∙ (chunk ∙ v.growing);
        reserved = rw pool (
            allocate_total node_layout b.node_pool live.free _ (k + 1 + 4096) live.pool room
              (omega (arith, v.reserved))
              (omega (arith, v.growing, v.count, used, live.pool.in_use)));
      }
