-- ===== src/Book/Ordered.antt =====
-- The numbers of trades and orders, through an accepted order and a cancellation.
use lowlatency_exec_core.Slab.{Ptr}
use lowlatency_exec_core.Book.Tests.{unknown}
use lowlatency_exec_core.Book.Untracked.{without}
use lowlatency_exec_core.Book.Consistent.{IsConsistent, Cancellable, cancellable}
use lowlatency_exec_core.Book.Cancel.{cancelled, cancel_known, cancel_unknown, forgotten, Located}
use lowlatency_exec_core.Book.Tracked.{location}
use lowlatency_exec_core.Nodes.Tests.{level}
use lowlatency_exec_core.Common.{
  ℕ, ◌≡◌, refl, ap, ◌∙◌, true, false, some, none, List, length, ◌+◌, ◌<◌, ◌≤◌, ◌^◌, arith,
  Bool-cases, Option-cases, inl, inr, ◌⊎◌, Bool,
}
use lowlatency_exec_core.Common.Int.{ltb_ℤ}
use lowlatency_exec_core.Words.{inc64, inc64_small}
use lowlatency_exec_core.Types.{Side, buy, sell, OrderId, Price, Quantity, Trade}
use lowlatency_exec_core.Levels.{PriceLevel, Levels, level_at, is_empty, unlink, find}
use lowlatency_exec_core.Locations.{lookup}
use lowlatency_exec_core.Book.{
  OrderBook, Taker, is_positive, opposite, levels_of, with_levels, engine_of, settle, rest_order,
  execute, add_limit_order, cancel_order, ok,
}
use lowlatency_exec_core.Book.Valid.{All-put_level, All-find, All-erase_level}
use lowlatency_exec_core.Book.Sides.{
  taker, accepted, sweep_of, settled, execute_trades, execute-opposite, execute_own_filled,
  execute_own_rested, rested,
}
use lowlatency_exec_core.Book.Consistent.{IsConsistent, Cancellable, cancellable}
use lowlatency_exec_core.Book.Conservation.{traded}
use lowlatency_exec_core.Book.Arrival.{taken_cases}
use lowlatency_exec_core.Book.Numbers.{Numbered, orders, sweep-Counts, Counts}
use lowlatency_exec_core.Book.Seniority.{
  IsSenior, SideSenior, InOrder, SideSenior-weaken, IsSenior-snoc, sweep-SideSenior,
  level_at-IsSenior, unlink-IsSenior,
}

InOrder-levels_of :
    (s : Side) (b : OrderBook) → InOrder b → SideSenior b.next_sequence (levels_of s b)
InOrder-levels_of buy b v = v.0
InOrder-levels_of sell b v = v.1

InOrder-sides :
    (s : Side) (b : OrderBook)
    → SideSenior b.next_sequence (levels_of s b)
    → SideSenior b.next_sequence (levels_of (opposite s) b)
    → InOrder b
InOrder-sides buy b own other = (own, other)
InOrder-sides sell b own other = (other, own)

with_levels_next :
    (s : Side) (ls : Levels) (b : OrderBook) → (with_levels s ls b).next_sequence ≡ b.next_sequence
with_levels_next buy ls b = refl
with_levels_next sell ls b = refl

rest_order_next :
    (t : Taker) (r : Quantity) (b : OrderBook)
    → (rest_order t r b).next_sequence ≡ inc64 b.next_sequence
unfolding rest_order
rest_order_next t r b = with_levels_next t.side _ _

module _ (t : Taker) (quantity : Quantity) (b : OrderBook)
    (room : b.next_sequence + orders (levels_of (opposite t.side) b) + 1 < 2 ^ 64)
    (v : InOrder b) where
  abbrev counts :
      Counts
        (orders (levels_of (opposite t.side) b))
        (engine_of b)
        (sweep_of t quantity b).engine
        (sweep_of t quantity b).trades
  counts =
      sweep-Counts t quantity (levels_of (opposite t.side) b) (engine_of b) (omega (arith, room))

  -- The number of the next event once the loops have ended.
  abbrev after : ℕ
  after = (sweep_of t quantity b).engine.next_sequence

  grows : b.next_sequence ≤ after
  grows = omega (arith, counts.counted)

  settled_next : (settled t quantity b).next_sequence ≡ after
  unfolding settle
  settled_next = refl

  filled_next :
      is_positive (sweep_of t quantity b).remaining ≡ false
      → (execute t quantity b).1.next_sequence ≡ after
  unfolding execute
  filled_next done = rw done settled_next

  rested_next :
      is_positive (sweep_of t quantity b).remaining ≡ true
      → (execute t quantity b).1.next_sequence ≡ after + 1
  unfolding execute
  rested_next more = rw more (
      rest_order_next t (sweep_of t quantity b).remaining (settled t quantity b)
      ∙ (ap inc64 settled_next
          ∙ inc64_small after (omega (arith, counts.counted, counts.few, room))))

  other : SideSenior after (levels_of (opposite t.side) (execute t quantity b).1)
  other = rw (execute-opposite t quantity b) (
      sweep-SideSenior after t quantity (levels_of (opposite t.side) b) (engine_of b) (
        SideSenior-weaken b.next_sequence after (levels_of (opposite t.side) b) grows
          (InOrder-levels_of (opposite t.side) b v)))

  own : SideSenior after (levels_of t.side b)
  own =
      SideSenior-weaken b.next_sequence after (levels_of t.side b) grows
        (InOrder-levels_of t.side b v)

  own_rested :
      is_positive (sweep_of t quantity b).remaining ≡ true
      → SideSenior (after + 1) (levels_of t.side (execute t quantity b).1)
  own_rested more =
      let level = level_at t.price (levels_of t.side b) in
      rw (execute_own_rested t quantity b more) (
        All-put_level t.side t.price _ (λ entry. IsSenior (after + 1) entry.1) (levels_of t.side b)
          (IsSenior-snoc after level
            (rested t (sweep_of t quantity b).remaining (settled t quantity b)) settled_next
            (level_at-IsSenior after t.price (levels_of t.side b) own))
          (SideSenior-weaken after (after + 1) (levels_of t.side b) (omega arith) own))

  execute-InOrder : InOrder (execute t quantity b).1
  execute-InOrder = elim (Bool-cases (is_positive (sweep_of t quantity b).remaining)) [
    | inr done ↦
        let at = filled_next done in
        InOrder-sides t.side (execute t quantity b).1
          (rw (at, execute_own_filled t quantity b done) own) (rw at other)
    | inl more ↦
        let at = rested_next more in
        InOrder-sides t.side (execute t quantity b).1 (rw at (own_rested more)) (
          rw at (
            SideSenior-weaken after (after + 1)
              (levels_of (opposite t.side) (execute t quantity b).1) (omega arith) other))
  ]

  numbers :
      is_positive quantity ≡ true
      → ((traded (execute t quantity b).0 ≡ quantity)
          × ((execute t quantity b).1.next_sequence
              ≡ b.next_sequence + length (execute t quantity b).0))
        ⊎ ((ltb_ℤ (traded (execute t quantity b).0) quantity ≡ true)
            × ((execute t quantity b).1.next_sequence
                ≡ b.next_sequence + length (execute t quantity b).0 + 1))
  numbers good = elim (taken_cases t quantity b good) [
    | inl (whole, done) ↦
        inl (whole, filled_next done ∙ rw (execute_trades t quantity b) counts.counted)
    | inr (part, more) ↦
        inr (part, rested_next more ∙ rw (execute_trades t quantity b, counts.counted) refl)
  ]

-- Over a book whose levels stand in order of arrival, each order's sequence below those behind it
-- and all below the next one, and with next_sequence_ at least one plus the number of orders on the
-- other side away from the wrap at 2 ^ 64: an order with a positive quantity and an id that the
-- book does not track is accepted, its trades have the numbers from next_sequence_ on one after the
-- other, the counter moves by one for each trade and one more exactly where the trades take less
-- than the quantity, and all levels of the book that is left stand in order of arrival.
pub add_limit_order-InOrder :
    (id : OrderId) (side : Side) (price : Price) (quantity : Quantity) (b : OrderBook)
    → InOrder b
    → b.next_sequence + orders (levels_of (opposite side) b) + 1 < 2 ^ 64
    → is_positive quantity ≡ true
    → lookup id b.locations ≡ none
    → (trades : List Trade) × (b' : OrderBook) × (add_limit_order id side price quantity b
        ≡ ok (trades, b'))
      × Numbered b.next_sequence trades
      × (((traded trades ≡ quantity) × (b'.next_sequence ≡ b.next_sequence + length trades))
          ⊎ ((ltb_ℤ (traded trades) quantity ≡ true)
              × (b'.next_sequence ≡ b.next_sequence + length trades + 1)))
      × InOrder b'
add_limit_order-InOrder id side price quantity b v room good fresh =
    let t = taker id side price in
    (
      (execute t quantity b).0,
      (execute t quantity b).1,
      accepted id side price quantity b good fresh,
      rw (execute_trades t quantity b) (counts t quantity b room v).numbered,
      numbers t quantity b room v good,
      execute-InOrder t quantity b room v,
    )

module _ (id : OrderId) (b : OrderBook) (v : InOrder b) where
  without-SideSenior :
      (s : Side) (p : Price) (at : Ptr) (level rest : PriceLevel) (ls : Levels)
      → find p ls ≡ some level
      → unlink at level ≡ some rest
      → SideSenior b.next_sequence ls
      → SideSenior b.next_sequence (without s p rest ls)
  without-SideSenior s p at level rest ls found out w =
      let IsFine = λ (entry : Price × PriceLevel). IsSenior b.next_sequence entry.1 in
      elim (Bool-cases (is_empty rest)) [
        | inl last ↦ rw last (All-erase_level IsFine p ls w)
        | inr more ↦ rw more (
            All-put_level s p rest IsFine ls
              (unlink-IsSenior b.next_sequence at level rest out (All-find IsFine p ls found w)) w)
      ]

  cancelled-InOrder :
      (s : Side) (p : Price) (at : Ptr) (level rest : PriceLevel)
      → Located (location s p at) (forgotten id b) level rest
      → InOrder (cancelled id b (location s p at) rest)
  cancelled-InOrder buy p at level rest (found, out) =
      (without-SideSenior buy p at level rest b.bids found out v.0, v.1)
  cancelled-InOrder sell p at level rest (found, out) =
      (v.0, without-SideSenior sell p at level rest b.asks found out v.1)

-- In a consistent book whose levels stand in order of arrival, each order's sequence below those
-- behind it and all below the next one, cancel_order returns, leaves the counter as it was, and
-- leaves a book whose levels stand in order of arrival.
pub cancel_order-InOrder :
    (id : OrderId) (b : OrderBook)
    → IsConsistent b
    → InOrder b
    → (found : Bool) × (b' : OrderBook) × (cancel_order id b ≡ ok (found, b'))
      × (b'.next_sequence ≡ b.next_sequence)
      × InOrder b'
unfolding Cancellable
cancel_order-InOrder id b c v = elim (Option-cases (lookup id b.locations)) [
  | inl unknown ↦ (false, b, cancel_unknown id b unknown, refl, v)
  | inr (loc, known) ↦
      let (level, rest, there, perm) = cancellable b id c loc known in
      (
        true,
        cancelled id b loc rest,
        cancel_known id b loc rest known there,
        with_levels_next loc.side _ _,
        cancelled-InOrder id b v loc.side loc.price loc.node level rest there,
      )
]
