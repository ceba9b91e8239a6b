-- ===== src/LinkedBook/Orders.antt =====
-- `add_limit_order` on linked nodes against `Book`.
use lowlatency_exec_core.Common.{
  ◌≡◌, refl, ap, ◌∙◌, some, List, [], ◌++◌, ◌<◌, ◌*◌, length, ℕ, Bool-cases, Option-cases, Option,
  inl, inr, arith, if◌then◌else◌,
}
use lowlatency_exec_core.Types.{Side, buy, sell, OrderId, Price, Quantity, Trade}
use lowlatency_exec_core.Slab.Pool.{Distinct}
use lowlatency_exec_core.Levels.{Levels}
use lowlatency_exec_core.Nodes.{Nodes}
use lowlatency_exec_core.Locations.{lookup}
use lowlatency_exec_core.Book.{
  Taker, Run, Result, ok, invalid_quantity, duplicate_id, run_of, is_positive, is_some, levels_of,
  opposite, engine_of,
}
use lowlatency_exec_core.Book
use lowlatency_exec_core.Book.Sides.{taker, sweep_of, settled, settle_own}
use lowlatency_exec_core.Book.Invariant.{to_Sided}
use lowlatency_exec_core.Book.Untracked.{Distinct-parts}
use lowlatency_exec_core.Book.Tracked.{side_entries, Tracks}
use lowlatency_exec_core.Book.Index.{sweep-Follows}
use lowlatency_exec_core.Book.Agreement.{IsTracked, to_Facing, of_Facing, sweep-Kept}
use lowlatency_exec_core.Book.Consistent.{IsConsistent, HasRoom}
use lowlatency_exec_core.Book.Termination.{rounds, sweep_while-sweep}
use lowlatency_exec_core.LinkedBook
use lowlatency_exec_core.LinkedBook.{
  SideLevels, OrderBook, settle, rest_order, execute, sweep_while, add_limit_order,
}
use lowlatency_exec_core.LinkedBook.Stands.{
  Stands, places, Apart, Apart-sym, Distinct-Apart, Stands-Keeps,
}
use lowlatency_exec_core.LinkedBook.Fuel.{rounds-order_count}
use lowlatency_exec_core.LinkedBook.Outer.{sweep_while-Follows}
use lowlatency_exec_core.LinkedBook.Represents.{Represents, IsTracked-IsLive}
use lowlatency_exec_core.LinkedBook.Rests.{rest_order-keeps}

module _ (l : OrderBook) (b : Book.OrderBook) (v : Represents l b) where
  pub levels_of-Stands : (s : Side) → Stands l.nodes (LinkedBook.levels_of s l) (levels_of s b)
  levels_of-Stands buy = v.bids
  levels_of-Stands sell = v.asks

  settle-Represents :
      (s : Side) (c : Run Levels) (ks : SideLevels) (m : Nodes)
      → Stands m ks c.rest
      → Stands m (LinkedBook.levels_of s l) (levels_of s b)
      → Represents (settle s (run_of c.trades c.remaining (ks, m) c.engine) l) (Book.settle s c b)
  unfolding settle Book.settle
  settle-Represents buy c ks m other own = record {
    bids = own;
    asks = other;
    locations = refl;
    node_pool = refl;
    next_sequence = refl;
  }
  settle-Represents sell c ks m other own = record {
    bids = other;
    asks = own;
    locations = refl;
    node_pool = refl;
    next_sequence = refl;
  }

module _ (b : Book.OrderBook) (v : IsTracked b) where
  abbrev parts : Distinct (places b.bids) × Distinct (places b.asks)
  parts = Distinct-parts (places b.bids) (places b.asks) (IsTracked-IsLive b v).pool.distinct_used

  abbrev apart : Apart (places b.bids) (places b.asks)
  apart = Distinct-Apart (places b.bids) (places b.asks) (IsTracked-IsLive b v).pool.distinct_used

  pub side-Distinct : (s : Side) → Distinct (places (levels_of s b))
  side-Distinct buy = parts.0
  side-Distinct sell = parts.1

  pub sides-Apart : (s : Side) → Apart (places (levels_of s b)) (places (levels_of (opposite s) b))
  sides-Apart buy = apart
  sides-Apart sell = Apart-sym (places b.bids) (places b.asks) apart

settle-Facing :
    (s : Side) (c : Run Levels) (b : Book.OrderBook)
    → Tracks c.engine.locations c.engine.node_pool
        (side_entries (opposite s) c.rest ++ side_entries s (levels_of s b))
    → IsTracked (Book.settle s c b)
unfolding Book.settle
settle-Facing buy c b v = of_Facing buy (Book.settle buy c b) v
settle-Facing sell c b v = of_Facing sell (Book.settle sell c b) v

-- The book of the lists that the loops of an order leave.
module _ (t : Taker) (quantity : Quantity) (b : Book.OrderBook) (v : IsConsistent b) where
  settled-IsTracked : IsTracked (settled t quantity b)
  settled-IsTracked = settle-Facing t.side (sweep_of t quantity b) b (
      sweep-Follows (opposite t.side) t quantity (levels_of (opposite t.side) b) (engine_of b)
        (side_entries t.side (levels_of t.side b)) (to_Facing t.side b v.in_step))

  settled-HasRoom : HasRoom b → HasRoom (settled t quantity b)
  unfolding Book.settle
  settled-HasRoom room =
      let kept = sweep-Kept t.id t quantity (levels_of (opposite t.side) b) (engine_of b) in
      omega (arith, kept.room, room)

module _ (fuel : ℕ) (t : Taker) (quantity : Quantity) (l : OrderBook) (b : Book.OrderBook)
    (v : Represents l b) (c : IsConsistent b) (room : HasRoom b)
    (enough : rounds (levels_of (opposite t.side) b) < fuel) where
  -- The trades and the book that a run of the loops leads to.
  abbrev after_run : Run (SideLevels × Nodes) → List Trade × OrderBook
  after_run s =
      let settled = settle t.side s l in
      (s.trades, if is_positive s.remaining then rest_order t s.remaining settled else settled)

  engines : LinkedBook.engine_of l ≡ engine_of b
  engines = rw (v.locations, v.node_pool, v.next_sequence) refl

  execute_run :
      (s : Run (SideLevels × Nodes))
      → sweep_while fuel t (
          run_of [] quantity
            (LinkedBook.levels_of (opposite t.side) l, l.nodes)
            (LinkedBook.engine_of l))
        ≡ some s
      → execute fuel t quantity l ≡ some (after_run s)
  unfolding execute
  execute_run s ended = rw (ended, execute) refl

  pub execute-Represents :
      (l' : OrderBook) × (execute fuel t quantity l ≡ some ((Book.execute t quantity b).0, l'))
      × Represents l' (Book.execute t quantity b).1
  unfolding execute Book.execute
  execute-Represents =
      let r = sweep_of t quantity b in
      let ps = places (levels_of (opposite t.side) b) in
      let (s, ended, (ks, m, same, other, keeps, within)) =
        sweep_while-Follows t l.nodes ps fuel (LinkedBook.levels_of (opposite t.side) l) l.nodes []
          quantity (levels_of (opposite t.side) b) (engine_of b) r
          (levels_of-Stands l b v (opposite t.side)) (side-Distinct b c.in_step (opposite t.side))
          (λ q out. refl) (λ q inside. inside)
          (sweep_while-sweep fuel t quantity (levels_of (opposite t.side) b) (engine_of b)
            enough) in
      let own =
        Stands-Keeps l.nodes m ps (LinkedBook.levels_of t.side l) (levels_of t.side b)
          (sides-Apart b c.in_step t.side) keeps (levels_of-Stands l b v t.side) in
      let after = settle-Represents l b v t.side r ks m other own in
      let run = run_of r.trades r.remaining (ks, m) r.engine in
      (
        (after_run run).1,
        execute_run s (rw engines ended) ∙ ap (λ x. some (after_run x)) same,
        elim (Bool-cases (is_positive r.remaining)) [
          | inr done ↦ rw done after
          | inl more ↦ rw more (
              rest_order-keeps t r.remaining (settle t.side run l) (settled t quantity b) after
                (settled-IsTracked t quantity b c) (settled-HasRoom t quantity b c room)
                (rw (settle_own r b t.side) (to_Sided t.side c.formed).own_side.sorted))
        ],
      )

-- What `add_limit_order` gives on the links and on the lists: the same refusal, or the same trades
-- and a book that the other one represents.
abbrev pub Agrees :
    {A : Type 0} → Option (Result (A × OrderBook)) → Result (A × Book.OrderBook) → Type 0
Agrees (some (ok (x, l))) (ok (y, b)) = (x ≡ y) × Represents l b
Agrees (some invalid_quantity) invalid_quantity = Unit
Agrees (some duplicate_id) duplicate_id = Unit
Agrees r s = ⊥

-- On a linked book that represents a consistent book of lists, with room for one more chunk in the
-- pool's counter and more fuel than three rounds for each order of the book, add_limit_order ends:
-- it refuses the quantity or the id where the lists do, and otherwise makes the same trades and
-- leaves a linked book that represents the one that the lists leave.
pub add_limit_order-Represents :
    (fuel : ℕ) (id : OrderId) (side : Side) (price : Price) (quantity : Quantity) (l : OrderBook)
    (b : Book.OrderBook)
    → Represents l b
    → IsConsistent b
    → HasRoom b
    → 3 * length l.locations < fuel
    → Agrees
        (add_limit_order fuel id side price quantity l)
        (Book.add_limit_order id side price quantity b)
unfolding add_limit_order Book.add_limit_order
add_limit_order-Represents fuel id side price quantity l b v c room enough =
    elim (Bool-cases (is_positive quantity)) [
      | inr bad ↦ rw bad tt
      | inl good ↦ elim (Option-cases (lookup id b.locations)) [
        | inr (loc, known) ↦ rw (good, ap (lookup id) v.locations ∙ known, known) tt
        | inl fresh ↦
            let (l', ran, after) =
              execute-Represents fuel (taker id side price) quantity l b v c room (
                let most = rounds-order_count b c (opposite side) in
                let same = ap length v.locations in omega (arith, most, same, enough)) in
            rw (good, ap (lookup id) v.locations ∙ fresh, fresh, ran) (refl, after)
      ]
    ]
