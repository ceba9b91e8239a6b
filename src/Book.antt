-- ===== src/Book.antt =====
-- OrderBook of include/exec_core/order_book.hpp and src/order_book.cpp: the state, the two matching
-- loops, and the operations that change it. The source writes the loops once for each side; here
-- the side is an argument. Exceptions are results; `fault` is a dereference of `end()` or of a node
-- that its level does not hold.
pub mod Queries
pub mod Tracked
pub mod Resting
pub mod Agreement
pub mod Executed
pub mod Untracked
pub mod Removable
pub mod Consistent
pub mod Reachable
pub mod Restored
pub mod RoundTrip
pub mod Destroy
pub mod Queues
pub mod Withdrawal
pub mod Index
pub mod Valid
pub mod Loops
pub mod While
pub mod Termination
pub mod Sides
pub mod Priority
pub mod Conservation
pub mod Matching
pub mod Cancel
pub mod Invariant
pub mod Removal
pub mod Lookup
pub mod Lots
pub mod Arrival
pub mod Numbers
pub mod Seniority
pub mod Ordered
pub mod Checked
pub mod Overflow
pub mod Market
pub mod Depth
pub mod NumberTests
pub mod Tests
pub mod ReachTests
use lowlatency_exec_core.Common.{
  ℕ, Bool, true, false, not, ◌&&◌, Option, none, some, List, [], ◌∷◌, ◌++◌, length, if◌then◌else◌,
}
use lowlatency_exec_core.Common.Int.{pos, ◌-ℤ◌, min_ℤ, ltb_ℤ, leb_ℤ}
use lowlatency_exec_core.Words.{inc64}
use lowlatency_exec_core.Types.{
  Side, buy, sell, OrderId, Price, Quantity, Sequence, RestingOrder, Trade,
}
use lowlatency_exec_core.Slab.{Ptr, SlabAllocator, construct}
use lowlatency_exec_core.Levels.{
  OrderNode, PriceLevel, Levels, node_layout, find, is_empty, level_at, put_level, erase_level,
  push_back, pop_front, erase, sum_quantity, collect_ids,
}
use lowlatency_exec_core.Locations.{OrderLocation, Locations, lookup, forget, emplace}

pub record OrderBook : Type 0 where
  pub bids : Levels
  pub asks : Levels
  pub locations : Locations
  pub node_pool : SlabAllocator
  pub next_sequence : Sequence

-- `SlabAllocator::kDefaultInitialCapacity`
abbrev pub default_initial_capacity : ℕ
default_initial_capacity = 4096

-- A book with no orders, over a pool of `capacity` blocks from the address `brk` on.
unfoldable pub new_book : (capacity : ℕ) (brk : Ptr) → OrderBook
unfolding construct
new_book capacity brk = record {
  bids = [];
  asks = [];
  locations = [];
  node_pool = construct node_layout capacity brk;
  next_sequence = 0;
}

pub data Result {ℓ} (A : Type ℓ) : Type ℓ where
  ok : A → Result A
  invalid_quantity : Result A
  duplicate_id : Result A
  fault : Result A

-- The incoming order, as the loops read it.
pub record Taker : Type 0 where
  pub id : OrderId
  pub side : Side
  pub price : Price

-- What both loops change beside the levels.
pub record Engine : Type 0 where
  pub locations : Locations
  pub node_pool : SlabAllocator
  pub next_sequence : Sequence

-- What a loop leaves: the trades that it made, oldest first, and its variables.
pub record Run (L : Type 0) : Type 0 where
  pub trades : List Trade
  pub remaining : Quantity
  pub rest : L
  pub engine : Engine

abbrev pub run_of : {L : Type 0} → List Trade → Quantity → L → Engine → Run L
run_of trades remaining rest engine = record {
  trades = trades;
  remaining = remaining;
  rest = rest;
  engine = engine;
}

abbrev pub before_run : {L : Type 0} → List Trade → Run L → Run L
before_run trades r = record r { trades = trades ++ r.trades }

abbrev pub is_positive : Quantity → Bool
is_positive q = ltb_ℤ (pos 0) q

abbrev pub is_zero : Quantity → Bool
is_zero q = leb_ℤ q (pos 0) && leb_ℤ (pos 0) q

-- The trade of `traded` lots against `n`, at the price of its level.
abbrev pub trade_of : Taker → Price → Quantity → OrderNode → Sequence → Trade
trade_of t level_price traded n sequence = record {
  aggressor_order_id = t.id;
  resting_order_id = n.order.id;
  aggressor_side = t.side;
  price = level_price;
  quantity = traded;
  sequence = sequence;
}

abbrev pub with_quantity : OrderNode → Quantity → OrderNode
with_quantity n q = record n { order = record (n.order) { quantity = q } }

-- `next_sequence_++`
abbrev pub next_event : Engine → Engine
next_event e = record e { next_sequence = inc64 e.next_sequence }

-- `locations_.erase(resting.id); pop_front(level);`, for the head `n`.
unfoldable pub retire : OrderNode → PriceLevel → Engine → PriceLevel × Engine
unfolding forget pop_front
retire n ns e =
    let (level, pool) = pop_front n ns e.node_pool in
    (level, record e { locations = forget n.order.id e.locations; node_pool = pool })

-- The inner `while (remaining > 0 && level.head != nullptr)`. A head that is not used up has taken
-- all of `remaining`, so the loop's test fails next (`Book.Termination`).
unfoldable pub fill_level : Taker → Price → Quantity → PriceLevel → Engine → Run PriceLevel
unfolding min_ℤ ◌-ℤ◌ retire inc64
fill_level t level_price remaining [] e = run_of [] remaining [] e
fill_level t level_price remaining (n ∷ ns) e =
    let traded = min_ℤ remaining n.order.quantity in
    let trade = trade_of t level_price traded n e.next_sequence ∷ [] in
    let left = remaining -ℤ traded in
    let kept = n.order.quantity -ℤ traded in
    let next = fill_level t level_price left ns (retire n ns (next_event e)).1 in
    if is_positive remaining
    then (if is_zero kept
        then before_run trade next
        else run_of trade left (with_quantity n kept ∷ ns) (next_event e))
    else run_of [] remaining (n ∷ ns) e

-- `level_price > price` for a buy, `level_price < price` for a sell.
abbrev pub too_far : Side → Price → Price → Bool
too_far buy price level_price = ltb_ℤ price level_price
too_far sell price level_price = ltb_ℤ level_price price

-- The outer `while (remaining > 0 && !levels.empty())`, over the levels of the other side. A level
-- that keeps its head has taken all of `remaining`, as above.
unfoldable pub sweep : Taker → Quantity → Levels → Engine → Run Levels
unfolding fill_level
sweep t remaining [] e = run_of [] remaining [] e
sweep t remaining ((level_price, level) ∷ ls) e =
    let filled = fill_level t level_price remaining level e in
    let next = sweep t filled.remaining ls filled.engine in
    if is_positive remaining
    then (if too_far t.side t.price level_price
        then run_of [] remaining ((level_price, level) ∷ ls) e
        else if is_empty filled.rest
        then before_run filled.trades next
        else run_of filled.trades filled.remaining ((level_price, filled.rest) ∷ ls) filled.engine)
    else run_of [] remaining ((level_price, level) ∷ ls) e

abbrev pub opposite : Side → Side
opposite buy = sell
opposite sell = buy

abbrev pub levels_of : Side → OrderBook → Levels
levels_of buy b = b.bids
levels_of sell b = b.asks

abbrev pub with_levels : Side → Levels → OrderBook → OrderBook
with_levels buy ls b = record b { bids = ls }
with_levels sell ls b = record b { asks = ls }

abbrev pub engine_of : OrderBook → Engine
engine_of b = record {
  locations = b.locations;
  node_pool = b.node_pool;
  next_sequence = b.next_sequence;
}

abbrev pub with_engine : Engine → OrderBook → OrderBook
with_engine e b = record b {
  locations = e.locations;
  node_pool = e.node_pool;
  next_sequence = e.next_sequence;
}

-- The book after the loops of an incoming order.
unfoldable pub settle : Side → Run Levels → OrderBook → OrderBook
settle side r b = with_engine r.engine (with_levels (opposite side) r.rest b)

-- The remainder rests at `price` on its own side, behind the orders that are there.
unfoldable pub rest_order : Taker → Quantity → OrderBook → OrderBook
unfolding inc64 level_at push_back put_level emplace
rest_order t remaining b =
    let order : RestingOrder = record {
      id = t.id;
      price = t.price;
      quantity = remaining;
      sequence = b.next_sequence;
    } in
    let (level, node, pool) = push_back (level_at t.price (levels_of t.side b)) order b.node_pool in
    let location : OrderLocation = record { side = t.side; price = t.price; node = node } in
    with_levels t.side (put_level t.side t.price level (levels_of t.side b)) (record b {
      locations = emplace t.id location b.locations;
      node_pool = pool;
      next_sequence = inc64 b.next_sequence;
    })

abbrev pub is_some {ℓ} : {A : Type ℓ} → Option A → Bool
is_some none = false
is_some (some a) = true

-- The body of `add_limit_order` after its checks.
unfoldable pub execute : Taker → Quantity → OrderBook → List Trade × OrderBook
unfolding sweep settle rest_order
execute t quantity b =
    let r = sweep t quantity (levels_of (opposite t.side) b) (engine_of b) in
    let settled = settle t.side r b in
    (r.trades, if is_positive r.remaining then rest_order t r.remaining settled else settled)

unfoldable pub add_limit_order :
    OrderId → Side → Price → Quantity → OrderBook → Result (List Trade × OrderBook)
unfolding lookup execute
add_limit_order id side price quantity b =
    if not (is_positive quantity)
    then invalid_quantity
    else if is_some (lookup id b.locations)
    then duplicate_id
    else ok (execute (record { id = id; side = side; price = price }) quantity b)

-- The node of `loc` leaves its level, and the level its map where that was the last node.
unfoldable pub remove_node : OrderLocation → OrderBook → Result OrderBook
remove_node loc b = elim (find loc.price (levels_of loc.side b)) [
  | none ↦ fault
  | some level ↦ elim (erase level loc.node b.node_pool) [
    | none ↦ fault
    | some (rest, pool) ↦ ok (
        with_levels loc.side
          (if is_empty rest
            then erase_level loc.price (levels_of loc.side b)
            else put_level loc.side loc.price rest (levels_of loc.side b))
          (record b { node_pool = pool }))
  ]
]

unfoldable pub cancel_order : OrderId → OrderBook → Result (Bool × OrderBook)
cancel_order id b = elim (lookup id b.locations) [
  | none ↦ ok (false, b)
  | some loc ↦ elim (remove_node loc (record b { locations = forget id b.locations })) [
    | ok b' ↦ ok (true, b')
    | invalid_quantity ↦ invalid_quantity
    | duplicate_id ↦ duplicate_id
    | fault ↦ fault
  ]
]
