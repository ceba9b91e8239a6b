-- ===== src/LinkedBook.antt =====
-- OrderBook of include/exec_core/order_book.hpp and src/order_book.cpp with its linked nodes: a level
-- is a head and a tail, all nodes stand in one memory, and the operations call push_back, pop_front
-- and erase on the links. The side that the source writes twice is an argument. The loops are on
-- fuel, `none` where it runs out.
pub mod Stands
pub mod Inner
pub mod Outer
pub mod Puts
pub mod Represents
pub mod Rests
pub mod Fuel
pub mod Orders
pub mod Cancels
pub mod Queries
pub mod Reads
pub mod Reachable
mod Tests
use lowlatency_exec_core.Common.{
  ℕ, zero, suc, Bool, true, false, not, ◌&&◌, Option, none, some, List, [], ◌∷◌, ◌++◌, ◌==◌,
  if◌then◌else◌,
}
use lowlatency_exec_core.Common.Int.{◌-ℤ◌, min_ℤ}
use lowlatency_exec_core.Words.{inc64}
use lowlatency_exec_core.Types.{
  Side, buy, sell, OrderId, Price, Quantity, Sequence, RestingOrder, Trade,
}
use lowlatency_exec_core.Slab.{Ptr, SlabAllocator, null, construct}
use lowlatency_exec_core.Levels.{node_layout, find, put_level, erase_level}
use lowlatency_exec_core.Levels
use lowlatency_exec_core.Nodes.{
  Nodes, PriceLevel, OrderNode, write, push_back, pop_front, erase, sum_quantity, collect_ids,
}
use lowlatency_exec_core.Locations.{OrderLocation, Locations, lookup, forget, emplace}
use lowlatency_exec_core.Book.{
  Taker, Engine, Run, run_of, trade_of, is_positive, is_zero, too_far, next_event, opposite,
  is_some, Result, ok, invalid_quantity, duplicate_id, fault,
}

abbrev pub SideLevels : Type 0
SideLevels = List (Price × PriceLevel)

pub record OrderBook : Type 0 where
  pub bids : SideLevels
  pub asks : SideLevels
  pub nodes : Nodes
  pub locations : Locations
  pub node_pool : SlabAllocator
  pub next_sequence : Sequence

-- A book with no orders. The memory holds what it held.
unfoldable pub new_book : (capacity : ℕ) (brk : Ptr) → Nodes → OrderBook
unfolding construct
new_book capacity brk m = record {
  bids = [];
  asks = [];
  nodes = m;
  locations = [];
  node_pool = construct node_layout capacity brk;
  next_sequence = 0;
}

abbrev pub empty_level : PriceLevel
empty_level = record { head = null; tail = null }

-- The order that the node at `p` holds, and its address.
abbrev pub node_at : Nodes → Ptr → Levels.OrderNode
node_at m p = record { at = p; order = (m p).order }

-- `resting.quantity = q`, of the order in the node at `p`.
abbrev pub set_quantity : Ptr → Quantity → Nodes → Nodes
set_quantity p q m = write p (record (m p) { order = record ((m p).order) { quantity = q } }) m

-- The body of the inner loop: the level and the nodes are the variables beside the engine.
unfoldable pub fill_body : Taker → Price → Run (PriceLevel × Nodes) → Run (PriceLevel × Nodes)
unfolding min_ℤ ◌-ℤ◌ write inc64 forget pop_front
fill_body t level_price s =
    let (level, m) = s.rest in
    let resting = (m level.head).order in
    let traded = min_ℤ s.remaining resting.quantity in
    let trade = trade_of t level_price traded (node_at m level.head) s.engine.next_sequence in
    let left = s.remaining -ℤ traded in
    let kept = resting.quantity -ℤ traded in
    let m' = set_quantity level.head kept m in
    let e = next_event s.engine in
    let (level', m'', pool) = pop_front level m' e.node_pool in
    if is_zero kept
    then run_of (s.trades ++ trade ∷ []) left (level', m'')
        (record e { locations = forget resting.id e.locations; node_pool = pool })
    else run_of (s.trades ++ trade ∷ []) left (level, m') e

-- `remaining > 0 && level.head != nullptr`
abbrev pub goes_on : Run (PriceLevel × Nodes) → Bool
goes_on s = is_positive s.remaining && not (s.rest.0.head == null)

unfoldable pub fill_while :
    ℕ → Taker → Price → Run (PriceLevel × Nodes) → Option (Run (PriceLevel × Nodes))
unfolding fill_body
fill_while zero t p s = if goes_on s then none else some s
fill_while (suc fuel) t p s =
    let next = fill_while fuel t p (fill_body t p s) in if goes_on s then next else some s

-- The end of the outer loop's body: a level that has no head is erased.
abbrev pub after_fill : Price → SideLevels → Run (PriceLevel × Nodes) → Run (SideLevels × Nodes)
after_fill p ls f =
    let (level, m) = f.rest in
    run_of f.trades f.remaining ((if level.head == null then ls else (p, level) ∷ ls), m) f.engine

-- `while (remaining > 0 && !levels.empty())`, with its `break`
unfoldable pub sweep_while :
    ℕ → Taker → Run (SideLevels × Nodes) → Option (Run (SideLevels × Nodes))
unfolding fill_while
sweep_while zero t s = elim s.rest.0 [
  | [] ↦ some s
  | level ∷ ls ↦ if is_positive s.remaining then none else some s
]
sweep_while (suc fuel) t s = elim s.rest.0 [
  | [] ↦ some s
  | (p, level) ∷ ls ↦
      let next : Option (Run (SideLevels × Nodes)) =
        elim (fill_while fuel t p (run_of s.trades s.remaining (level, s.rest.1) s.engine)) [
          | none ↦ none
          | some f ↦ sweep_while fuel t (after_fill p ls f)
        ] in
      if is_positive s.remaining
      then (if too_far t.side t.price p then some s else next)
      else some s
]

abbrev pub levels_of : Side → OrderBook → SideLevels
levels_of buy b = b.bids
levels_of sell b = b.asks

abbrev pub with_levels : Side → SideLevels → OrderBook → OrderBook
with_levels buy ls b = record b { bids = ls }
with_levels sell ls b = record b { asks = ls }

abbrev pub engine_of : OrderBook → Engine
engine_of b = record {
  locations = b.locations;
  node_pool = b.node_pool;
  next_sequence = b.next_sequence;
}

-- The book after the loops of an incoming order.
unfoldable pub settle : Side → Run (SideLevels × Nodes) → OrderBook → OrderBook
settle side r b = with_levels (opposite side) r.rest.0 (record b {
  nodes = r.rest.1;
  locations = r.engine.locations;
  node_pool = r.engine.node_pool;
  next_sequence = r.engine.next_sequence;
})

-- `map::operator[]`, the level that it gives.
unfoldable pub level_at : Price → SideLevels → PriceLevel
unfolding find
level_at p ls = elim (find p ls) [ none ↦ empty_level | some l ↦ l ]

unfoldable pub rest_order : Taker → Quantity → OrderBook → OrderBook
unfolding inc64 level_at push_back put_level emplace
rest_order t remaining b =
    let order : RestingOrder = record {
      id = t.id;
      price = t.price;
      quantity = remaining;
      sequence = b.next_sequence;
    } in
    let (level, m, pool, node) =
      push_back (level_at t.price (levels_of t.side b)) order b.nodes b.node_pool in
    let location : OrderLocation = record { side = t.side; price = t.price; node = node } in
    with_levels t.side (put_level t.side t.price level (levels_of t.side b)) (record b {
      nodes = m;
      locations = emplace t.id location b.locations;
      node_pool = pool;
      next_sequence = inc64 b.next_sequence;
    })

-- The body of `add_limit_order` after its checks.
unfoldable pub execute : ℕ → Taker → Quantity → OrderBook → Option (List Trade × OrderBook)
unfolding sweep_while settle rest_order
execute fuel t quantity b =
    elim (sweep_while fuel t
      (run_of [] quantity (levels_of (opposite t.side) b, b.nodes) (engine_of b))) [
        | none ↦ none
        | some r ↦
            let settled = settle t.side r b in
            some (
              r.trades,
              if is_positive r.remaining then rest_order t r.remaining settled else settled,
            )
      ]

unfoldable pub add_limit_order :
    ℕ → OrderId → Side → Price → Quantity → OrderBook → Option (Result (List Trade × OrderBook))
unfolding lookup
add_limit_order fuel id side price quantity b =
    if not (is_positive quantity)
    then some invalid_quantity
    else if is_some (lookup id b.locations)
    then some duplicate_id
    else elim (execute fuel (record { id = id; side = side; price = price }) quantity b) [
      | none ↦ none
      | some r ↦ some (ok r)
    ]

-- The node of `loc` leaves its level, and the level its map where it has no head then.
unfoldable pub remove_node : OrderLocation → OrderBook → Result OrderBook
unfolding find erase erase_level put_level
remove_node loc b = elim (find loc.price (levels_of loc.side b)) [
  | none ↦ fault
  | some level ↦
      let (level', m, pool) = erase level loc.node b.nodes b.node_pool in
      ok (
        with_levels loc.side
          (if level'.head == null
            then erase_level loc.price (levels_of loc.side b)
            else put_level loc.side loc.price level' (levels_of loc.side b))
          (record b { nodes = m; node_pool = pool }))
]

unfoldable pub cancel_order : OrderId → OrderBook → Result (Bool × OrderBook)
unfolding lookup forget remove_node
cancel_order id b = elim (lookup id b.locations) [
  | none ↦ ok (false, b)
  | some loc ↦ elim (remove_node loc (record b { locations = forget id b.locations })) [
    | ok b' ↦ ok (true, b')
    | invalid_quantity ↦ invalid_quantity
    | duplicate_id ↦ duplicate_id
    | fault ↦ fault
  ]
]
