-- ===== src/LinkedBook/Queries.antt =====
-- The queries of src/order_book.cpp and its destructor on linked nodes. The walks of a level are on
-- fuel, `none` where it runs out.
use lowlatency_exec_core.Common.{ℕ, Option, none, some, List, [], ◌∷◌, length}
use lowlatency_exec_core.Common.Int.{pos}
use lowlatency_exec_core.Types.{Side, OrderId, Price, Quantity}
use lowlatency_exec_core.Slab.{SlabAllocator}
use lowlatency_exec_core.Levels.{find}
use lowlatency_exec_core.Nodes.{Nodes, sum_quantity, collect_ids, destroy_level}
use lowlatency_exec_core.LinkedBook.{OrderBook, SideLevels, levels_of}

abbrev pub first_price : SideLevels → Option Price
first_price [] = none
first_price ((p, level) ∷ ls) = some p

unfoldable pub best_bid : OrderBook → Option Price
best_bid b = first_price b.bids

unfoldable pub best_ask : OrderBook → Option Price
best_ask b = first_price b.asks

unfoldable pub quantity_at : ℕ → Side → Price → OrderBook → Option Quantity
unfolding find sum_quantity
quantity_at fuel side price b = elim (find price (levels_of side b)) [
  | none ↦ some (pos 0)
  | some level ↦ sum_quantity fuel b.nodes level
]

unfoldable pub order_count : OrderBook → ℕ
order_count b = length b.locations

-- The loop of `bid_levels` and of `ask_levels`, with the entries that it adds.
unfoldable pub depth : ℕ → Nodes → SideLevels → Option (List (Price × Quantity))
unfolding sum_quantity
depth fuel m [] = some []
depth fuel m ((p, level) ∷ ls) = elim (sum_quantity fuel m level) [
  | none ↦ none
  | some total ↦ elim (depth fuel m ls) [ none ↦ none | some rest ↦ some ((p, total) ∷ rest) ]
]

unfoldable pub bid_levels : ℕ → OrderBook → Option (List (Price × Quantity))
unfolding depth
bid_levels fuel b = depth fuel b.nodes b.bids

unfoldable pub ask_levels : ℕ → OrderBook → Option (List (Price × Quantity))
unfolding depth
ask_levels fuel b = depth fuel b.nodes b.asks

unfoldable pub orders_at : ℕ → Side → Price → OrderBook → Option (List OrderId)
unfolding find collect_ids
orders_at fuel side price b = elim (find price (levels_of side b)) [
  | none ↦ some []
  | some level ↦ collect_ids fuel b.nodes level
]

-- A loop of the destructor over the levels of one side.
unfoldable pub destroy_levels : ℕ → Nodes → SideLevels → SlabAllocator → Option SlabAllocator
unfolding destroy_level
destroy_levels fuel m [] pool = some pool
destroy_levels fuel m ((p, level) ∷ ls) pool = elim (destroy_level fuel m level.head pool) [
  | none ↦ none
  | some pool' ↦ destroy_levels fuel m ls pool'
]

-- OrderBook::~OrderBook, up to the destructors of its members: the pool that it leaves.
unfoldable pub destroy : ℕ → OrderBook → Option SlabAllocator
unfolding destroy_levels
destroy fuel b = elim (destroy_levels fuel b.nodes b.bids b.node_pool) [
  | none ↦ none
  | some pool ↦ destroy_levels fuel b.nodes b.asks pool
]
