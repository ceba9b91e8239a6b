-- ===== src/Book/Queries.antt =====
-- The queries of the order book: best prices, quantities, levels and orders at a price.
use lowlatency_exec_core.Common.{ℕ, Option, none, some, List, [], ◌∷◌, length}
use lowlatency_exec_core.Common.Int.{pos}
use lowlatency_exec_core.Types.{Side, OrderId, Price, Quantity}
use lowlatency_exec_core.Levels.{Levels, find, sum_quantity, collect_ids}
use lowlatency_exec_core.Book.{OrderBook, levels_of}

abbrev pub first_price : Levels → Option Price
first_price [] = none
first_price ((p, level) ∷ ls) = some p

unfoldable pub best_bid : OrderBook → Option Price
best_bid b = first_price b.bids

unfoldable pub best_ask : OrderBook → Option Price
best_ask b = first_price b.asks

unfoldable pub quantity_at : Side → Price → OrderBook → Quantity
unfolding find sum_quantity
quantity_at side price b = elim (find price (levels_of side b)) [
  | none ↦ pos 0
  | some level ↦ sum_quantity level
]

unfoldable pub order_count : OrderBook → ℕ
order_count b = length b.locations

unfoldable pub depth : Levels → List (Price × Quantity)
unfolding sum_quantity
depth [] = []
depth ((p, level) ∷ ls) = (p, sum_quantity level) ∷ depth ls

unfoldable pub bid_levels : OrderBook → List (Price × Quantity)
unfolding depth
bid_levels b = depth b.bids

unfoldable pub ask_levels : OrderBook → List (Price × Quantity)
unfolding depth
ask_levels b = depth b.asks

unfoldable pub orders_at : Side → Price → OrderBook → List OrderId
unfolding find collect_ids
orders_at side price b = elim (find price (levels_of side b)) [
  | none ↦ []
  | some level ↦ collect_ids level
]
