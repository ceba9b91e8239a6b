-- ===== src/Book/NumberTests.antt =====
-- The theorems on the numbers of trades and orders, on the range of `std::int64_t` and on the queries
-- together, at the book with two offers.
use lowlatency_exec_core.Common.{
  ◌≡◌, refl, true, some, none, [], ◌∷◌, List, Bool, ◌⊎◌, ◌+◌, ◌^◌, length, arith, false,
}
use lowlatency_exec_core.Common.Int.{pos, ltb_ℤ}
use lowlatency_exec_core.Types.{buy, Trade, sell}
use lowlatency_exec_core.Levels.{PriceLevel, sum_quantity}
use lowlatency_exec_core.Book.{
  OrderBook, ok, add_limit_order, cancel_order, engine_of, sweep, levels_of,
}
use lowlatency_exec_core.Book.Conservation.{traded}
use lowlatency_exec_core.Book.Tests.{offered, order, node, unknown}
use lowlatency_exec_core.Book.ReachTests.{offered-IsConsistent, buyer}
use lowlatency_exec_core.Book.Numbers.{Numbered}
use lowlatency_exec_core.Book.Seniority.{InOrder}
use lowlatency_exec_core.Book.Ordered.{add_limit_order-InOrder, cancel_order-InOrder}
use lowlatency_exec_core.Slab.{used_blocks}
use lowlatency_exec_core.Book.Agreement.{tracked}
use lowlatency_exec_core.Book.Queries.{
  best_bid, best_ask, bid_levels, ask_levels, quantity_at, order_count,
}
use lowlatency_exec_core.Book.Market.{crossed, first_of, IsLadder, ladder, total_at, queries_agree}
use lowlatency_exec_core.Book.Checked.{
  sweep_checked, sum_quantity_checked, depth_checked, quantity_at_checked, SideLots,
}
use lowlatency_exec_core.Book.Overflow.{
  sweep_checked-sweep, sum_quantity_checked-sum_quantity, in_range, lots,
}

offered-InOrder : InOrder offered
offered-InOrder = (tt, ((omega arith, (omega arith, tt), (omega arith, tt, tt)), tt))

add_limit_order-InOrder_example :
    (trades : List Trade) × (b' : OrderBook) × (add_limit_order 3 buy (pos 106) (pos 7) offered
      ≡ ok (trades, b'))
    × Numbered 2 trades
    × (((traded trades ≡ pos 7) × (b'.next_sequence ≡ 2 + length trades))
        ⊎ ((ltb_ℤ (traded trades) (pos 7) ≡ true) × (b'.next_sequence ≡ 2 + length trades + 1)))
    × InOrder b'
add_limit_order-InOrder_example =
    add_limit_order-InOrder 3 buy (pos 106) (pos 7) offered offered-InOrder (omega arith) refl
      unknown

cancel_order-InOrder_example :
    (found : Bool) × (b' : OrderBook) × (cancel_order 1 offered ≡ ok (found, b'))
    × (b'.next_sequence ≡ 2)
    × InOrder b'
cancel_order-InOrder_example = cancel_order-InOrder 1 offered offered-IsConsistent offered-InOrder

sweep_checked-sweep_example :
    (sweep_checked buyer (pos 7) offered.asks (engine_of offered)
      ≡ some (sweep buyer (pos 7) offered.asks (engine_of offered)))
    × SideLots (sweep buyer (pos 7) offered.asks (engine_of offered)).rest
sweep_checked-sweep_example =
    sweep_checked-sweep buyer (pos 7) offered.asks (engine_of offered) (refl, omega arith)
      (((refl, omega arith), ((refl, omega arith), tt)), tt)

queries_agree_example :
    (crossed (best_bid offered) (best_ask offered) ≡ false)
    × (best_bid offered ≡ first_of (bid_levels offered))
    × (best_ask offered ≡ first_of (ask_levels offered))
    × (depth_checked (levels_of sell offered) ≡ some (ladder sell offered))
    × IsLadder sell (ladder sell offered)
    × (quantity_at sell (pos 105) offered ≡ total_at (pos 105) (ladder sell offered))
    × (quantity_at_checked sell (pos 105) offered ≡ some (total_at (pos 105) (ladder sell offered)))
    × (order_count offered ≡ length (tracked offered))
    × (used_blocks offered.node_pool ≡ order_count offered)
queries_agree_example =
    queries_agree offered offered-IsConsistent tt (omega arith, tt) sell (pos 105)

-- Two orders of half the range each.
abbrev heavy : PriceLevel
heavy = node 1000 (order 1 105 (2 ^ 62) 0) ∷ node 1048 (order 2 105 (2 ^ 62) 1) ∷ []

sum_quantity_checked-sum_quantity_example :
    (sum_quantity heavy ≡ pos (lots heavy)) × (sum_quantity_checked heavy ≡ in_range (lots heavy))
sum_quantity_checked-sum_quantity_example =
    sum_quantity_checked-sum_quantity heavy ((refl, omega arith), ((refl, omega arith), tt))

too_heavy : in_range (lots heavy) ≡ none
too_heavy = refl
