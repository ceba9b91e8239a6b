-- ===== src/LinkedBook/Tests.antt =====
-- The theorems on linked books, at the book with two offers and from a new book on.
use lowlatency_exec_core.Common.{true, false, ◌≡◌, refl, some, [], ◌∷◌, arith, List, Bool, Option}
use lowlatency_exec_core.Common.Int.{pos}
use lowlatency_exec_core.Words.{add64}
use lowlatency_exec_core.Types.{buy, sell, Trade, OrderId, Quantity}
use lowlatency_exec_core.Slab.{block_size}
use lowlatency_exec_core.Locations.{lookup}
use lowlatency_exec_core.Nodes.Tests.{memory, level, two_nodes-IsQueue}
use lowlatency_exec_core.Book.{Result, ok}
use lowlatency_exec_core.Book
use lowlatency_exec_core.Book.Queries
use lowlatency_exec_core.Book.Destroy
use lowlatency_exec_core.Book.Tests.{offered, result_of}
use lowlatency_exec_core.Book.ReachTests.{offered-IsConsistent}
use lowlatency_exec_core.Book.Consistent.{IsConsistent}
use lowlatency_exec_core.Book.Reachable
use lowlatency_exec_core.LinkedBook.{OrderBook, new_book, add_limit_order, cancel_order}
use lowlatency_exec_core.LinkedBook
use lowlatency_exec_core.LinkedBook.Queries.{
  quantity_at, orders_at, bid_levels, ask_levels, best_bid, best_ask, order_count, destroy,
}
use lowlatency_exec_core.LinkedBook.Represents.{Represents, linked_of}
use lowlatency_exec_core.LinkedBook.Orders.{Agrees, add_limit_order-Represents}
use lowlatency_exec_core.LinkedBook.Cancels.{cancel_order-Represents}
use lowlatency_exec_core.LinkedBook.Reads.{queries-Represents}
use lowlatency_exec_core.LinkedBook.Reachable.{
  Reach, opened, submitted, withdrawn, Reach-Represents,
}

abbrev linked : OrderBook
linked = linked_of [] ((pos 105, level) ∷ []) memory offered

linked-Represents : Represents linked offered
linked-Represents = record {
  bids = tt;
  asks = (refl, two_nodes-IsQueue, tt);
  locations = refl;
  node_pool = refl;
  next_sequence = refl;
}

add_limit_order-Represents_example :
    Agrees
      (add_limit_order 7 3 buy (pos 106) (pos 7) linked)
      (Book.add_limit_order 3 buy (pos 106) (pos 7) offered)
add_limit_order-Represents_example =
    add_limit_order-Represents 7 3 buy (pos 106) (pos 7) linked offered linked-Represents
      offered-IsConsistent (omega arith) (omega arith)

cancel_order-Represents_example :
    Agrees (some (cancel_order 1 linked)) (Book.cancel_order 1 offered)
cancel_order-Represents_example =
    cancel_order-Represents 1 linked offered linked-Represents offered-IsConsistent

queries-Represents_example :
    (best_bid linked ≡ Queries.best_bid offered)
    × (best_ask linked ≡ Queries.best_ask offered)
    × (order_count linked ≡ Queries.order_count offered)
    × (quantity_at 3 sell (pos 105) linked ≡ some (Queries.quantity_at sell (pos 105) offered))
    × (orders_at 3 sell (pos 105) linked ≡ some (Queries.orders_at sell (pos 105) offered))
    × (bid_levels 3 linked ≡ some (Queries.bid_levels offered))
    × (ask_levels 3 linked ≡ some (Queries.ask_levels offered))
    × (destroy 3 linked ≡ some (Destroy.destroy offered))
queries-Represents_example =
    queries-Represents 3 linked offered linked-Represents offered-IsConsistent (omega arith) sell
      (pos 105)

-- An order for seven lots takes the first offer and two lots of the second.
abbrev trades_of : Option (Result (List Trade × OrderBook)) → List (OrderId × Quantity)
trades_of (some (ok (trade ∷ trade' ∷ [], l))) =
    (trade.resting_order_id, trade.quantity) ∷ (trade'.resting_order_id, trade'.quantity) ∷ []
trades_of r = []

seven_lots :
    trades_of (add_limit_order 7 3 buy (pos 106) (pos 7) linked) ≡ (1, pos 5) ∷ (2, pos 2) ∷ []
unfolding add_limit_order LinkedBook.execute lookup
seven_lots = refl

-- A new book, an offer, and its cancellation.
abbrev one_offer : Option (Result (List Trade × OrderBook)) → OrderBook
one_offer (some (ok (trades, l))) = l
one_offer r = new_book 4 1000 memory

abbrev offer : OrderBook
unfolding new_book add_limit_order LinkedBook.execute block_size lookup
offer = one_offer (add_limit_order 1 1 sell (pos 105) (pos 5) (new_book 4 1000 memory))

abbrev no_offer : Bool × OrderBook
unfolding new_book add_limit_order LinkedBook.execute block_size lookup cancel_order
no_offer = result_of (cancel_order 1 offer) (false, offer)

no_offer-Reach : Reach 4 1000 no_offer.1
unfolding new_book add_limit_order LinkedBook.execute block_size lookup cancel_order add64
no_offer-Reach =
    withdrawn 1 true
      (submitted 1 1 sell (pos 105) (pos 5) [] (opened memory) (omega arith) (omega arith) refl)
      refl

Reach-Represents_example :
    (b : Book.OrderBook) × Reachable.Reach 4 1000 b × Represents no_offer.1 b × IsConsistent b
Reach-Represents_example = Reach-Represents (omega arith) (omega arith) no_offer-Reach
