-- ===== src/Book/Tests.antt =====
-- The run of src/main.cpp, and the theorems of the book at a concrete book.
use lowlatency_exec_core.Book.Arrival.{add_limit_order-orders_at}
use lowlatency_exec_core.Book.Lots.{add_limit_order-resting}
use lowlatency_exec_core.Book.Conservation.{traded, resting}
use lowlatency_exec_core.Common.{
  ◌≡◌, refl, true, false, none, [], ◌∷◌, List, ◌++◌, ℕ, map, if◌then◌else◌, ◌==◌, Bool, ◌⊎◌, some,
}
use lowlatency_exec_core.Common.Int.{pos, ◌+ℤ◌, ltb_ℤ}
use lowlatency_exec_core.Types.{buy, sell, Trade, RestingOrder}
use lowlatency_exec_core.Slab.{SlabAllocator}
use lowlatency_exec_core.Levels.{OrderNode, find, erase}
use lowlatency_exec_core.Locations.{lookup, forget, OrderLocation}
use lowlatency_exec_core.Book.{
  OrderBook, remove_node, Result, ok, invalid_quantity, duplicate_id, add_limit_order, cancel_order,
  is_positive,
}
use lowlatency_exec_core.Book.Queries.{orders_at, order_count}
use lowlatency_exec_core.Book.Priority.{add_limit_order-greedy, greedy, queue, fill_of}
use lowlatency_exec_core.Book.Invariant.{IsBook, add_limit_order-IsBook}

abbrev pub order : ℕ → ℕ → ℕ → ℕ → RestingOrder
order id price quantity sequence = record {
  id = id;
  price = pos price;
  quantity = pos quantity;
  sequence = sequence;
}

abbrev pub node : ℕ → RestingOrder → OrderNode
node at o = record { at = at; order = o }

-- The pool of a book with two orders, of the blocks at 1000, 1048, 1096 and 1144.
abbrev pub pool : SlabAllocator
pool = record {
  chunks = 1000 ∷ [];
  free_list = 1048;
  chunk_size = 4;
  total_capacity = 4;
  in_use = 2;
  growth_events = 0;
  links = λ p. if p == 1048 then 1000 else 0;
  brk = 1192;
}

-- Five lots and then four are offered at 105.
abbrev pub offered : OrderBook
offered = record {
  bids = [];
  asks = (pos 105, node 1144 (order 1 105 5 0) ∷ node 1096 (order 2 105 4 1) ∷ []) ∷ [];
  locations =
      (2, record { side = sell; price = pos 105; node = 1096 })
      ∷ (1, record { side = sell; price = pos 105; node = 1144 })
      ∷ [];
  node_pool = pool;
  next_sequence = 2;
}

pub offered-IsBook : IsBook offered
offered-IsBook = record {
  bids = record { sorted = tt; levels = tt };
  asks = record { sorted = (tt, tt); levels = ((refl, ((refl, refl), ((refl, refl), tt))), tt) };
  uncrossed = tt;
}

pub unknown : lookup 3 offered.locations ≡ none
unfolding lookup
unknown = refl

add_limit_order-greedy_example :
    (trades : List Trade) × (b' : OrderBook) × (add_limit_order 3 buy (pos 106) (pos 7) offered
      ≡ ok (trades, b'))
    × (map fill_of trades ≡ (greedy buy (pos 106) (pos 7) (queue offered.asks)).fills)
    × (queue b'.asks ≡ (greedy buy (pos 106) (pos 7) (queue offered.asks)).left)
add_limit_order-greedy_example =
    add_limit_order-greedy 3 buy (pos 106) (pos 7) offered refl unknown (refl, tt)

-- What an operation gives that is not refused.
abbrev pub result_of {ℓ} : {A : Type ℓ} → Result A → A → A
result_of (ok a) d = a
result_of r d = d

abbrev bought : List Trade × OrderBook
unfolding add_limit_order
bought = result_of (add_limit_order 3 buy (pos 106) (pos 7) offered) ([], offered)

bought-ok : add_limit_order 3 buy (pos 106) (pos 7) offered ≡ ok (bought.0, bought.1)
unfolding add_limit_order
bought-ok = refl

two_trades : map fill_of bought.0 ≡ (1, pos 105, pos 5) ∷ (2, pos 105, pos 2) ∷ []
unfolding add_limit_order
two_trades = refl

add_limit_order-resting_example :
    (trades : List Trade) × (b' : OrderBook) × (add_limit_order 3 buy (pos 106) (pos 7) offered
      ≡ ok (trades, b'))
    × (traded trades +ℤ resting b'.asks ≡ resting offered.asks)
    × (traded trades +ℤ resting b'.bids ≡ resting offered.bids +ℤ pos 7)
add_limit_order-resting_example =
    add_limit_order-resting 3 buy (pos 106) (pos 7) offered offered-IsBook refl unknown

add_limit_order-orders_at_example :
    (trades : List Trade) × (b' : OrderBook) × (add_limit_order 3 sell (pos 105) (pos 7) offered
      ≡ ok (trades, b'))
    × (((traded trades ≡ pos 7) × (orders_at sell (pos 105) b' ≡ orders_at sell (pos 105) offered))
        ⊎ ((ltb_ℤ (traded trades) (pos 7) ≡ true)
            × (orders_at sell (pos 105) b' ≡ orders_at sell (pos 105) offered ++ 3 ∷ [])))
add_limit_order-orders_at_example =
    add_limit_order-orders_at 3 sell (pos 105) (pos 7) offered refl unknown

add_limit_order-IsBook_example :
    ((is_positive (pos 7) ≡ false)
      × (add_limit_order 3 buy (pos 106) (pos 7) offered ≡ invalid_quantity))
    ⊎ (((loc : OrderLocation) × (is_positive (pos 7) ≡ true)
          × (lookup 3 offered.locations ≡ some loc)
          × (add_limit_order 3 buy (pos 106) (pos 7) offered ≡ duplicate_id))
        ⊎ ((trades : List Trade) × (b' : OrderBook) × (is_positive (pos 7) ≡ true)
            × (lookup 3 offered.locations ≡ none)
            × (add_limit_order 3 buy (pos 106) (pos 7) offered ≡ ok (trades, b'))
            × IsBook b'))
add_limit_order-IsBook_example =
    add_limit_order-IsBook 3 buy (pos 106) (pos 7) offered offered-IsBook

abbrev cancelled_one : Bool × OrderBook
unfolding cancel_order lookup forget remove_node find erase
cancelled_one = result_of (cancel_order 1 offered) (false, offered)

cancelled_one-ok : cancel_order 1 offered ≡ ok (cancelled_one.0, cancelled_one.1)
unfolding cancel_order lookup forget remove_node find erase
cancelled_one-ok = refl

one_left : (cancelled_one.0 ≡ true) × (order_count cancelled_one.1 ≡ 1)
unfolding cancel_order lookup forget remove_node find erase order_count
one_left = (refl, refl)
