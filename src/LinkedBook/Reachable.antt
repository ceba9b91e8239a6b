-- ===== src/LinkedBook/Reachable.antt =====
-- Every linked book that a sequence of operations reaches.
use lowlatency_exec_core.Common.{
  ℕ, ◌≡◌, refl, sym, ap, subst, some, List, ◌+◌, ◌*◌, ◌<◌, ◌^◌, length, Bool,
}
use lowlatency_exec_core.Types.{Side, OrderId, Price, Quantity, Trade}
use lowlatency_exec_core.Slab.{Ptr}
use lowlatency_exec_core.Nodes.{Nodes}
use lowlatency_exec_core.Book.{Result, ok, invalid_quantity, duplicate_id, fault}
use lowlatency_exec_core.Book
use lowlatency_exec_core.Book.Consistent.{IsConsistent, HasRoom}
use lowlatency_exec_core.Book.Reachable
use lowlatency_exec_core.Book.Reachable.{Reach-IsConsistent}
use lowlatency_exec_core.LinkedBook.{OrderBook, new_book, add_limit_order, cancel_order}
use lowlatency_exec_core.LinkedBook.Represents.{Represents}
use lowlatency_exec_core.LinkedBook.Orders.{Agrees, add_limit_order-Represents}
use lowlatency_exec_core.LinkedBook.Cancels.{cancel_order-Represents}

-- The linked books that a sequence of operations reaches from a new one, over any memory. The loops
-- of an order have fuel for three rounds for each order of the book.
pub data Reach (capacity : ℕ) (brk : Ptr) : OrderBook → Type 0 where
  opened : (m : Nodes) → Reach capacity brk (new_book capacity brk m)
  submitted :
      {l l' : OrderBook} (fuel : ℕ) (id : OrderId) (side : Side) (price : Price)
      (quantity : Quantity) (trades : List Trade)
      → Reach capacity brk l
      → l.node_pool.total_capacity + l.node_pool.chunk_size < 2 ^ 64
      → 3 * length l.locations < fuel
      → add_limit_order fuel id side price quantity l ≡ some (ok (trades, l'))
      → Reach capacity brk l'
  withdrawn :
      {l l' : OrderBook} (id : OrderId) (found : Bool)
      → Reach capacity brk l
      → cancel_order id l ≡ ok (found, l')
      → Reach capacity brk l'

-- What a result on the links that succeeds says of the result on the lists.
Agrees-ok :
    {A : Type 0} (x : A) (l : OrderBook) (r : Result (A × Book.OrderBook))
    → Agrees (some (ok (x, l))) r
    → (b : Book.OrderBook) × (r ≡ ok (x, b)) × Represents l b
Agrees-ok x l (ok (y, b)) v = (b, ap (λ z. ok (z, b)) (sym v.0), v.1)
Agrees-ok x l invalid_quantity v = absurd v
Agrees-ok x l duplicate_id v = absurd v
Agrees-ok x l fault v = absurd v

new_book-Represents :
    (capacity : ℕ) (brk : Ptr) (m : Nodes)
    → Represents (new_book capacity brk m) (Book.new_book capacity brk)
unfolding new_book Book.new_book
new_book-Represents capacity brk m = record {
  bids = tt;
  asks = tt;
  locations = refl;
  node_pool = refl;
  next_sequence = refl;
}

module _ {capacity : ℕ} {brk : Ptr} (fits : capacity < 2 ^ 64) (positive : 0 < brk) where
  -- The linked book is a book of the lists that the same operations reach.
  abbrev StandsFor : OrderBook → Type 0
  StandsFor l = (b : Book.OrderBook) × Reachable.Reach capacity brk b × Represents l b

  submitted-Represents :
      {l l' : OrderBook} (fuel : ℕ) (id : OrderId) (side : Side) (price : Price)
      (quantity : Quantity) (trades : List Trade)
      → l.node_pool.total_capacity + l.node_pool.chunk_size < 2 ^ 64
      → 3 * length l.locations < fuel
      → add_limit_order fuel id side price quantity l ≡ some (ok (trades, l'))
      → StandsFor l
      → StandsFor l'
  submitted-Represents {l} {l'} fuel id side price quantity trades room enough ran (b, r, v) =
      let fit : HasRoom b = rw (← v.node_pool) room in
      let agrees =
        add_limit_order-Represents fuel id side price quantity l b v
          (Reach-IsConsistent fits positive r) fit enough in
      let (b', same, w) =
        Agrees-ok trades l' (Book.add_limit_order id side price quantity b)
          (subst (λ x. Agrees x (Book.add_limit_order id side price quantity b)) ran agrees) in
      (b', Reachable.submitted id side price quantity trades r fit same, w)

  withdrawn-Represents :
      {l l' : OrderBook} (id : OrderId) (found : Bool)
      → cancel_order id l ≡ ok (found, l')
      → StandsFor l
      → StandsFor l'
  withdrawn-Represents {l} {l'} id found ran (b, r, v) =
      let agrees = cancel_order-Represents id l b v (Reach-IsConsistent fits positive r) in
      let (b', same, w) =
        Agrees-ok found l' (Book.cancel_order id b)
          (subst (λ x. Agrees (some x) (Book.cancel_order id b)) ran agrees) in
      (b', Reachable.withdrawn id found r same, w)

-- Every linked book that a sequence of accepted orders and of cancellations reaches from a new one,
-- whose initial capacity is below 2 ^ 64 and whose first address is not zero, with room for one
-- more chunk in the pool's counter and fuel for three rounds for each order of the book at each
-- accepted order, represents a consistent book of lists that such a sequence reaches: each of its
-- levels is a queue of different nodes, linked in both directions.
pub Reach-Represents :
    {capacity : ℕ} {brk : Ptr} {l : OrderBook}
    → capacity < 2 ^ 64
    → 0 < brk
    → Reach capacity brk l
    → (b : Book.OrderBook) × Reachable.Reach capacity brk b × Represents l b × IsConsistent b
Reach-Represents {capacity} {brk} fits positive h =
    let (b, r, v) = go h in (b, r, v, Reach-IsConsistent fits positive r)
  where
    go :
        {l : OrderBook}
        → Reach capacity brk l
        → (b : Book.OrderBook) × Reachable.Reach capacity brk b × Represents l b
    go (opened m) =
        (Book.new_book capacity brk, Reachable.opened, new_book-Represents capacity brk m)
    go (submitted fuel id side price quantity trades r room enough ran) =
        submitted-Represents fits positive fuel id side price quantity trades room enough ran (go r)
    go (withdrawn id found r ran) = withdrawn-Represents fits positive id found ran (go r)
