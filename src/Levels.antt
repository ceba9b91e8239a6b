-- ===== src/Levels.antt =====
-- One side of the book in include/exec_core/order_book.hpp: `std::map<Price, PriceLevel>`, as the
-- list of its entries in the map's own order, and `PriceLevel`, as the list of its nodes from
-- `head` to `tail`. A node is its address and the order that it holds.
use lowlatency_exec_core.Common.{
  Bool, true, false, Option, none, some, List, [], ◌∷◌, ◌++◌, ◌==◌, ◌&&◌, if◌then◌else◌,
}
use lowlatency_exec_core.Common.Int.{pos, ◌+ℤ◌, ltb_ℤ, leb_ℤ}
use lowlatency_exec_core.Types.{Side, buy, sell, OrderId, Price, Quantity, RestingOrder}
use lowlatency_exec_core.Slab.{Ptr, Layout, SlabAllocator, allocate, deallocate}

pub record OrderNode : Type 0 where
  pub at : Ptr
  pub order : RestingOrder

abbrev pub PriceLevel : Type 0
PriceLevel = List OrderNode

abbrev pub Levels : Type 0
Levels = List (Price × PriceLevel)

-- `sizeof(OrderNode)` and `alignof(OrderNode)`: four 64-bit numbers and two pointers.
abbrev pub node_layout : Layout
node_layout = record { size = 48; align = 8 }

-- `std::greater<Price>` for the bids, `std::less<Price>` for the asks.
abbrev pub before : Side → Price → Price → Bool
before buy a b = ltb_ℤ b a
before sell a b = ltb_ℤ a b

-- Keys are the same where neither stands before the other.
abbrev pub same_price : Price → Price → Bool
same_price a b = leb_ℤ a b && leb_ℤ b a

-- `map::find`
unfoldable pub find : {L : Type 0} → Price → List (Price × L) → Option L
find p [] = none
find p ((q, l) ∷ ls) = if same_price p q then some l else find p ls

-- `level.head == nullptr`
abbrev pub is_empty : PriceLevel → Bool
is_empty [] = true
is_empty (n ∷ ns) = false

-- `map::operator[]`, the level that it gives: an empty one where the price has none.
unfoldable pub level_at : Price → Levels → PriceLevel
unfolding find
level_at p ls = elim (find p ls) [ none ↦ [] | some l ↦ l ]

-- The map once the level at `p` is `l`, with a new entry at its place where there was none.
unfoldable pub put_level : {L : Type 0} → Side → Price → L → List (Price × L) → List (Price × L)
put_level s p l [] = (p, l) ∷ []
put_level s p l ((q, m) ∷ ls) =
    if before s p q
    then (p, l) ∷ (q, m) ∷ ls
    else if before s q p
    then (q, m) ∷ put_level s p l ls
    else (p, l) ∷ ls

-- `map::erase` of the entry at `p`
unfoldable pub erase_level : {L : Type 0} → Price → List (Price × L) → List (Price × L)
erase_level p [] = []
erase_level p ((q, m) ∷ ls) = if same_price p q then ls else (q, m) ∷ erase_level p ls

-- OrderBook::push_back: the level, the new node and the pool.
unfoldable pub push_back :
    PriceLevel → RestingOrder → SlabAllocator → PriceLevel × Ptr × SlabAllocator
unfolding allocate
push_back level order pool =
    let (at, pool') = allocate node_layout pool in
    (level ++ record { at = at; order = order } ∷ [], at, pool')

-- OrderBook::pop_front, of a level that has a head.
unfoldable pub pop_front : OrderNode → PriceLevel → SlabAllocator → PriceLevel × SlabAllocator
unfolding deallocate
pop_front head rest pool = (rest, deallocate head.at pool)

-- The level less the node at the address `at`; `none` where no node of it stands there.
unfoldable pub unlink : Ptr → PriceLevel → Option PriceLevel
unlink at [] = none
unlink at (n ∷ ns) =
    if n.at == at then some ns else elim (unlink at ns) [ none ↦ none | some ms ↦ some (n ∷ ms) ]

-- OrderBook::erase
unfoldable pub erase : PriceLevel → Ptr → SlabAllocator → Option (PriceLevel × SlabAllocator)
unfolding unlink deallocate
erase level at pool = elim (unlink at level) [
  | none ↦ none
  | some rest ↦ some (rest, deallocate at pool)
]

-- The running total of OrderBook::sum_quantity.
unfoldable pub sum_from : Quantity → PriceLevel → Quantity
sum_from total [] = total
sum_from total (n ∷ ns) = sum_from (total +ℤ n.order.quantity) ns

unfoldable pub sum_quantity : PriceLevel → Quantity
unfolding sum_from
sum_quantity level = sum_from (pos 0) level

-- OrderBook::collect_ids
unfoldable pub collect_ids : PriceLevel → List OrderId
collect_ids [] = []
collect_ids (n ∷ ns) = n.order.id ∷ collect_ids ns
