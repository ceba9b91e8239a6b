-- ===== src/Nodes.antt =====
-- The nodes of include/exec_core/order_book.hpp with their links, and the helpers push_back,
-- pop_front, erase, sum_quantity and collect_ids of src/order_book.cpp on them, with the loop of the
-- destructor. The memory of the nodes is a map from addresses; what `deallocate` writes into a freed
-- block is in the pool's own map. The loops are on fuel, `none` where it runs out.
pub mod Linked
pub mod Writes
pub mod Detach
pub mod Queue
pub mod Erase
pub mod Push
pub mod Reads
pub mod Tests
use lowlatency_exec_core.Common.{
  ℕ, zero, suc, Option, none, some, List, [], ◌∷◌, ◌++◌, ◌==◌, if◌then◌else◌,
}
use lowlatency_exec_core.Common.Int.{pos, ◌+ℤ◌}
use lowlatency_exec_core.Types.{OrderId, Quantity, RestingOrder}
use lowlatency_exec_core.Slab.{Ptr, SlabAllocator, null, allocate, deallocate}
use lowlatency_exec_core.Levels.{node_layout}

pub record OrderNode : Type 0 where
  pub order : RestingOrder
  pub prev : Ptr
  pub next : Ptr

pub record PriceLevel : Type 0 where
  pub head : Ptr
  pub tail : Ptr

abbrev pub Nodes : Type 0
Nodes = Ptr → OrderNode

unfoldable pub write : Ptr → OrderNode → Nodes → Nodes
write p node m q = if q == p then node else m q

-- `p->next = q`
abbrev pub set_next : Ptr → Ptr → Nodes → Nodes
set_next p q m = write p (record (m p) { next = q }) m

-- `p->prev = q`
abbrev pub set_prev : Ptr → Ptr → Nodes → Nodes
set_prev p q m = write p (record (m p) { prev = q }) m

abbrev pub node_of : RestingOrder → Ptr → OrderNode
node_of order tail = record { order = order; prev = tail; next = null }

-- OrderBook::push_back: the level, the nodes and the pool, and the new node.
unfoldable pub push_back :
    PriceLevel → RestingOrder → Nodes → SlabAllocator → PriceLevel × Nodes × SlabAllocator × Ptr
unfolding allocate write
push_back level order m pool =
    let (node, pool') = allocate node_layout pool in
    let m' : Nodes = write node (node_of order level.tail) m in
    if level.tail == null
    then (record { head = node; tail = node }, m', pool', node)
    else (record level { tail = node }, set_next level.tail node m', pool', node)

-- OrderBook::pop_front, of a level that has a head.
unfoldable pub pop_front : PriceLevel → Nodes → SlabAllocator → PriceLevel × Nodes × SlabAllocator
unfolding deallocate write
pop_front level m pool =
    let head = (m level.head).next in
    let pool' = deallocate level.head pool in
    if head == null
    then (record { head = head; tail = null }, m, pool')
    else (record level { head = head }, set_prev head null m, pool')

-- The two branches of OrderBook::erase on the links of the node before and of the node after.
unfoldable pub bridge_next : Ptr → PriceLevel → Nodes → PriceLevel × Nodes
unfolding write
bridge_next node level m =
    if (m node).prev == null
    then (record level { head = (m node).next }, m)
    else (level, set_next (m node).prev (m node).next m)

unfoldable pub bridge_prev : Ptr → PriceLevel → Nodes → PriceLevel × Nodes
unfolding write
bridge_prev node level m =
    if (m node).next == null
    then (record level { tail = (m node).prev }, m)
    else (level, set_prev (m node).next (m node).prev m)

-- OrderBook::erase
unfoldable pub erase : PriceLevel → Ptr → Nodes → SlabAllocator → PriceLevel × Nodes × SlabAllocator
unfolding bridge_next bridge_prev deallocate
erase level node m pool =
    let (level, m) = bridge_next node level m in
    let (level, m) = bridge_prev node level m in (level, m, deallocate node pool)

-- The loop of OrderBook::sum_quantity.
unfoldable pub sum_loop : ℕ → Nodes → Ptr → Quantity → Option Quantity
sum_loop zero m node total = if node == null then some total else none
sum_loop (suc fuel) m node total =
    let rest = sum_loop fuel m (m node).next (total +ℤ (m node).order.quantity) in
    if node == null then some total else rest

unfoldable pub sum_quantity : ℕ → Nodes → PriceLevel → Option Quantity
unfolding sum_loop
sum_quantity fuel m level = sum_loop fuel m level.head (pos 0)

-- The loop of OrderBook::collect_ids.
unfoldable pub collect_loop : ℕ → Nodes → Ptr → List OrderId → Option (List OrderId)
collect_loop zero m node ids = if node == null then some ids else none
collect_loop (suc fuel) m node ids =
    let rest = collect_loop fuel m (m node).next (ids ++ (m node).order.id ∷ []) in
    if node == null then some ids else rest

unfoldable pub collect_ids : ℕ → Nodes → PriceLevel → Option (List OrderId)
unfolding collect_loop
collect_ids fuel m level = collect_loop fuel m level.head []

-- `destroy_level` of the destructor: each node's `next` is read before the node is given back.
unfoldable pub destroy_level : ℕ → Nodes → Ptr → SlabAllocator → Option SlabAllocator
unfolding deallocate
destroy_level zero m node pool = if node == null then some pool else none
destroy_level (suc fuel) m node pool =
    let rest = destroy_level fuel m (m node).next (deallocate node pool) in
    if node == null then some pool else rest
