-- ===== src/Book/RoundTrip.antt =====
-- An order that rests and is cancelled again leaves the book as it was.
use lowlatency_exec_core.Common.{
  none, arith, refl, ◌∷◌, ◌≡◌, true, false, ◌∙◌, ◌++◌, ◌==◌, [], ap, if◌then◌else◌, List,
}
use lowlatency_exec_core.Book.Untracked.{without}
use lowlatency_exec_core.Slab.{Ptr}
use lowlatency_exec_core.Slab.Pool.{has}
use lowlatency_exec_core.Slab.Used.{allocate-IsLive}
use lowlatency_exec_core.Types.{Side, buy, sell, OrderId, Price, Quantity, Trade}
use lowlatency_exec_core.Levels.{
  OrderNode, PriceLevel, Levels, node_layout, find, put_level, level_at,
}
use lowlatency_exec_core.Locations.{Locations, lookup, forget, emplace}
use lowlatency_exec_core.Locations.Keys.{lookup-none, forget_head}
use lowlatency_exec_core.Book.{
  OrderBook, Taker, Run, run_of, rest_order, settle, too_far, opposite, levels_of, engine_of,
  is_positive, execute, add_limit_order, cancel_order, ok,
}
use lowlatency_exec_core.Book.Valid.{Prices, IsSide}
use lowlatency_exec_core.Book.Sides.{
  taker, accepted, sweep_of, rested, rest_order_own, rest_order-opposite,
}
use lowlatency_exec_core.Book.Cancel.{
  cancelled, cancel_known, Located, forgotten, removed_own, removed_other, levels_of-forgotten,
}
use lowlatency_exec_core.Book.Invariant.{to_Sided}
use lowlatency_exec_core.Book.Tracked.{side_entries, blocks, location}
use lowlatency_exec_core.Book.Agreement.{to_Facing, with_levels_locations}
use lowlatency_exec_core.Book.Executed.{rest_order_locations}
use lowlatency_exec_core.Book.Consistent.{IsConsistent, HasRoom}
use lowlatency_exec_core.Book.Restored.{
  sweep_far, unlink_back, find-put_level, without-put_level, outside_level,
}

module _ (id : OrderId) (side : Side) (price : Price) (n : OrderNode) (b b' : OrderBook)
    (own : levels_of side b'
      ≡ put_level side price (level_at price (levels_of side b) ++ n ∷ []) (levels_of side b))
    (index : b'.locations ≡ emplace id (location side price n.at) b.locations)
    (fresh : lookup id b.locations ≡ none)
    (outside : has n.at (blocks (side_entries side (levels_of side b))) ≡ false)
    (v : IsSide side (levels_of side b)) where
  abbrev level : PriceLevel
  level = level_at price (levels_of side b)

  index_head : b'.locations ≡ (id, location side price n.at) ∷ b.locations
  unfolding emplace
  index_head = index ∙ rw (fresh, emplace) refl

  there : Located (location side price n.at) (forgotten id b') (level ++ n ∷ []) level
  there = (
    ap (find price) (levels_of-forgotten side id b' ∙ own)
        ∙ find-put_level side price _ (levels_of side b),
    unlink_back side price level n (outside_level side price n.at (levels_of side b) outside),
  )

  abbrev after : OrderBook
  after = cancelled id b' (location side price n.at) level

  cancelled_ok : cancel_order id b' ≡ ok (true, after)
  unfolding lookup
  cancelled_ok =
      cancel_known id b' (location side price n.at) level
        (let self : (id == id) ≡ true = ground arith in rw index_head (rw self refl)) there

  own_back : levels_of side after ≡ levels_of side b
  own_back =
      removed_own (location side price n.at) level _ (forgotten id b')
      ∙ (ap (λ ls. without side price level ls) (levels_of-forgotten side id b' ∙ own)
          ∙ without-put_level side price _ (levels_of side b) v.sorted v.levels)

  other_back : levels_of (opposite side) after ≡ levels_of (opposite side) b'
  other_back =
      removed_other (location side price n.at) level _ (forgotten id b')
      ∙ levels_of-forgotten (opposite side) id b'

  index_back : after.locations ≡ b.locations
  index_back =
      with_levels_locations _ _ side
      ∙ (ap (forget id) index_head
          ∙ forget_head id (location side price n.at) b.locations
              (lookup-none id b.locations fresh))

-- An order that crosses no price makes no trade.
settle_idle :
    (s : Side) (r : Quantity) (b : OrderBook)
    → settle s (run_of [] r (levels_of (opposite s) b) (engine_of b)) b ≡ b
unfolding settle
settle_idle buy r b = refl
settle_idle sell r b = refl

-- The book that an order leaves, by what its loops leave.
abbrev finished : Taker → OrderBook → Run Levels → List Trade × OrderBook
finished t b r = (
  r.trades,
  if is_positive r.remaining
      then rest_order t r.remaining (settle t.side r b)
      else settle t.side r b,
)

execute-finished :
    (t : Taker) (quantity : Quantity) (b : OrderBook)
    → execute t quantity b ≡ finished t b (sweep_of t quantity b)
unfolding execute
execute-finished t quantity b = refl

module _ (t : Taker) (quantity : Quantity) (b : OrderBook) where
  abbrev idle : Run Levels
  idle = run_of [] quantity (levels_of (opposite t.side) b) (engine_of b)

  pub execute_idle :
      Prices (λ p. too_far t.side t.price p ≡ true) (levels_of (opposite t.side) b)
      → is_positive quantity ≡ true
      → execute t quantity b ≡ ([], rest_order t quantity b)
  execute_idle far good =
      execute-finished t quantity b
      ∙ (ap (finished t b) (sweep_far t quantity (levels_of (opposite t.side) b) (engine_of b) far)
          ∙ rw good (ap (λ c. ([], rest_order t quantity c)) (settle_idle t.side quantity b)))

  -- The block of the node that rests is not in the book.
  fresh_block :
      IsConsistent b
      → HasRoom b
      → has (rested t quantity b).at (blocks (side_entries t.side (levels_of t.side b))) ≡ false
  fresh_block v room =
      let facing = to_Facing t.side b v.in_step in
      let others = side_entries (opposite t.side) (levels_of (opposite t.side) b) in
      let own = side_entries t.side (levels_of t.side b) in
      let live =
        allocate-IsLive node_layout b.node_pool (blocks (others ++ own)) room facing.live in
      has_right (rested t quantity b).at others own live.pool.distinct_used.0
    where
      has_right :
          (p : Ptr) (xs ys : Locations)
          → has p (blocks (xs ++ ys)) ≡ false
          → has p (blocks ys) ≡ false
      has_right p [] ys h = h
      has_right p (x ∷ xs) ys h = has_right p xs ys (ground (arith, h))

-- In a consistent book with room for one more chunk in the pool's counter, an order with a positive
-- quantity and an id that the book does not track, which crosses no price on the other side, makes
-- no trade; its cancellation then answers true and gives both sides and the index back as they were
-- before the order.
pub add_limit_order-cancel_order :
    (id : OrderId) (side : Side) (price : Price) (quantity : Quantity) (b : OrderBook)
    → IsConsistent b
    → HasRoom b
    → is_positive quantity ≡ true
    → lookup id b.locations ≡ none
    → Prices (λ p. too_far side price p ≡ true) (levels_of (opposite side) b)
    → (b' : OrderBook) × (b'' : OrderBook) × (add_limit_order id side price quantity b
        ≡ ok ([], b'))
      × (cancel_order id b' ≡ ok (true, b''))
      × (levels_of side b'' ≡ levels_of side b)
      × (levels_of (opposite side) b'' ≡ levels_of (opposite side) b)
      × (b''.locations ≡ b.locations)
add_limit_order-cancel_order id side price quantity b v room good fresh far =
    let t = taker id side price in
    let n = rested t quantity b in
    let b' = rest_order t quantity b in
    let own = rest_order_own t quantity b in
    let index = rest_order_locations t quantity b in
    let outside = fresh_block t quantity b v room in
    let valid = (to_Sided side v.formed).own_side in
    (
      b',
      after id side price n b b' own index fresh outside valid,
      accepted id side price quantity b good fresh ∙ ap ok (execute_idle t quantity b far good),
      cancelled_ok id side price n b b' own index fresh outside valid,
      own_back id side price n b b' own index fresh outside valid,
      other_back id side price n b b' own index fresh outside valid
          ∙ rest_order-opposite t quantity b,
      index_back id side price n b b' own index fresh outside valid,
    )
