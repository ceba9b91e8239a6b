-- ===== src/Book/Sides.antt =====
-- What an accepted order does to the two sides of the book, in terms of its outer loop.
use lowlatency_exec_core.Common.{
  ◌≡◌, refl, ap, ◌∙◌, true, false, none, [], ◌∷◌, ◌++◌, Bool-cases, inl, inr, some,
}
use lowlatency_exec_core.Types.{Side, buy, sell, OrderId, Price, Quantity}
use lowlatency_exec_core.Slab.{allocate}
use lowlatency_exec_core.Levels.{OrderNode, Levels, node_layout, level_at, put_level}
use lowlatency_exec_core.Locations.{lookup, OrderLocation}
use lowlatency_exec_core.Book.{
  OrderBook, ok, Taker, Run, is_positive, opposite, levels_of, engine_of, with_levels, sweep,
  settle, rest_order, execute, add_limit_order, invalid_quantity, duplicate_id,
}

abbrev pub taker : OrderId → Side → Price → Taker
taker id side price = record { id = id; side = side; price = price }

-- The outer loop of an order at the book `b`.
abbrev pub sweep_of : Taker → Quantity → OrderBook → Run Levels
sweep_of t quantity b = sweep t quantity (levels_of (opposite t.side) b) (engine_of b)

module _ (id : OrderId) (side : Side) (price : Price) (quantity : Quantity) (b : OrderBook) where
  pub refused_quantity :
      is_positive quantity ≡ false → add_limit_order id side price quantity b ≡ invalid_quantity
  unfolding add_limit_order
  refused_quantity bad = rw bad

  pub refused_id :
      (loc : OrderLocation)
      → is_positive quantity ≡ true
      → lookup id b.locations ≡ some loc
      → add_limit_order id side price quantity b ≡ duplicate_id
  unfolding add_limit_order
  refused_id loc good known = rw (good, known)

  -- An order that passes both checks is executed.
  pub accepted :
      is_positive quantity ≡ true
      → lookup id b.locations ≡ none
      → add_limit_order id side price quantity b ≡ ok (execute (taker id side price) quantity b)
  unfolding add_limit_order
  accepted good fresh = rw (good, fresh)

module _ (ls : Levels) (b : OrderBook) where
  pub other_levels :
      (s : Side) → levels_of (opposite s) (with_levels s ls b) ≡ levels_of (opposite s) b
  other_levels buy = refl
  other_levels sell = refl

  pub own_levels : (s : Side) → levels_of s (with_levels s ls b) ≡ ls
  own_levels buy = refl
  own_levels sell = refl

module _ (r : Run Levels) (b : OrderBook) where
  pub settle-opposite : (s : Side) → levels_of (opposite s) (settle s r b) ≡ r.rest
  unfolding settle
  settle-opposite buy = refl
  settle-opposite sell = refl

  pub settle_own : (s : Side) → levels_of s (settle s r b) ≡ levels_of s b
  unfolding settle
  settle_own buy = refl
  settle_own sell = refl

pub levels_of_parts :
    (s : Side) (b c : OrderBook) → b.bids ≡ c.bids → b.asks ≡ c.asks → levels_of s b ≡ levels_of s c
levels_of_parts buy b c p q = p
levels_of_parts sell b c p q = q

pub rest_order-opposite :
    (t : Taker) (r : Quantity) (b : OrderBook)
    → levels_of (opposite t.side) (rest_order t r b) ≡ levels_of (opposite t.side) b
unfolding rest_order
rest_order-opposite t r b =
    other_levels _ _ t.side ∙ levels_of_parts (opposite t.side) _ _ refl refl

module _ (t : Taker) (quantity : Quantity) (b : OrderBook) where
  pub execute_trades : (execute t quantity b).0 ≡ (sweep_of t quantity b).trades
  unfolding execute
  execute_trades = refl

  pub execute-opposite :
      levels_of (opposite t.side) (execute t quantity b).1 ≡ (sweep_of t quantity b).rest
  unfolding execute
  execute-opposite = elim (Bool-cases (is_positive (sweep_of t quantity b).remaining)) [
    | inl more ↦
        rw more (rest_order-opposite t _ _ ∙ settle-opposite (sweep_of t quantity b) b t.side)
    | inr done ↦ rw done (settle-opposite (sweep_of t quantity b) b t.side)
  ]

-- The node that rests for the remainder `r` of `t`.
abbrev pub rested : Taker → Quantity → OrderBook → OrderNode
rested t r b = record {
  at = (allocate node_layout b.node_pool).0;
  order = record { id = t.id; price = t.price; quantity = r; sequence = b.next_sequence };
}

pub rest_order_own :
    (t : Taker) (r : Quantity) (b : OrderBook)
    → levels_of t.side (rest_order t r b)
      ≡ put_level t.side t.price
          (level_at t.price (levels_of t.side b) ++ rested t r b ∷ [])
          (levels_of t.side b)
unfolding rest_order
rest_order_own t r b = own_levels _ _ t.side

module _ (t : Taker) (quantity : Quantity) (b : OrderBook) where
  pub execute_own_filled :
      is_positive (sweep_of t quantity b).remaining ≡ false
      → levels_of t.side (execute t quantity b).1 ≡ levels_of t.side b
  unfolding execute
  execute_own_filled done = rw done (settle_own (sweep_of t quantity b) b t.side)

  -- The book that the remainder rests in.
  abbrev pub settled : OrderBook
  settled = settle t.side (sweep_of t quantity b) b

  pub execute_own_rested :
      is_positive (sweep_of t quantity b).remaining ≡ true
      → levels_of t.side (execute t quantity b).1
        ≡ put_level t.side t.price
            (level_at t.price (levels_of t.side b)
              ++ rested t (sweep_of t quantity b).remaining settled ∷ [])
            (levels_of t.side b)
  unfolding execute
  execute_own_rested more = rw more (
      rest_order_own t (sweep_of t quantity b).remaining settled
      ∙ ap
          (λ ls.
            put_level t.side t.price
              (level_at t.price ls ++ rested t (sweep_of t quantity b).remaining settled ∷ []) ls)
          (settle_own (sweep_of t quantity b) b t.side))
