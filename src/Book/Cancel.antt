-- ===== src/Book/Cancel.antt =====
-- The cases of `cancel_order`.
use lowlatency_exec_core.Book.Sides.{levels_of_parts, other_levels, own_levels}
use lowlatency_exec_core.Slab.{SlabAllocator, deallocate}
use lowlatency_exec_core.Levels.{PriceLevel, find, is_empty, erase_level, unlink, put_level, erase}
use lowlatency_exec_core.Book.{
  OrderBook, cancel_order, levels_of, with_levels, opposite, ok, remove_node, fault,
}
use lowlatency_exec_core.Types.{Side, OrderId}
use lowlatency_exec_core.Locations.{OrderLocation, forget, lookup}
use lowlatency_exec_core.Common.{
  refl, ◌≡◌, if◌then◌else◌, some, none, false, ◌⊎◌, ◌∙◌, true, Option-cases, inl, inr,
}

-- The book once the node of `loc` has left its level, of which `rest` stays.
abbrev pub removed : OrderLocation → PriceLevel → SlabAllocator → OrderBook → OrderBook
removed loc rest pool b =
    with_levels loc.side
      (if is_empty rest
        then erase_level loc.price (levels_of loc.side b)
        else put_level loc.side loc.price rest (levels_of loc.side b))
      (record b { node_pool = pool })

module _ (loc : OrderLocation) (rest : PriceLevel) (pool : SlabAllocator) (b : OrderBook) where
  pub removed_own : levels_of loc.side (removed loc rest pool b) ≡ (
      if is_empty rest
      then erase_level loc.price (levels_of loc.side b)
      else put_level loc.side loc.price rest (levels_of loc.side b))
  removed_own = own_levels _ _ loc.side

  pub removed_other :
      levels_of (opposite loc.side) (removed loc rest pool b) ≡ levels_of (opposite loc.side) b
  removed_other = other_levels _ _ loc.side ∙ levels_of_parts (opposite loc.side) _ _ refl refl

-- The book without the entry of `id`.
abbrev pub forgotten : OrderId → OrderBook → OrderBook
forgotten id b = record b { locations = forget id b.locations }

pub levels_of-forgotten :
    (s : Side) (id : OrderId) (b : OrderBook) → levels_of s (forgotten id b) ≡ levels_of s b
levels_of-forgotten s id b = levels_of_parts s _ _ refl refl

module _ (loc : OrderLocation) (b : OrderBook) where
  -- The level and the node of `loc` are there.
  abbrev pub Located : PriceLevel → PriceLevel → Type 0
  Located level rest =
      (find loc.price (levels_of loc.side b) ≡ some level) × (unlink loc.node level ≡ some rest)

  remove_node-Located :
      {level : PriceLevel} (rest : PriceLevel)
      → Located level rest
      → remove_node loc b ≡ ok (removed loc rest (deallocate loc.node b.node_pool) b)
  unfolding remove_node erase
  remove_node-Located rest (at, taken) = rw (at, taken, remove_node, erase)

  remove_node_absent : find loc.price (levels_of loc.side b) ≡ none → remove_node loc b ≡ fault
  unfolding remove_node
  remove_node_absent at = rw (at, remove_node)

  remove_node_foreign :
      {level : PriceLevel}
      → find loc.price (levels_of loc.side b) ≡ some level
      → unlink loc.node level ≡ none
      → remove_node loc b ≡ fault
  unfolding remove_node erase
  remove_node_foreign at gone = rw (at, gone, remove_node, erase)

  -- The map has no level at the price of `loc`, or the level does not hold its node.
  abbrev pub Dangling : Type 0
  Dangling =
      (find loc.price (levels_of loc.side b) ≡ none)
      ⊎ ((level : PriceLevel) × (find loc.price (levels_of loc.side b) ≡ some level)
          × (unlink loc.node level ≡ none))

  remove_node-Dangling : Dangling → remove_node loc b ≡ fault
  remove_node-Dangling (inl absent) = remove_node_absent absent
  remove_node-Dangling (inr (level, at, gone)) = remove_node_foreign at gone

  pub Located-cases : Dangling ⊎ ((level : PriceLevel) × (rest : PriceLevel) × Located level rest)
  Located-cases = elim (Option-cases (find loc.price (levels_of loc.side b))) [
    | inl absent ↦ inl (inl absent)
    | inr (level, at) ↦ elim (Option-cases (unlink loc.node level)) [
      | inl foreign ↦ inl (inr (level, at, foreign))
      | inr (rest, taken) ↦ inr (level, rest, (at, taken))
    ]
  ]

module _ (id : OrderId) (b : OrderBook) where
  pub cancel_unknown : lookup id b.locations ≡ none → cancel_order id b ≡ ok (false, b)
  unfolding cancel_order
  cancel_unknown h = rw (h, cancel_order)

  abbrev pub cancelled : OrderLocation → PriceLevel → OrderBook
  cancelled loc rest = removed loc rest (deallocate loc.node b.node_pool) (forgotten id b)

  -- The order of `loc` leaves the index, its level and the pool.
  pub cancel_known :
      (loc : OrderLocation) {level : PriceLevel} (rest : PriceLevel)
      → lookup id b.locations ≡ some loc
      → Located loc (forgotten id b) level rest
      → cancel_order id b ≡ ok (true, cancelled loc rest)
  unfolding cancel_order
  cancel_known loc rest known there =
      rw (known, remove_node-Located loc (forgotten id b) rest there, cancel_order)

  pub cancel_fault :
      (loc : OrderLocation)
      → lookup id b.locations ≡ some loc
      → Dangling loc (forgotten id b)
      → cancel_order id b ≡ fault
  unfolding cancel_order
  cancel_fault loc known h = rw (known, remove_node-Dangling loc (forgotten id b) h, cancel_order)
