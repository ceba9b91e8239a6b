-- ===== src/Book/Reachable.antt =====
-- Cancellation in a consistent book, the count of its orders, and every book that a sequence of
-- operations reaches.

use lowlatency_exec_core.Common.{
  Permᴰ, length, ◌<◌, true, ap, [], ◌≡◌, List, Option-cases, Bool, Bool-cases, inr, none, suc, inl,
  ◌^◌, false, sym, map, ◌∙◌, refl, ℕ, subst, ◌∷◌, length-Permᴰ,
}
use lowlatency_exec_core.Slab.{Ptr, used_blocks, deallocate}
use lowlatency_exec_core.Types.{Side, OrderId, Price, Quantity, Trade}
use lowlatency_exec_core.Levels.{PriceLevel}
use lowlatency_exec_core.Locations.{OrderLocation, lookup, forget}
use lowlatency_exec_core.Locations.Keys.{lookup_absent, forget_absent, lookup-none}
use lowlatency_exec_core.Book.{
  OrderBook, Result, new_book, is_some, is_positive, add_limit_order, cancel_order, ok,
  invalid_quantity, duplicate_id,
}
use lowlatency_exec_core.Book.Queries.{order_count}
use lowlatency_exec_core.Book.Sides.{refused_quantity, refused_id}
use lowlatency_exec_core.Book.Removal.{removed-IsBook}
use lowlatency_exec_core.Book.Cancel.{cancelled, cancel_known, cancel_unknown, forgotten}
use lowlatency_exec_core.Book.Tracked.{lookup-Tracks, Tracks-Permᴰ, forget-Tracks, Tracks}
use lowlatency_exec_core.Book.Agreement.{
  IsTracked, tracked, with_levels_locations, with_levels_pool,
}
use lowlatency_exec_core.Book.Consistent.{
  IsConsistent, HasRoom, Cancellable, cancellable, new_book-IsConsistent,
  add_limit_order-IsConsistent,
}

module _ (id : OrderId) (b : OrderBook) (v : IsConsistent b) where
  module _ (loc : OrderLocation) (rest : PriceLevel)
      (perm : Permᴰ (tracked b) ((id, loc) ∷ tracked (cancelled id b loc rest))) where
    less : Tracks b.locations b.node_pool ((id, loc) ∷ tracked (cancelled id b loc rest))
    less = Tracks-Permᴰ perm v.in_step

    cancelled-IsTracked : IsTracked (cancelled id b loc rest)
    cancelled-IsTracked =
        rw (with_levels_locations _ _ loc.side, with_levels_pool _ _ loc.side)
          (forget-Tracks id loc (tracked (cancelled id b loc rest)) less)

    cancelled_gone : lookup id (cancelled id b loc rest).locations ≡ none
    cancelled_gone =
        lookup-Tracks id cancelled-IsTracked
        ∙ lookup_absent id (tracked (cancelled id b loc rest)) less.distinct.0

  -- In a consistent book, cancel_order never dereferences a level or a node that is not there: it
  -- returns, answers true exactly where the index has the id, and leaves a consistent book whose
  -- index is the old one less the id.
  pub cancel_order-IsConsistent :
      (found : Bool) × (b' : OrderBook) × (cancel_order id b ≡ ok (found, b'))
      × (found ≡ is_some (lookup id b.locations))
      × (b'.locations ≡ forget id b.locations)
      × (lookup id b'.locations ≡ none)
      × IsConsistent b'
  unfolding Cancellable
  cancel_order-IsConsistent = elim (Option-cases (lookup id b.locations)) [
    | inl unknown ↦ (
      false,
      b,
      cancel_unknown id b unknown,
      rw unknown refl,
      sym (forget_absent id b.locations (lookup-none id b.locations unknown)),
      unknown,
      v,
    )
    | inr (loc, known) ↦
        let (level, rest, there, perm) = cancellable b id v loc known in
        (
          true,
          cancelled id b loc rest,
          cancel_known id b loc rest known there,
          rw known refl,
          with_levels_locations _ _ loc.side,
          cancelled_gone loc rest perm,
          record {
            formed =
                removed-IsBook loc rest (deallocate loc.node b.node_pool) (forgotten id b) there.0
                  there.1
                  (record {
                    bids = v.formed.bids;
                    asks = v.formed.asks;
                    uncrossed = v.formed.uncrossed;
                  });
            in_step = cancelled-IsTracked loc rest perm;
          },
        )
  ]

length-map :
    (f : OrderId × OrderLocation → Ptr) (m : List (OrderId × OrderLocation))
    → length (map f m) ≡ length m
length-map f [] = refl
length-map f (x ∷ m) = ap suc (length-map f m)

-- In a consistent book, order_count is the number of nodes on all levels of both sides, and the
-- pool counts as many blocks in use.
pub order_count-used_blocks :
    (b : OrderBook)
    → IsConsistent b
    → (order_count b ≡ length (tracked b)) × (used_blocks b.node_pool ≡ order_count b)
unfolding order_count used_blocks
order_count-used_blocks b v =
    let n = length-Permᴰ v.in_step.agrees in
    (n, v.in_step.live.pool.in_use ∙ (length-map (λ entry. entry.1.node) (tracked b) ∙ sym n))

-- The books that a sequence of operations reaches from a new one. A refused order changes nothing.
pub data Reach (capacity : ℕ) (brk : Ptr) : OrderBook → Type 0 where
  opened : Reach capacity brk (new_book capacity brk)
  submitted :
      {b b' : OrderBook} (id : OrderId) (side : Side) (price : Price) (quantity : Quantity)
      (trades : List Trade)
      → Reach capacity brk b
      → HasRoom b
      → add_limit_order id side price quantity b ≡ ok (trades, b')
      → Reach capacity brk b'
  withdrawn :
      {b b' : OrderBook} (id : OrderId) (found : Bool)
      → Reach capacity brk b
      → cancel_order id b ≡ ok (found, b')
      → Reach capacity brk b'

pub same_book :
    {A : Type 0} {x y : A} {b c : OrderBook} {r : Result (A × OrderBook)}
    → r ≡ ok (x, b)
    → r ≡ ok (y, c)
    → b ≡ c
same_book h k = cc

submitted-IsConsistent :
    {b b' : OrderBook} (id : OrderId) (side : Side) (price : Price) (quantity : Quantity)
    (trades : List Trade)
    → IsConsistent b
    → HasRoom b
    → add_limit_order id side price quantity b ≡ ok (trades, b')
    → IsConsistent b'
submitted-IsConsistent {b} id side price quantity trades v room h =
    elim (Bool-cases (is_positive quantity)) [
      | inr bad ↦ absurd (refused (refused_quantity id side price quantity b bad) h)
      | inl good ↦ elim (Option-cases (lookup id b.locations)) [
        | inr (loc, known) ↦ absurd (doubled (refused_id id side price quantity b loc good known) h)
        | inl fresh ↦
            let (ts, c, e, w) =
              add_limit_order-IsConsistent id side price quantity b v room good fresh in
            subst IsConsistent (same_book e h) w
      ]
    ]
  where
    refused : {A : Type 0} {a : A} {r : Result A} → r ≡ invalid_quantity → r ≡ ok a → ⊥
    refused e k = cc

    doubled : {A : Type 0} {a : A} {r : Result A} → r ≡ duplicate_id → r ≡ ok a → ⊥
    doubled e k = cc

-- Every book that a sequence of accepted orders and of cancellations reaches from a new one, whose
-- initial capacity is below 2 ^ 64 and whose first address is not zero, with room for one more
-- chunk in the pool's counter at each accepted order, is consistent: it is well formed, its index
-- holds exactly the id, side, price and address of each node on its levels, no id twice, and the
-- blocks in use of its well-formed pool are exactly the nodes' addresses.
pub Reach-IsConsistent :
    {capacity : ℕ} {brk : Ptr} {b : OrderBook}
    → capacity < 2 ^ 64
    → 0 < brk
    → Reach capacity brk b
    → IsConsistent b
Reach-IsConsistent {capacity} {brk} fits positive opened =
    new_book-IsConsistent capacity brk fits positive
Reach-IsConsistent fits positive (submitted id side price quantity trades r room h) =
    submitted-IsConsistent id side price quantity trades (Reach-IsConsistent fits positive r) room h
Reach-IsConsistent fits positive (withdrawn {b} id found r h) =
    let (f, c, e, named, index, gone, w) =
      cancel_order-IsConsistent id b (Reach-IsConsistent fits positive r) in
    subst IsConsistent (same_book e h) w
