-- ===== src/LinkedBook/Rests.antt =====
-- The remainder of an order that rests, on linked nodes against lists.
use lowlatency_exec_core.Common.{
  ◌≡◌, refl, sym, subst, true, false, List, ◌+◌, ◌<◌, ◌^◌, inl, inr, arith,
}
use lowlatency_exec_core.Types.{Side, buy, sell, OrderId, Price, Quantity, RestingOrder}
use lowlatency_exec_core.Slab.{Ptr, SlabAllocator}
use lowlatency_exec_core.Slab.Pool.{has, Distinct}
use lowlatency_exec_core.Slab.Used.{IsLive}
use lowlatency_exec_core.Levels.{Levels, put_level}
use lowlatency_exec_core.Levels
use lowlatency_exec_core.Nodes
use lowlatency_exec_core.Nodes.{Nodes, push_back}
use lowlatency_exec_core.Nodes.Linked.{addresses}
use lowlatency_exec_core.Nodes.Push.{Appends, push_back-Appends}
use lowlatency_exec_core.Book.{Taker, levels_of}
use lowlatency_exec_core.Book
use lowlatency_exec_core.Book.Sides.{taker}
use lowlatency_exec_core.Book.Valid.{IsSorted}
use lowlatency_exec_core.Book.Untracked.{Distinct-parts}
use lowlatency_exec_core.Book.Consistent.{HasRoom}
use lowlatency_exec_core.Book.Agreement.{IsTracked}
use lowlatency_exec_core.LinkedBook.{OrderBook, SideLevels, level_at, rest_order}
use lowlatency_exec_core.LinkedBook.Stands.{
  Stands, places, Within, Apart, Apart-sym, Within-left, Within-right, Within-out, Distinct-Apart,
  Stands-agree, level_at-IsQueue,
}
use lowlatency_exec_core.LinkedBook.Puts.{level_at-Within, Stands-put_level}
use lowlatency_exec_core.LinkedBook.Represents.{
  Represents, Represents-linked_of, IsTracked-IsLive, linked_of, all_places,
}

module _ (s : Side) (p : Price) (order : RestingOrder) (m : Nodes) (pool : SlabAllocator)
    (ks : SideLevels) (ls : Levels) (used : List Ptr) (v : Stands m ks ls) (live : IsLive pool used)
    (room : pool.total_capacity + pool.chunk_size < 2 ^ 64) (w : Within (places ls) used)
    (d : Distinct (places ls)) (sorted : IsSorted s ls) where
  abbrev pushed : Nodes.PriceLevel × Nodes × SlabAllocator × Ptr
  pushed = push_back (level_at p ks) order m pool

  abbrev listed : Levels.PriceLevel × Ptr × SlabAllocator
  listed = Levels.push_back (Levels.level_at p ls) order pool

  pub pushed-Appends : Appends m used (Levels.level_at p ls) listed pushed
  pushed-Appends =
      push_back-Appends (level_at p ks) order m pool used live room (Levels.level_at p ls)
        (level_at-IsQueue m p ks ls v) (λ q h. w q (level_at-Within p ls q h))

  -- A node in use that is not on the level is as it was.
  pushed_same :
      (q : Ptr)
      → has q used ≡ true
      → has q (addresses (Levels.level_at p ls)) ≡ false
      → pushed.1 q ≡ m q
  pushed_same q inside out = elim (pushed-Appends.3 q) [
    | inl here ↦ absurd (ground (arith, here, out))
    | inr other ↦ elim other [ inl free ↦ absurd (ground (arith, free, inside)) | inr same ↦ same ]
  ]

  pub pushed-Stands : Stands pushed.1 (put_level s p pushed.0 ks) (put_level s p listed.0 ls)
  pushed-Stands =
      Stands-put_level s p pushed.0 listed.0 m pushed.1 (pushed-Appends.0) ks ls sorted d v
        (λ q inside out. pushed_same q (w q inside) out)

  pub pushed_other :
      (xs : SideLevels) (ys : Levels)
      → Stands m xs ys
      → Within (places ys) used
      → Apart (places ys) (places ls)
      → Stands pushed.1 xs ys
  pushed_other xs ys u into apart =
      Stands-agree m pushed.1 xs ys
        (λ q h. pushed_same q (into q h) (
          Within-out (addresses (Levels.level_at p ls)) (places ls) (level_at-Within p ls) q
            (apart q h)))
        u

module _ (id : OrderId) (p : Price) (r : Quantity) (bids asks : SideLevels) (m : Nodes)
    (b : Book.OrderBook) (vb : Stands m bids b.bids) (va : Stands m asks b.asks)
    (live : IsLive b.node_pool (all_places b)) (room : HasRoom b) where
  abbrev order : RestingOrder
  order = record { id = id; price = p; quantity = r; sequence = b.next_sequence }

  abbrev parts : Distinct (places b.bids) × Distinct (places b.asks)
  parts = Distinct-parts (places b.bids) (places b.asks) live.pool.distinct_used

  abbrev apart : Apart (places b.bids) (places b.asks)
  apart = Distinct-Apart (places b.bids) (places b.asks) live.pool.distinct_used

  abbrev in_bids : Within (places b.bids) (all_places b)
  in_bids = Within-left (places b.bids) (places b.asks)

  abbrev in_asks : Within (places b.asks) (all_places b)
  in_asks = Within-right (places b.bids) (places b.asks)

  pub rest_order-Represents :
      (s : Side)
      → IsSorted s (levels_of s b)
      → Represents
          (rest_order (taker id s p) r (linked_of bids asks m b))
          (Book.rest_order (taker id s p) r b)
  unfolding rest_order Book.rest_order
  rest_order-Represents buy sorted =
      let a =
        pushed-Appends buy p order m b.node_pool bids b.bids (all_places b) vb live room in_bids
          (parts.0) sorted in
      record {
        bids =
            pushed-Stands buy p order m b.node_pool bids b.bids (all_places b) vb live room in_bids
              (parts.0) sorted;
        asks =
            pushed_other buy p order m b.node_pool bids b.bids (all_places b) vb live room in_bids
              (parts.0) sorted asks b.asks va in_asks
              (Apart-sym (places b.bids) (places b.asks) apart);
        locations = rw (a.2) refl;
        node_pool = a.1;
        next_sequence = refl;
      }
  rest_order-Represents sell sorted =
      let a =
        pushed-Appends sell p order m b.node_pool asks b.asks (all_places b) va live room in_asks
          (parts.1) sorted in
      record {
        bids =
            pushed_other sell p order m b.node_pool asks b.asks (all_places b) va live room in_asks
              (parts.1) sorted bids b.bids vb in_bids apart;
        asks =
            pushed-Stands sell p order m b.node_pool asks b.asks (all_places b) va live room in_asks
              (parts.1) sorted;
        locations = rw (a.2) refl;
        node_pool = a.1;
        next_sequence = refl;
      }

-- A linked book and its lists, with an order's remainder resting in both.
pub rest_order-keeps :
    (t : Taker) (r : Quantity) (l : OrderBook) (b : Book.OrderBook)
    → Represents l b
    → IsTracked b
    → HasRoom b
    → IsSorted t.side (levels_of t.side b)
    → Represents (rest_order t r l) (Book.rest_order t r b)
rest_order-keeps t r l b v tracked room sorted =
    subst (λ x. Represents (rest_order t r x) (Book.rest_order t r b))
      (sym (Represents-linked_of l b v))
      (rest_order-Represents t.id t.price r l.bids l.asks l.nodes b v.bids v.asks
        (IsTracked-IsLive b tracked) room t.side sorted)
