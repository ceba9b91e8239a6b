-- ===== src/LinkedBook/Reads.antt =====
-- The queries and the destructor on linked nodes against `Book`.
use lowlatency_exec_core.Book.Tracked.{side_entries, entries}
use lowlatency_exec_core.Book.Consistent.{IsConsistent}
use lowlatency_exec_core.LinkedBook.Fuel.{counted, length-entries}
use lowlatency_exec_core.Nodes.Linked.{IsQueue}
use lowlatency_exec_core.Common.{
  ℕ, ◌≡◌, refl, ap, some, [], ◌∷◌, length, ◌<◌, arith, Option-cases, inl, inr, Bool-cases, subst,
  length-append,
}
use lowlatency_exec_core.Types.{Side, buy, sell, Price}
use lowlatency_exec_core.Slab.{SlabAllocator}
use lowlatency_exec_core.Levels.{Levels, find, same_price}
use lowlatency_exec_core.Levels
use lowlatency_exec_core.Nodes.{Nodes, PriceLevel, sum_quantity}
use lowlatency_exec_core.Nodes.Reads.{level_loops, release}
use lowlatency_exec_core.Book.{levels_of}
use lowlatency_exec_core.Book
use lowlatency_exec_core.Book.Queries
use lowlatency_exec_core.Book.Destroy
use lowlatency_exec_core.LinkedBook
use lowlatency_exec_core.LinkedBook.{OrderBook, SideLevels}
use lowlatency_exec_core.LinkedBook.Queries.{
  first_price, quantity_at, orders_at, depth, bid_levels, ask_levels, best_bid, best_ask,
  order_count, destroy, destroy_levels,
}
use lowlatency_exec_core.LinkedBook.Stands.{Stands, find-none, find-IsQueue}
use lowlatency_exec_core.LinkedBook.Represents.{Represents}
use lowlatency_exec_core.LinkedBook.Orders.{levels_of-Stands}

first_price-Stands :
    (m : Nodes) (ks : SideLevels) (ls : Levels)
    → Stands m ks ls
    → first_price ks ≡ Queries.first_price ls
first_price-Stands m [] [] v = refl
first_price-Stands m [] (l ∷ ls) v = absurd v
first_price-Stands m (k ∷ ks) [] v = absurd v
first_price-Stands m ((p, level) ∷ ks) ((q, ns) ∷ ls) v = ap some v.0

-- Each level has less nodes than the fuel.
abbrev pub Shallow : ℕ → Levels → Type 0
Shallow fuel [] = Unit
Shallow fuel ((p, ns) ∷ ls) = (length ns < fuel) × Shallow fuel ls

Shallow-find :
    (fuel : ℕ) (p : Price) (ls : Levels) (ns : Levels.PriceLevel)
    → Shallow fuel ls
    → find p ls ≡ some ns
    → length ns < fuel
unfolding find
Shallow-find fuel p [] ns h e = cc
Shallow-find fuel p ((q, ms) ∷ ls) ns h e = elim (Bool-cases (same_price p q)) [
  | inl here ↦
      let same : some ms ≡ some ns = rw here at e in
      let named : ms ≡ ns = cc in subst (λ xs. length xs < fuel) named h.0
  | inr past ↦ Shallow-find fuel p ls ns h.1 (rw past at e)
]

module _ (fuel : ℕ) (m : Nodes) (pool : SlabAllocator) where
  sums :
      (level : PriceLevel) (ns : Levels.PriceLevel)
      → IsQueue m level ns
      → length ns < fuel
      → sum_quantity fuel m level ≡ some (Levels.sum_quantity ns)
  sums level ns v h = (level_loops fuel m level ns pool v h).0

  depth-Stands :
      (ks : SideLevels) (ls : Levels)
      → Stands m ks ls
      → Shallow fuel ls
      → depth fuel m ks ≡ some (Queries.depth ls)
  unfolding depth Queries.depth
  depth-Stands [] [] v h = refl
  depth-Stands [] (l ∷ ls) v h = absurd v
  depth-Stands (k ∷ ks) [] v h = absurd v
  depth-Stands ((p, level) ∷ ks) ((q, ns) ∷ ls) v h =
      rw (← v.0, sums level ns v.1 h.0, depth-Stands ks ls v.2 h.1, depth) refl

  destroy_levels-Stands :
      (ks : SideLevels) (ls : Levels) (pool' : SlabAllocator)
      → Stands m ks ls
      → Shallow fuel ls
      → destroy_levels fuel m ks pool' ≡ some (Destroy.release_levels ls pool')
  unfolding destroy_levels Destroy.release_levels
  destroy_levels-Stands [] [] pool' v h = refl
  destroy_levels-Stands [] (l ∷ ls) pool' v h = absurd v
  destroy_levels-Stands (k ∷ ks) [] pool' v h = absurd v
  destroy_levels-Stands ((p, level) ∷ ks) ((q, ns) ∷ ls) pool' v h =
      let loops = level_loops fuel m level ns pool' v.1 h.0 in
      rw (loops.2, destroy_levels) (destroy_levels-Stands ks ls (release ns pool') v.2 h.1)

Shallow-bound :
    (fuel : ℕ) (s : Side) (ls : Levels) → length (side_entries s ls) < fuel → Shallow fuel ls
Shallow-bound fuel s [] h = tt
Shallow-bound fuel s ((p, ns) ∷ ls) h =
    let parts = length-append (entries s p ns) (side_entries s ls) in
    let count = length-entries s p ns in
    (omega (arith, h, parts, count), Shallow-bound fuel s ls (omega (arith, h, parts, count)))

module _ (fuel : ℕ) (l : OrderBook) (b : Book.OrderBook) (v : Represents l b) (c : IsConsistent b)
    (enough : length l.locations < fuel) where
  Shallow-sides : Shallow fuel b.bids × Shallow fuel b.asks
  Shallow-sides =
      let total = counted b c in
      let same = ap length v.locations in
      (
        Shallow-bound fuel buy b.bids (omega (arith, total, same, enough)),
        Shallow-bound fuel sell b.asks (omega (arith, total, same, enough)),
      )

  Shallow-levels_of : (s : Side) → Shallow fuel (levels_of s b)
  Shallow-levels_of buy = Shallow-sides.0
  Shallow-levels_of sell = Shallow-sides.1

  pub quantity_at-Represents :
      (side : Side) (price : Price)
      → quantity_at fuel side price l ≡ some (Queries.quantity_at side price b)
  unfolding quantity_at Queries.quantity_at
  quantity_at-Represents side price =
      let stands = levels_of-Stands l b v side in
      elim (Option-cases (find price (levels_of side b))) [
        | inl absent ↦
            rw
              (
                absent,
                find-none l.nodes price (LinkedBook.levels_of side l) (levels_of side b) stands
                    absent,
                quantity_at,
                Queries.quantity_at,
              )
              refl
        | inr (ns, found) ↦
            let (level, there, q) =
              find-IsQueue l.nodes price (LinkedBook.levels_of side l) (levels_of side b) ns stands
                found in
            let few =
              Shallow-find fuel price (levels_of side b) ns (Shallow-levels_of side) found in
            rw (found, there, quantity_at, Queries.quantity_at)
              (level_loops fuel l.nodes level ns l.node_pool q few).0
      ]

  pub orders_at-Represents :
      (side : Side) (price : Price)
      → orders_at fuel side price l ≡ some (Queries.orders_at side price b)
  unfolding orders_at Queries.orders_at
  orders_at-Represents side price =
      let stands = levels_of-Stands l b v side in
      elim (Option-cases (find price (levels_of side b))) [
        | inl absent ↦
            rw
              (
                absent,
                find-none l.nodes price (LinkedBook.levels_of side l) (levels_of side b) stands
                    absent,
                orders_at,
                Queries.orders_at,
              )
              refl
        | inr (ns, found) ↦
            let (level, there, q) =
              find-IsQueue l.nodes price (LinkedBook.levels_of side l) (levels_of side b) ns stands
                found in
            let few =
              Shallow-find fuel price (levels_of side b) ns (Shallow-levels_of side) found in
            rw (found, there, orders_at, Queries.orders_at)
              (level_loops fuel l.nodes level ns l.node_pool q few).1
      ]

  -- On a linked book that represents a consistent book of lists, with more fuel than the book has
  -- orders, all queries end with the answers that the lists give, and the destructor with the pool
  -- that it leaves of the lists.
  pub queries-Represents :
      (side : Side) (price : Price)
      → (best_bid l ≡ Queries.best_bid b)
        × (best_ask l ≡ Queries.best_ask b)
        × (order_count l ≡ Queries.order_count b)
        × (quantity_at fuel side price l ≡ some (Queries.quantity_at side price b))
        × (orders_at fuel side price l ≡ some (Queries.orders_at side price b))
        × (bid_levels fuel l ≡ some (Queries.bid_levels b))
        × (ask_levels fuel l ≡ some (Queries.ask_levels b))
        × (destroy fuel l ≡ some (Destroy.destroy b))
  unfolding best_bid best_ask Queries.best_bid Queries.best_ask order_count Queries.order_count
      bid_levels ask_levels Queries.bid_levels Queries.ask_levels destroy Destroy.destroy
  queries-Represents side price = (
    first_price-Stands l.nodes l.bids b.bids v.bids,
    first_price-Stands l.nodes l.asks b.asks v.asks,
    ap length v.locations,
    quantity_at-Represents side price,
    orders_at-Represents side price,
    depth-Stands fuel l.nodes l.node_pool l.bids b.bids v.bids Shallow-sides.0,
    depth-Stands fuel l.nodes l.node_pool l.asks b.asks v.asks Shallow-sides.1,
    rw
        (
          v.node_pool,
          destroy_levels-Stands fuel l.nodes l.node_pool l.bids b.bids b.node_pool v.bids
              Shallow-sides.0,
          destroy,
        )
        (destroy_levels-Stands fuel l.nodes l.node_pool l.asks b.asks
          (Destroy.release_levels b.bids b.node_pool) v.asks Shallow-sides.1),
  )
