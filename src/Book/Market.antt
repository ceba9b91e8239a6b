-- ===== src/Book/Market.antt =====
-- What the queries of src/order_book.cpp say of a book together.
use lowlatency_exec_core.Common.{
  ◌≡◌, refl, Bool, true, false, Option, none, some, List, [], ◌∷◌, length, arith, All,
  if◌then◌else◌, Bool-cases, inl, inr,
}
use lowlatency_exec_core.Common.Int.{pos, ◌+ℤ◌, leb_ℤ, ltb_ℤ}
use lowlatency_exec_core.Types.{Side, buy, sell, Price, Quantity}
use lowlatency_exec_core.Slab.{used_blocks}
use lowlatency_exec_core.Levels.{
  PriceLevel, Levels, find, before, same_price, sum_from, sum_quantity,
}
use lowlatency_exec_core.Book.{OrderBook, is_positive, levels_of}
use lowlatency_exec_core.Book.Queries.{
  first_price, best_bid, best_ask, quantity_at, order_count, depth, bid_levels, ask_levels,
}
use lowlatency_exec_core.Book.Checked.{sum_quantity_checked, depth_checked, quantity_at_checked}
use lowlatency_exec_core.Book.Depth.{SumsFit, sum_quantity_fits, depth_checked-depth}
use lowlatency_exec_core.Book.Valid.{IsSorted, IsResting, IsLevel, Prices}
use lowlatency_exec_core.Book.Agreement.{tracked}
use lowlatency_exec_core.Book.Reachable.{order_count-used_blocks}
use lowlatency_exec_core.Book.Consistent.{IsConsistent}

-- The best bid is at or above the best ask.
abbrev pub crossed : Option Price → Option Price → Bool
crossed (some bid) (some ask) = leb_ℤ ask bid
crossed (some bid) none = false
crossed none ask = false

-- The best price first, and lots at each.
abbrev pub IsLadder : Side → List (Price × Quantity) → Type 0
IsLadder s [] = Unit
IsLadder s ((p, total) ∷ ls) =
    (is_positive total ≡ true) × All (λ entry. before s p entry.0 ≡ true) ls × IsLadder s ls

abbrev pub first_of : List (Price × Quantity) → Option Price
first_of [] = none
first_of ((p, total) ∷ ls) = some p

-- The total that a list of levels has at a price.
abbrev pub total_at : Price → List (Price × Quantity) → Quantity
total_at p [] = pos 0
total_at p ((q, total) ∷ ls) = if same_price p q then total else total_at p ls

abbrev pub ladder : Side → OrderBook → List (Price × Quantity)
ladder buy b = bid_levels b
ladder sell b = ask_levels b

add_positive :
    (a b : Quantity) → leb_ℤ (pos 0) a ≡ true → is_positive b ≡ true → is_positive (a +ℤ b) ≡ true
unfolding ◌+ℤ◌
add_positive a b h k = ground arith

sum_from_positive :
    (p : Price) (total : Quantity) (ns : PriceLevel)
    → is_positive total ≡ true
    → All (IsResting p) ns
    → is_positive (sum_from total ns) ≡ true
unfolding sum_from
sum_from_positive p total [] h v = h
sum_from_positive p total (n ∷ ns) h v =
    sum_from_positive p (total +ℤ n.order.quantity) ns
      (add_positive total n.order.quantity (ground (arith, h)) v.0.0) v.1

sum_quantity_positive :
    (p : Price) (ns : PriceLevel) → IsLevel (p, ns) → is_positive (sum_quantity ns) ≡ true
unfolding sum_quantity sum_from
sum_quantity_positive p [] v = cc
sum_quantity_positive p (n ∷ ns) v =
    sum_from_positive p (pos 0 +ℤ n.order.quantity) ns
      (add_positive (pos 0) n.order.quantity refl v.1.0.0) v.1.1

module _ (s : Side) where
  depth-Prices :
      (p : Price) (ls : Levels)
      → All (λ entry. before s p entry.0 ≡ true) ls
      → All (λ entry. before s p entry.0 ≡ true) (depth ls)
  unfolding depth
  depth-Prices p [] v = tt
  depth-Prices p ((q, ns) ∷ ls) v = (v.0, depth-Prices p ls v.1)

  depth-IsLadder : (ls : Levels) → IsSorted s ls → All IsLevel ls → IsLadder s (depth ls)
  unfolding depth
  depth-IsLadder [] v w = tt
  depth-IsLadder ((p, ns) ∷ ls) v w =
      (sum_quantity_positive p ns w.0, depth-Prices p ls v.0, depth-IsLadder ls v.1 w.1)

first_of-depth : (ls : Levels) → first_price ls ≡ first_of (depth ls)
unfolding depth
first_of-depth [] = refl
first_of-depth ((p, ns) ∷ ls) = refl

total_at-depth :
    (p : Price) (ls : Levels)
    → (elim (find p ls) [ none ↦ pos 0 | some level ↦ sum_quantity level ]) ≡ total_at p (depth ls)
unfolding depth find
total_at-depth p [] = refl
total_at-depth p ((q, ns) ∷ ls) = elim (Bool-cases (same_price p q)) [
  | inl here ↦ rw here refl
  | inr past ↦ rw past (total_at-depth p ls)
]

total_checked :
    (p : Price) (ls : Levels)
    → All IsLevel ls
    → SumsFit ls
    → (elim (find p ls) [ none ↦ some (pos 0) | some level ↦ sum_quantity_checked level ])
      ≡ some (total_at p (depth ls))
unfolding depth find
total_checked p [] v fits = refl
total_checked p ((q, ns) ∷ ls) v fits = elim (Bool-cases (same_price p q)) [
  | inl here ↦ rw here (sum_quantity_fits q ns v.0 fits.0)
  | inr past ↦ rw past (total_checked p ls v.1 fits.1)
]

not_crossed :
    (bids asks : Levels)
    → Prices (λ bid. Prices (λ ask. ltb_ℤ bid ask ≡ true) asks) bids
    → crossed (first_price bids) (first_price asks) ≡ false
not_crossed [] asks v = refl
not_crossed (bid ∷ bids) [] v = refl
not_crossed ((p, ns) ∷ bids) ((q, ms) ∷ asks) v = ground (arith, v.0.0)

module _ (b : OrderBook) (v : IsConsistent b) where
  ladder-IsLadder : (s : Side) → IsLadder s (ladder s b)
  unfolding bid_levels ask_levels
  ladder-IsLadder buy = depth-IsLadder buy b.bids v.formed.bids.sorted v.formed.bids.levels
  ladder-IsLadder sell = depth-IsLadder sell b.asks v.formed.asks.sorted v.formed.asks.levels

  quantity_at-ladder : (s : Side) (p : Price) → quantity_at s p b ≡ total_at p (ladder s b)
  unfolding quantity_at bid_levels ask_levels
  quantity_at-ladder buy p = total_at-depth p b.bids
  quantity_at-ladder sell p = total_at-depth p b.asks

  module _ (bids_fit : SumsFit b.bids) (asks_fit : SumsFit b.asks) where
    depth_checked-ladder : (s : Side) → depth_checked (levels_of s b) ≡ some (ladder s b)
    unfolding bid_levels ask_levels
    depth_checked-ladder buy = depth_checked-depth b.bids v.formed.bids.levels bids_fit
    depth_checked-ladder sell = depth_checked-depth b.asks v.formed.asks.levels asks_fit

    quantity_at_checked-ladder :
        (s : Side) (p : Price) → quantity_at_checked s p b ≡ some (total_at p (ladder s b))
    unfolding quantity_at_checked bid_levels ask_levels
    quantity_at_checked-ladder buy p = total_checked p b.bids v.formed.bids.levels bids_fit
    quantity_at_checked-ladder sell p = total_checked p b.asks v.formed.asks.levels asks_fit

    -- In a consistent book whose levels have less than 2 ^ 63 lots each, no sum that the queries
    -- take leaves the range of a 64-bit signed integer, and the queries agree: the best bid is not
    -- at or above the best ask, each of the two is the first entry of its list of levels, that list
    -- has the best price first and positive totals, quantity_at is the total that the list has at
    -- the price or zero, and order_count is the number of nodes on all levels and the number of the
    -- pool's blocks in use.
    pub queries_agree :
        (side : Side) (price : Price)
        → (crossed (best_bid b) (best_ask b) ≡ false)
          × (best_bid b ≡ first_of (bid_levels b))
          × (best_ask b ≡ first_of (ask_levels b))
          × (depth_checked (levels_of side b) ≡ some (ladder side b))
          × IsLadder side (ladder side b)
          × (quantity_at side price b ≡ total_at price (ladder side b))
          × (quantity_at_checked side price b ≡ some (total_at price (ladder side b)))
          × (order_count b ≡ length (tracked b))
          × (used_blocks b.node_pool ≡ order_count b)
    unfolding best_bid best_ask bid_levels ask_levels
    queries_agree side price = (
      not_crossed b.bids b.asks v.formed.uncrossed,
      first_of-depth b.bids,
      first_of-depth b.asks,
      depth_checked-ladder side,
      ladder-IsLadder side,
      quantity_at-ladder side price,
      quantity_at_checked-ladder side price,
      (order_count-used_blocks b v).0,
      (order_count-used_blocks b v).1,
    )
