-- ===== src/Book/Checked.antt =====
-- The arithmetic on `std::int64_t` of src/order_book.cpp, where an overflow is undefined: the matching
-- loops, the sum of a level and the queries that take it, with `none` where a subtraction or an addition leaves the range.
use lowlatency_exec_core.Common.{
  List, ◌≡◌, true, Option, none, some, [], ◌∷◌, ◌<◌, ◌^◌, All, if◌then◌else◌,
}
use lowlatency_exec_core.Common.Int.{pos, pos_part, min_ℤ, add_checked, sub_checked}
use lowlatency_exec_core.Types.{Side, Price, Quantity}
use lowlatency_exec_core.Levels.{PriceLevel, Levels, is_empty, find}
use lowlatency_exec_core.Book.{
  OrderBook, levels_of, Taker, Engine, Run, run_of, before_run, trade_of, is_positive, is_zero,
  too_far, retire, next_event, with_quantity,
}

-- The inner loop, where `remaining -= traded` and `resting.quantity -= traded` stay in range.
unfoldable pub fill_level_checked :
    Taker → Price → Quantity → PriceLevel → Engine → Option (Run PriceLevel)
unfolding retire
fill_level_checked t level_price remaining [] e = some (run_of [] remaining [] e)
fill_level_checked t level_price remaining (n ∷ ns) e =
    let traded = min_ℤ remaining n.order.quantity in
    let trade = trade_of t level_price traded n e.next_sequence ∷ [] in
    let matched : Option (Run PriceLevel) = elim (sub_checked remaining traded) [
      | none ↦ none
      | some left ↦ elim (sub_checked n.order.quantity traded) [
        | none ↦ none
        | some kept ↦
            let next : Option (Run PriceLevel) =
              elim (fill_level_checked t level_price left ns (retire n ns (next_event e)).1) [
                | none ↦ none
                | some f ↦ some (before_run trade f)
              ] in
            if is_zero kept
            then next
            else some (run_of trade left (with_quantity n kept ∷ ns) (next_event e))
      ]
    ] in
    if is_positive remaining then matched else some (run_of [] remaining (n ∷ ns) e)

-- The outer loop, likewise.
unfoldable pub sweep_checked : Taker → Quantity → Levels → Engine → Option (Run Levels)
unfolding fill_level_checked
sweep_checked t remaining [] e = some (run_of [] remaining [] e)
sweep_checked t remaining ((level_price, level) ∷ ls) e =
    let matched : Option (Run Levels) = elim (fill_level_checked t level_price remaining level e) [
      | none ↦ none
      | some filled ↦
          let next : Option (Run Levels) =
            elim (sweep_checked t filled.remaining ls filled.engine) [
              | none ↦ none
              | some f ↦ some (before_run filled.trades f)
            ] in
          if is_empty filled.rest
          then next
          else some (
              run_of filled.trades filled.remaining ((level_price, filled.rest) ∷ ls) filled.engine)
    ] in
    if is_positive remaining
    then (if too_far t.side t.price level_price
        then some (run_of [] remaining ((level_price, level) ∷ ls) e)
        else matched)
    else some (run_of [] remaining ((level_price, level) ∷ ls) e)

-- The running total of OrderBook::sum_quantity, where each addition stays in range.
unfoldable pub sum_from_checked : Quantity → PriceLevel → Option Quantity
sum_from_checked total [] = some total
sum_from_checked total (n ∷ ns) = elim (add_checked total n.order.quantity) [
  | none ↦ none
  | some total' ↦ sum_from_checked total' ns
]

unfoldable pub sum_quantity_checked : PriceLevel → Option Quantity
unfolding sum_from_checked
sum_quantity_checked level = sum_from_checked (pos 0) level

-- The list of the levels with their sums, and the sum at a price.
unfoldable pub depth_checked : Levels → Option (List (Price × Quantity))
unfolding sum_quantity_checked
depth_checked [] = some []
depth_checked ((p, level) ∷ ls) =
    let rest = depth_checked ls in
    elim (sum_quantity_checked level) [
      | none ↦ none
      | some total ↦ elim rest [ none ↦ none | some entries ↦ some ((p, total) ∷ entries) ]
    ]

unfoldable pub quantity_at_checked : Side → Price → OrderBook → Option Quantity
unfolding find sum_quantity_checked
quantity_at_checked side price b = elim (find price (levels_of side b)) [
  | none ↦ some (pos 0)
  | some level ↦ sum_quantity_checked level
]

-- A positive `std::int64_t`.
abbrev pub IsLots : Quantity → Type 0
IsLots q = (is_positive q ≡ true) × (pos_part q < 2 ^ 63)

abbrev pub LevelLots : PriceLevel → Type 0
LevelLots level = All (λ n. IsLots n.order.quantity) level

abbrev pub SideLots : Levels → Type 0
SideLots ls = All (λ entry. LevelLots entry.1) ls
