-- ===== src/Book/Lots.antt =====
-- Lots through a whole `add_limit_order`: what an accepted order takes from the other side and
-- leaves on its own.
use lowlatency_exec_core.Book.Lookup.{
  level_at-none, level_at_here, level_at_past, apart_prices, find-before,
}
use lowlatency_exec_core.Common.{
  arith, All-weaken, ◌≡◌, refl, true, none, [], ◌∷◌, ◌++◌, List, Bool-cases, inl, inr,
}
use lowlatency_exec_core.Common.Int.{eq_of_parts, ◌+ℤ◌, pos_part, int_laws}
use lowlatency_exec_core.Types.{Side, OrderId, Price, Quantity, Trade}
use lowlatency_exec_core.Levels.{OrderNode, PriceLevel, Levels, before, find, level_at, put_level}
use lowlatency_exec_core.Locations.{lookup}
use lowlatency_exec_core.Book.{
  OrderBook, Taker, is_positive, opposite, levels_of, engine_of, execute, add_limit_order, ok,
}
use lowlatency_exec_core.Book.Valid.{IsSorted, before_trans, before_neither}
use lowlatency_exec_core.Book.Sides.{
  taker, accepted, sweep_of, execute_trades, execute-opposite, execute_own_filled,
  execute_own_rested, rested, settled,
}
use lowlatency_exec_core.Book.Invariant.{IsBook, to_Sided}
use lowlatency_exec_core.Book.Matching.{sweep_nonneg}
use lowlatency_exec_core.Book.Conservation.{traded, resting, resting_level, sweep-Balanced, ◌≈◌}

resting_level-snoc :
    (level : PriceLevel) (n : OrderNode)
    → resting_level (level ++ n ∷ []) ≈ resting_level level +ℤ n.order.quantity
resting_level-snoc [] n = omega int_laws
resting_level-snoc (m ∷ level) n = omega (int_laws, resting_level-snoc level n)

-- A level that is put takes the place of the one at its price.
resting-put_level :
    (s : Side) (p : Price) (l : PriceLevel) (ls : Levels)
    → IsSorted s ls
    → resting (put_level s p l ls) +ℤ resting_level (level_at p ls) ≈ resting ls +ℤ resting_level l
unfolding put_level
resting-put_level s p l [] v = rw (level_at-none p [] (unfold find in refl)) (omega int_laws)
resting-put_level s p l ((q, m) ∷ ls) v = elim (Bool-cases (before s p q)) [
  | inl first ↦
      rw
        (
          first,
          level_at-none p ((q, m) ∷ ls) (
              find-before s p ((q, m) ∷ ls)
                (first, All-weaken (λ entry k. before_trans s p q entry.0 first k) ls v.0)),
        )
        (omega int_laws)
  | inr later ↦ elim (Bool-cases (before s q p)) [
    | inl behind ↦
        rw (later, behind, level_at_past p q m ls (apart_prices s p q behind))
          (omega (int_laws, resting-put_level s p l ls v.1))
    | inr here ↦
        rw (later, here, before_neither s p q later here, level_at_here q m ls) (omega int_laws)
  ]
]

module _ (t : Taker) (quantity : Quantity) (b : OrderBook) where
  other_lots :
      traded (execute t quantity b).0
        +ℤ resting (levels_of (opposite t.side) (execute t quantity b).1)
      ≈ resting (levels_of (opposite t.side) b)
  other_lots =
      rw (execute_trades t quantity b, execute-opposite t quantity b)
        (sweep-Balanced t quantity (levels_of (opposite t.side) b) (engine_of b)).given

  own_lots :
      IsSorted t.side (levels_of t.side b)
      → is_positive quantity ≡ true
      → traded (execute t quantity b).0 +ℤ resting (levels_of t.side (execute t quantity b).1)
        ≈ resting (levels_of t.side b) +ℤ quantity
  own_lots v good =
      let r = sweep_of t quantity b in
      let taken = (sweep-Balanced t quantity (levels_of (opposite t.side) b) (engine_of b)).taken in
      rw (execute_trades t quantity b) (elim (Bool-cases (is_positive r.remaining)) [
        | inl more ↦ rw (execute_own_rested t quantity b more) (
            omega (
              int_laws,
              taken,
              resting-put_level t.side t.price
                  (level_at t.price (levels_of t.side b)
                    ++ rested t r.remaining (settled t quantity b) ∷ [])
                  (levels_of t.side b) v,
              resting_level-snoc (level_at t.price (levels_of t.side b))
                  (rested t r.remaining (settled t quantity b)),
            ))
        | inr done ↦
            let zero_left : pos_part r.remaining ≡ 0 = ground (arith, done) in
            let nonneg =
              sweep_nonneg t quantity (levels_of (opposite t.side) b) (engine_of b)
                (ground (arith, good)) in
            rw (execute_own_filled t quantity b done) (omega (int_laws, taken, zero_left, nonneg))
      ])

-- Over a well-formed book, an order with a positive quantity and an id that the book does not track
-- is accepted; the lots of its trades leave the other side, and its own side gains exactly the lots
-- that were not traded.
pub add_limit_order-resting :
    (id : OrderId) (side : Side) (price : Price) (quantity : Quantity) (b : OrderBook)
    → IsBook b
    → is_positive quantity ≡ true
    → lookup id b.locations ≡ none
    → (trades : List Trade) × (b' : OrderBook) × (add_limit_order id side price quantity b
        ≡ ok (trades, b'))
      × (traded trades +ℤ resting (levels_of (opposite side) b')
          ≡ resting (levels_of (opposite side) b))
      × (traded trades +ℤ resting (levels_of side b') ≡ resting (levels_of side b) +ℤ quantity)
add_limit_order-resting id side price quantity b v good fresh =
    let t = taker id side price in
    (
      _,
      _,
      accepted id side price quantity b good fresh,
      eq_of_parts _ _ (other_lots t quantity b),
      eq_of_parts _ _ (own_lots t quantity b (to_Sided side v).own_side.sorted good),
    )
