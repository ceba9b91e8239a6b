-- ===== src/Book/Arrival.antt =====
-- Time priority: where an accepted order stands among the orders of its price.
use lowlatency_exec_core.Common.{
  arith, ◌≡◌, ◌⊎◌, refl, ap, true, false, none, [], ◌∷◌, ◌++◌, List, Bool-cases, Option-cases, inl,
  inr,
}
use lowlatency_exec_core.Common.Int.{
  eq_of_parts, pos, pos_part, int_laws, ltb_ℤ, ◌<ℤ◌, ltb→lt_ℤ, ◌+ℤ◌,
}
use lowlatency_exec_core.Types.{Side, OrderId, Price, Quantity, Trade}
use lowlatency_exec_core.Levels.{
  OrderNode, PriceLevel, Levels, before, find, level_at, put_level, collect_ids,
}
use lowlatency_exec_core.Locations.{lookup}
use lowlatency_exec_core.Book.{
  OrderBook, Taker, is_positive, opposite, levels_of, engine_of, execute, add_limit_order, ok,
}
use lowlatency_exec_core.Book.Queries.{orders_at}
use lowlatency_exec_core.Book.Sides.{
  taker, accepted, sweep_of, execute_trades, execute_own_filled, execute_own_rested, rested,
  settled,
}
use lowlatency_exec_core.Book.Matching.{sweep_nonneg}
use lowlatency_exec_core.Book.Conservation.{traded, sweep-Balanced, ◌≈◌}
use lowlatency_exec_core.Book.Lookup.{same_price_refl, apart_prices}

-- The level that was put is the one at its price.
level_at-put_level :
    (s : Side) (p : Price) (l : PriceLevel) (ls : Levels) → level_at p (put_level s p l ls) ≡ l
unfolding put_level level_at find
level_at-put_level s p l [] = rw (same_price_refl p, level_at) refl
level_at-put_level s p l ((q, m) ∷ ls) = elim (Bool-cases (before s p q)) [
  | inl first ↦ rw first (rw (same_price_refl p, level_at) refl)
  | inr later ↦ elim (Bool-cases (before s q p)) [
    | inl behind ↦
        rw (later, behind) (rw (apart_prices s p q behind, level_at) (level_at-put_level s p l ls))
    | inr here ↦ rw (later, here) (rw (same_price_refl p, level_at) refl)
  ]
]

orders_at-level_at :
    (s : Side) (p : Price) (b : OrderBook)
    → orders_at s p b ≡ collect_ids (level_at p (levels_of s b))
unfolding orders_at level_at collect_ids
orders_at-level_at s p b = elim (Option-cases (find p (levels_of s b))) [
  | inl absent ↦ rw (absent, orders_at, level_at) refl
  | inr (l, found) ↦ rw (found, orders_at, level_at) refl
]

collect_ids-snoc :
    (level : PriceLevel) (n : OrderNode)
    → collect_ids (level ++ n ∷ []) ≡ collect_ids level ++ n.order.id ∷ []
unfolding collect_ids
collect_ids-snoc [] n = refl
collect_ids-snoc (m ∷ level) n = ap (λ ids. m.order.id ∷ ids) (collect_ids-snoc level n)

traded_less : (a r q : Quantity) → a +ℤ r ≈ q → is_positive r ≡ true → ltb_ℤ a q ≡ true
traded_less a r q h k =
    let less : a <ℤ q = omega (int_laws, h, ltb→lt_ℤ (pos 0) r k) in ground (arith, less)

module _ (t : Taker) (quantity : Quantity) (b : OrderBook) where
  -- The trades take the whole quantity exactly where nothing remains.
  pub taken_cases :
      is_positive quantity ≡ true
      → ((traded (execute t quantity b).0 ≡ quantity)
          × (is_positive (sweep_of t quantity b).remaining ≡ false))
        ⊎ ((ltb_ℤ (traded (execute t quantity b).0) quantity ≡ true)
            × (is_positive (sweep_of t quantity b).remaining ≡ true))
  taken_cases good =
      let r = sweep_of t quantity b in
      let taken = (sweep-Balanced t quantity (levels_of (opposite t.side) b) (engine_of b)).taken in
      let nonneg =
        sweep_nonneg t quantity (levels_of (opposite t.side) b) (engine_of b)
          (ground (arith, good)) in
      rw (execute_trades t quantity b) (elim (Bool-cases (is_positive r.remaining)) [
        | inl more ↦ inr (traded_less _ r.remaining quantity taken more, more)
        | inr done ↦
            let zero_left : pos_part r.remaining ≡ 0 = ground (arith, done) in
            inl (eq_of_parts _ _ (omega (int_laws, taken, zero_left, nonneg)), done)
      ])

  -- The orders at the order's price, once it is executed.
  queued :
      is_positive quantity ≡ true
      → ((traded (execute t quantity b).0 ≡ quantity)
          × (orders_at t.side t.price (execute t quantity b).1 ≡ orders_at t.side t.price b))
        ⊎ ((ltb_ℤ (traded (execute t quantity b).0) quantity ≡ true)
            × (orders_at t.side t.price (execute t quantity b).1
                ≡ orders_at t.side t.price b ++ t.id ∷ []))
  queued good =
      rw
        (
          orders_at-level_at t.side t.price (execute t quantity b).1,
          orders_at-level_at t.side t.price b,
        )
        (elim (taken_cases good) [
          | inl (whole, done) ↦ inl (whole, rw (execute_own_filled t quantity b done) refl)
          | inr (part, more) ↦ inr (
            part,
            rw
                (
                  execute_own_rested t quantity b more,
                  level_at-put_level t.side t.price _ (levels_of t.side b),
                )
                (collect_ids-snoc (level_at t.price (levels_of t.side b))
                  (rested t (sweep_of t quantity b).remaining (settled t quantity b))),
          )
        ])

-- An order with a positive quantity and an id that the book does not track is accepted, and either
-- its trades take its whole quantity and the orders on its side at its price stay as they were, or
-- they take less and the order stands behind all of those, which keep their order.
pub add_limit_order-orders_at :
    (id : OrderId) (side : Side) (price : Price) (quantity : Quantity) (b : OrderBook)
    → is_positive quantity ≡ true
    → lookup id b.locations ≡ none
    → (trades : List Trade) × (b' : OrderBook) × (add_limit_order id side price quantity b
        ≡ ok (trades, b'))
      × (((traded trades ≡ quantity) × (orders_at side price b' ≡ orders_at side price b))
          ⊎ ((ltb_ℤ (traded trades) quantity ≡ true)
              × (orders_at side price b' ≡ orders_at side price b ++ id ∷ [])))
add_limit_order-orders_at id side price quantity b good fresh = (
  _,
  _,
  accepted id side price quantity b good fresh,
  queued (taker id side price) quantity b good,
)
