-- ===== src/Book/Invariant.antt =====
-- The invariant of the book, both sides well formed and the book not crossed, through the arrival
-- of an order.
use lowlatency_exec_core.Locations.{OrderLocation, lookup}
use lowlatency_exec_core.Slab.{Ptr}
use lowlatency_exec_core.Common.{
  ◌≡◌, refl, true, false, [], ◌∷◌, ◌++◌, Bool-cases, Option-cases, inl, inr, All, All-weaken,
  All-append, ℕ, List, some, none, ◌⊎◌,
}
use lowlatency_exec_core.Common.Int.{ltb_ℤ}
use lowlatency_exec_core.Types.{Side, buy, sell, Price, Quantity, OrderId, Trade}
use lowlatency_exec_core.Levels.{OrderNode, PriceLevel, Levels, is_empty, find, level_at, put_level}
use lowlatency_exec_core.Book.{
  OrderBook, Taker, is_positive, too_far, opposite, levels_of, execute, engine_of, new_book,
  add_limit_order, ok, duplicate_id, invalid_quantity,
}
use lowlatency_exec_core.Book.Valid.{
  IsResting, IsLevel, IsSide, Prices, Prices-put_level, IsSorted-put_level, All-put_level, All-find,
}
use lowlatency_exec_core.Book.Sides.{
  sweep_of, execute-opposite, execute_own_filled, execute_own_rested, taker, accepted,
  refused_quantity, refused_id,
}
use lowlatency_exec_core.Book.Matching.{sweep-Prices, sweep-IsSide, sweep_uncrossed}

pub record IsBook (b : OrderBook) : Type 0 where
  pub bids : IsSide buy b.bids
  pub asks : IsSide sell b.asks
  -- every bid is below every ask
  pub uncrossed : Prices (λ bid. Prices (λ ask. ltb_ℤ bid ask ≡ true) b.asks) b.bids

-- The same, as an order on side `s` sees it.
pub record Sided (s : Side) (own other : Levels) : Type 0 where
  pub own_side : IsSide s own
  pub other_side : IsSide (opposite s) other
  pub apart : Prices (λ p. Prices (λ q. too_far s p q ≡ true) other) own

-- A fact about each pair of prices, read from the other side.
Prices-head {κ} :
    (Q : Price → Price → Type κ) (q : Price) (l : PriceLevel) (xs ys : Levels)
    → Prices (λ p. Prices (Q p) ((q, l) ∷ ys)) xs
    → Prices (λ p. Q p q) xs × Prices (λ p. Prices (Q p) ys) xs
Prices-head Q q l [] ys h = (tt, tt)
Prices-head Q q l (x ∷ xs) ys h =
    let rest = Prices-head Q q l xs ys h.1 in ((h.0.0, rest.0), (h.0.1, rest.1))

Prices-swap {κ} :
    (Q : Price → Price → Type κ) (xs ys : Levels)
    → Prices (λ p. Prices (Q p) ys) xs
    → Prices (λ q. Prices (λ p. Q p q) xs) ys
Prices-swap Q xs [] h = tt
Prices-swap Q xs ((q, l) ∷ ys) h =
    let parts = Prices-head Q q l xs ys h in (parts.0, Prices-swap Q xs ys parts.1)

pub to_Sided :
    (s : Side) {b : OrderBook} → IsBook b → Sided s (levels_of s b) (levels_of (opposite s) b)
to_Sided buy v = record { own_side = v.bids; other_side = v.asks; apart = v.uncrossed }
to_Sided sell v = record {
  own_side = v.asks;
  other_side = v.bids;
  apart = Prices-swap (λ bid ask. ltb_ℤ bid ask ≡ true) _ _ v.uncrossed;
}

pub of_Sided :
    (s : Side) {b : OrderBook} → Sided s (levels_of s b) (levels_of (opposite s) b) → IsBook b
of_Sided buy v = record { bids = v.own_side; asks = v.other_side; uncrossed = v.apart }
of_Sided sell v = record {
  bids = v.other_side;
  asks = v.own_side;
  uncrossed = Prices-swap (λ ask bid. ltb_ℤ bid ask ≡ true) _ _ v.apart;
}

All-level_at : (p : Price) (ls : Levels) → All IsLevel ls → All (IsResting p) (level_at p ls)
unfolding level_at
All-level_at p ls h = elim (Option-cases (find p ls)) [
  | inl absent ↦ rw (absent, level_at) tt
  | inr (level, found) ↦ rw (found, level_at) (All-find IsLevel p ls found h).1
]

is_empty-snoc : (level : PriceLevel) (n : OrderNode) → is_empty (level ++ n ∷ []) ≡ false
is_empty-snoc [] n = refl
is_empty-snoc (m ∷ level) n = refl

-- A new order at the back of its level keeps the side well formed.
IsSide-rest :
    (s : Side) (p : Price) (n : OrderNode) (ls : Levels)
    → IsResting p n
    → IsSide s ls
    → IsSide s (put_level s p (level_at p ls ++ n ∷ []) ls)
IsSide-rest s p n ls h v = record {
  sorted = IsSorted-put_level s p _ ls v.sorted;
  levels =
      All-put_level s p _ IsLevel ls
        (
          is_empty-snoc (level_at p ls) n,
          All-append (IsResting p) (level_at p ls) (n ∷ []) (All-level_at p ls v.levels) (h, tt),
        )
        v.levels;
}

module _ (t : Taker) (quantity : Quantity) (b : OrderBook) (v : IsBook b) where
  abbrev sides : Sided t.side (levels_of t.side b) (levels_of (opposite t.side) b)
  sides = to_Sided t.side v

  -- The levels that the order leaves on the other side.
  abbrev other : Levels
  other = (sweep_of t quantity b).rest

  other-IsSide : IsSide (opposite t.side) other
  other-IsSide =
      sweep-IsSide (opposite t.side) t quantity (levels_of (opposite t.side) b) (engine_of b)
        sides.other_side

  still_apart : Prices (λ p. Prices (λ q. too_far t.side p q ≡ true) other) (levels_of t.side b)
  still_apart =
      All-weaken
        (λ entry.
          sweep-Prices (λ q. too_far t.side entry.0 q ≡ true) t quantity
            (levels_of (opposite t.side) b) (engine_of b))
        (levels_of t.side b) sides.apart

  pub execute-IsBook : IsBook (execute t quantity b).1
  execute-IsBook = of_Sided t.side (
      rw (execute-opposite t quantity b)
        (elim (Bool-cases (is_positive (sweep_of t quantity b).remaining)) [
          | inr done ↦
              rw (execute_own_filled t quantity b done) (record {
                own_side = sides.own_side;
                other_side = other-IsSide;
                apart = still_apart;
              })
          | inl more ↦ rw (execute_own_rested t quantity b more) (record {
            own_side =
                IsSide-rest t.side t.price _ (levels_of t.side b) (more, refl) sides.own_side;
            other_side = other-IsSide;
            apart =
                Prices-put_level (λ p. Prices (λ q. too_far t.side p q ≡ true) other) t.side t.price
                  _ (levels_of t.side b)
                  (sweep_uncrossed t quantity (levels_of (opposite t.side) b) (engine_of b)
                    sides.other_side.sorted more)
                  still_apart;
          })
        ]))

pub new_book-IsBook : (capacity : ℕ) (brk : Ptr) → IsBook (new_book capacity brk)
unfolding new_book
new_book-IsBook capacity brk = record {
  bids = record { sorted = tt; levels = tt };
  asks = record { sorted = tt; levels = tt };
  uncrossed = tt;
}

module _ (id : OrderId) (side : Side) (price : Price) (quantity : Quantity) (b : OrderBook) where
  -- Over a well-formed book (sides sorted by price, no empty level, only orders with lots in the
  -- level of their own price, every bid below every ask), add_limit_order refuses an order whose
  -- quantity is not positive, then one whose id the book tracks; it accepts every other, and the
  -- book that it leaves is well formed.
  pub add_limit_order-IsBook :
      IsBook b
      → ((is_positive quantity ≡ false)
          × (add_limit_order id side price quantity b ≡ invalid_quantity))
        ⊎ (((loc : OrderLocation) × (is_positive quantity ≡ true)
              × (lookup id b.locations ≡ some loc)
              × (add_limit_order id side price quantity b ≡ duplicate_id))
            ⊎ ((trades : List Trade) × (b' : OrderBook) × (is_positive quantity ≡ true)
                × (lookup id b.locations ≡ none)
                × (add_limit_order id side price quantity b ≡ ok (trades, b'))
                × IsBook b'))
  add_limit_order-IsBook v = elim (Bool-cases (is_positive quantity)) [
    | inr bad ↦ inl (bad, refused_quantity id side price quantity b bad)
    | inl good ↦ inr (elim (Option-cases (lookup id b.locations)) [
      | inr (loc, known) ↦
          inl (loc, good, known, refused_id id side price quantity b loc good known)
      | inl fresh ↦ inr (
        _,
        _,
        good,
        fresh,
        accepted id side price quantity b good fresh,
        execute-IsBook (taker id side price) quantity b v,
      )
    ])
  ]
