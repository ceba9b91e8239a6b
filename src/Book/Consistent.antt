-- ===== src/Book/Consistent.antt =====
-- A consistent book: well formed, and with its index and its pool in step with its nodes. Both
-- operations keep it so, and no cancellation faults.
use mathlib.Core.List.Permᴰ
use lowlatency_exec_core.Common.{
  Permᴰ, ◌≡◌, ◌^◌, inr, List, ◌∷◌, ◌+◌, inl, none, ◌∙◌, some, sym, Option-cases, subst, ◌<◌, true,
  ℕ,
}
use lowlatency_exec_core.Slab.{Ptr}
use lowlatency_exec_core.Slab.Used.{construct-IsLive}
use lowlatency_exec_core.Types.{Side, buy, sell, OrderId, Price, Quantity, Trade}
use lowlatency_exec_core.Levels.{PriceLevel, node_layout}
use lowlatency_exec_core.Locations.{OrderLocation, lookup}
use lowlatency_exec_core.Book.{OrderBook, new_book, is_positive, add_limit_order, ok}
use lowlatency_exec_core.Book.Sides.{taker, accepted}
use lowlatency_exec_core.Book.Invariant.{IsBook, execute-IsBook, new_book-IsBook, to_Sided}
use lowlatency_exec_core.Book.Cancel.{cancelled, Located, forgotten}
use lowlatency_exec_core.Book.Tracked.{side_entries, location, lookup-Tracks}
use lowlatency_exec_core.Book.Agreement.{IsTracked, tracked}
use lowlatency_exec_core.Book.Executed.{execute-IsTracked}
use lowlatency_exec_core.Book.Untracked.{lookup-append, InSide, without}
use lowlatency_exec_core.Book.Removable.{side_lookup, Distinct-blocks}

pub record IsConsistent (b : OrderBook) : Type 0 where
  pub formed : IsBook b
  pub in_step : IsTracked b

-- The pool can add one more chunk without overflowing its counter of blocks.
abbrev pub HasRoom : OrderBook → Type 0
HasRoom b = b.node_pool.total_capacity + b.node_pool.chunk_size < 2 ^ 64

-- New
pub new_book-IsConsistent :
    (capacity : ℕ) (brk : Ptr) → capacity < 2 ^ 64 → 0 < brk → IsConsistent (new_book capacity brk)
unfolding new_book
new_book-IsConsistent capacity brk fits positive = record {
  formed = new_book-IsBook capacity brk;
  in_step = record {
    agrees = Permᴰ.nil;
    distinct = tt;
    live = construct-IsLive node_layout capacity brk fits positive;
  };
}

-- A consistent book with room for one more chunk in the pool's counter accepts an order with a
-- positive quantity and an id that it does not track, and is consistent afterwards.
pub add_limit_order-IsConsistent :
    (id : OrderId) (side : Side) (price : Price) (quantity : Quantity) (b : OrderBook)
    → IsConsistent b
    → HasRoom b
    → is_positive quantity ≡ true
    → lookup id b.locations ≡ none
    → (trades : List Trade) × (b' : OrderBook) × (add_limit_order id side price quantity b
        ≡ ok (trades, b'))
      × IsConsistent b'
add_limit_order-IsConsistent id side price quantity b v room good fresh = (
  _,
  _,
  accepted id side price quantity b good fresh,
  record {
    formed = execute-IsBook (taker id side price) quantity b v.formed;
    in_step =
        execute-IsTracked (taker id side price) quantity b (to_Sided side v.formed).own_side.sorted
          fresh room v.in_step;
  },
)

-- The tracked order `id` can be cancelled, and its entry is the one that goes.
unfoldable pub Cancellable : OrderBook → OrderId → OrderLocation → Type 0
Cancellable b id loc =
    (level : PriceLevel) × (rest : PriceLevel) × Located loc (forgotten id b) level rest
    × Permᴰ (tracked b) ((id, loc) ∷ tracked (cancelled id b loc rest))

module _ (b : OrderBook) (id : OrderId) where
  of_bids : (loc : OrderLocation) → InSide buy b.bids id loc → Cancellable b id loc
  unfolding Cancellable
  of_bids loc (p, at, level, rest, named, found, out, perm) =
      subst (Cancellable b id) (sym named)
        (level, rest, (found, out), Permᴰ.append_right (side_entries sell b.asks) perm)

  of_asks : (loc : OrderLocation) → InSide sell b.asks id loc → Cancellable b id loc
  unfolding Cancellable
  of_asks loc (p, at, level, rest, named, found, out, perm) = subst (Cancellable b id) (sym named) (
    level,
    rest,
    (found, out),
    Permᴰ.trans (Permᴰ.append_left (side_entries buy b.bids) perm) (
        Permᴰ.middle (id, location sell p at) (side_entries buy b.bids)
          (side_entries sell (without sell p rest b.asks))),
  )

  pub cancellable :
      IsConsistent b
      → (loc : OrderLocation) → lookup id b.locations ≡ some loc
      → Cancellable b id loc
  cancellable v loc known =
      let bids = side_entries buy b.bids in
      let asks = side_entries sell b.asks in
      let parts = Distinct-blocks bids asks v.in_step.live.pool.distinct_used in
      let found = sym (lookup-append id bids asks) ∙ (sym (lookup-Tracks id v.in_step) ∙ known) in
      elim (Option-cases (lookup id bids)) [
        | inr (l, e) ↦
            let same : some l ≡ some loc = rw e at found in
            of_bids loc (side_lookup buy b.bids id loc v.formed.bids.sorted parts.0 (e ∙ same))
        | inl none_here ↦
            let later : lookup id asks ≡ some loc = rw none_here at found in
            of_asks loc (side_lookup sell b.asks id loc v.formed.asks.sorted parts.1 later)
      ]
