-- ===== src/Demo.antt =====
-- src/main.cpp: two orders that rest, one that crosses and rests, and two cancellations, with what the
-- program prints as the result, on a book over a pool of `capacity` blocks.
mod Tests
use lowlatency_exec_core.Common.{ℕ, Bool, Option, List}
use lowlatency_exec_core.Common.Int.{pos}
use lowlatency_exec_core.Types.{buy, sell, Price, Trade}
use lowlatency_exec_core.Slab.{Ptr}
use lowlatency_exec_core.Book.{
  OrderBook, Result, ok, fault, invalid_quantity, duplicate_id, new_book, add_limit_order,
  cancel_order,
}
use lowlatency_exec_core.Book.Queries.{best_bid, best_ask, order_count}

infixl 5 ◌>>=◌
abbrev pub ◌>>=◌ {ℓ κ} : {A : Type ℓ} {B : Type κ} → Result A → (A → Result B) → Result B
ok a >>= f = f a
fault >>= f = fault
invalid_quantity >>= f = invalid_quantity
duplicate_id >>= f = duplicate_id

-- The best prices and the number of orders, as they are printed.
pub record Quote : Type 0 where
  pub bid : Option Price
  pub ask : Option Price
  pub orders : ℕ

abbrev pub quote_of : OrderBook → Quote
unfolding best_bid best_ask order_count
quote_of b = record { bid = best_bid b; ask = best_ask b; orders = order_count b }

pub record Printed : Type 0 where
  pub resting : List Trade
  pub resting_too : List Trade
  pub before : Quote
  pub crossing : List Trade
  pub after : Quote
  pub cancelled : Bool
  pub cancelled_missing : Bool
  pub left : ℕ

unfoldable pub demo : (capacity : ℕ) (brk : Ptr) → Result Printed
unfolding new_book add_limit_order cancel_order order_count best_bid best_ask
demo capacity brk = do
  (resting, b) ← add_limit_order 1 buy (pos 100) (pos 10) (new_book capacity brk)
  (resting_too, b) ← add_limit_order 2 sell (pos 105) (pos 5) b
  let before = quote_of b
  (crossing, b) ← add_limit_order 3 buy (pos 105) (pos 8) b
  let after = quote_of b
  (cancelled, b) ← cancel_order 1 b
  (cancelled_missing, b) ← cancel_order 999 b
  ok (record {
    resting = resting;
    resting_too = resting_too;
    before = before;
    crossing = crossing;
    after = after;
    cancelled = cancelled;
    cancelled_missing = cancelled_missing;
    left = order_count b;
  })
