-- ===== src/Types.antt =====
-- The value types of include/exec_core/types.hpp, order.hpp and trade.hpp.
use lowlatency_exec_core.Common.{ℕ}
use lowlatency_exec_core.Common.Int.{ℤ}

pub data Side : Type 0 where
  buy sell : Side

-- `std::uint64_t`
abbrev pub OrderId : Type 0
OrderId = ℕ

-- `std::int64_t`, in ticks
abbrev pub Price : Type 0
Price = ℤ

-- `std::int64_t`, in lots
abbrev pub Quantity : Type 0
Quantity = ℤ

-- `std::uint64_t`
abbrev pub Sequence : Type 0
Sequence = ℕ

pub record RestingOrder : Type 0 where
  pub id : OrderId
  pub price : Price
  pub quantity : Quantity
  pub sequence : Sequence

pub record Trade : Type 0 where
  pub aggressor_order_id : OrderId
  pub resting_order_id : OrderId
  pub aggressor_side : Side
  pub price : Price
  pub quantity : Quantity
  pub sequence : Sequence
