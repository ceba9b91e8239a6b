-- ===== src/Locations.antt =====
-- `std::unordered_map<OrderId, OrderLocation> locations_` of include/exec_core/order_book.hpp, as
-- an association list. Its order shows nowhere: the book only finds, adds, erases and counts.
pub mod Keys
use lowlatency_exec_core.Common.{Option, none, some, List, [], ◌∷◌, ◌==◌, if◌then◌else◌}
use lowlatency_exec_core.Types.{Side, OrderId, Price}
use lowlatency_exec_core.Slab.{Ptr}

pub record OrderLocation : Type 0 where
  pub side : Side
  pub price : Price
  pub node : Ptr

abbrev pub Locations : Type 0
Locations = List (OrderId × OrderLocation)

unfoldable pub lookup : OrderId → Locations → Option OrderLocation
lookup id [] = none
lookup id ((k, v) ∷ m) = if k == id then some v else lookup id m

unfoldable pub forget : OrderId → Locations → Locations
forget id [] = []
forget id ((k, v) ∷ m) = if k == id then forget id m else (k, v) ∷ forget id m

-- `emplace`, which leaves an entry that is there.
unfoldable pub emplace : OrderId → OrderLocation → Locations → Locations
unfolding lookup
emplace id loc m = elim (lookup id m) [ none ↦ (id, loc) ∷ m | some old ↦ m ]
