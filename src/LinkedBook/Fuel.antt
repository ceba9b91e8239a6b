-- ===== src/LinkedBook/Fuel.antt =====
-- Fuel for the loops over linked nodes: the count of orders bounds their rounds.
use lowlatency_exec_core.Common.{
  length-append, ◌≡◌, refl, sym, ap, ◌∙◌, ◌+◌, ◌*◌, ◌≤◌, [], ◌∷◌, length, arith, false, suc, All,
}
use lowlatency_exec_core.Types.{Side, buy, sell, Price}
use lowlatency_exec_core.Levels.{PriceLevel, Levels, is_empty}
use lowlatency_exec_core.Book.{OrderBook, levels_of}
use lowlatency_exec_core.Book.Valid.{IsLevel}
use lowlatency_exec_core.Book.Tracked.{entries, side_entries}
use lowlatency_exec_core.Book.Consistent.{IsConsistent}
use lowlatency_exec_core.Book.Reachable.{order_count-used_blocks}
use lowlatency_exec_core.Book.Queries.{order_count}
use lowlatency_exec_core.Book.Termination.{rounds}

pub length-entries : (s : Side) (p : Price) (ns : PriceLevel) → length (entries s p ns) ≡ length ns
length-entries s p [] = refl
length-entries s p (n ∷ ns) = ap suc (length-entries s p ns)

some_node : (ns : PriceLevel) → is_empty ns ≡ false → 1 ≤ length ns
some_node [] h = cc
some_node (n ∷ ns) h = omega arith

rounds_bound :
    (s : Side) (ls : Levels) → All IsLevel ls → rounds ls ≤ 3 * length (side_entries s ls)
rounds_bound s [] h = omega arith
rounds_bound s ((p, ns) ∷ ls) h = omega (
  arith,
  length-append (entries s p ns) (side_entries s ls),
  length-entries s p ns,
  some_node ns h.0.0,
  rounds_bound s ls h.1,
)

module _ (b : OrderBook) (v : IsConsistent b) where
  pub counted :
      length (side_entries buy b.bids) + length (side_entries sell b.asks) ≡ length b.locations
  unfolding order_count
  counted =
      sym (length-append (side_entries buy b.bids) (side_entries sell b.asks))
      ∙ sym (order_count-used_blocks b v).0

  -- Three rounds for each order of a consistent book are enough for both loops on either side.
  pub rounds-order_count : (s : Side) → rounds (levels_of s b) ≤ 3 * length b.locations
  rounds-order_count buy =
      let h = rounds_bound buy b.bids v.formed.bids.levels in omega (arith, h, counted)
  rounds-order_count sell =
      let h = rounds_bound sell b.asks v.formed.asks.levels in omega (arith, h, counted)
