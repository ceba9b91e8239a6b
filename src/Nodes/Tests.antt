-- ===== src/Nodes/Tests.antt =====
-- The theorems on linked nodes at the level of two offers, and one more behind them.
use lowlatency_exec_core.Common.{◌≡◌, refl, [], ◌∷◌, ◌==◌, if◌then◌else◌}
use lowlatency_exec_core.Types.{RestingOrder}
use lowlatency_exec_core.Levels.{PriceLevel}
use lowlatency_exec_core.Nodes
use lowlatency_exec_core.Nodes.{
  Nodes, push_back, pop_front, erase, sum_quantity, collect_ids, destroy_level, write,
}
use lowlatency_exec_core.Nodes.Linked.{IsQueue}
use lowlatency_exec_core.Book.Tests.{order, node, pool}

abbrev first : RestingOrder
first = order 1 105 5 0

abbrev second : RestingOrder
second = order 2 105 4 1

abbrev pub two_nodes : PriceLevel
two_nodes = node 1144 first ∷ node 1096 second ∷ []

abbrev pub memory : Nodes
memory p =
    if p == 1144
    then record { order = first; prev = 0; next = 1096 }
    else record { order = second; prev = 1144; next = 0 }

abbrev pub level : Nodes.PriceLevel
level = record { head = 1144; tail = 1096 }

pub two_nodes-IsQueue : IsQueue memory level two_nodes
two_nodes-IsQueue = record {
  linked = (refl, refl, refl, refl, (refl, refl, refl, refl, (refl, refl)));
  distinct = (refl, (refl, tt));
}

-- A level of one node is empty once that is popped, and a level of none has one node once it is pushed.
one_popped :
    (pop_front
      (record { head = 1096; tail = 1096 })
      (write 1096 (record { order = second; prev = 0; next = 0 }) memory)
      pool).0
    ≡ record { head = 0; tail = 0 }
unfolding pop_front write
one_popped = refl
