-- ===== src/Nodes/Reads.antt =====
-- The loops of src/order_book.cpp that walk a level: sum_quantity, collect_ids, and `destroy_level` of
-- the destructor. With enough fuel they end, with the values that `Levels` has.
use lowlatency_exec_core.Common.{
  ℕ, zero, suc, ◌≡◌, refl, ◌∙◌, List, [], ◌∷◌, ◌++◌, arith, some, length, ◌<◌, append_assoc,
  append-nil,
}
use lowlatency_exec_core.Common.Int.{pos}
use lowlatency_exec_core.Types.{OrderId, Quantity}
use lowlatency_exec_core.Slab.{Ptr, SlabAllocator, null, deallocate}
use lowlatency_exec_core.Levels.{PriceLevel, sum_from}
use lowlatency_exec_core.Levels
use lowlatency_exec_core.Nodes
use lowlatency_exec_core.Nodes.{
  Nodes, sum_loop, sum_quantity, collect_loop, collect_ids, destroy_level,
}
use lowlatency_exec_core.Nodes.Linked.{Linked, IsQueue}

-- The nodes of a level are given back, the first one first.
unfoldable pub release : PriceLevel → SlabAllocator → SlabAllocator
unfolding deallocate
release [] pool = pool
release (n ∷ ns) pool = release ns (deallocate n.at pool)

module _ (m : Nodes) (tail : Ptr) where
  sum_loop-sum_from :
      (fuel : ℕ) (ns : PriceLevel) (before p : Ptr) (total : Quantity)
      → length ns < fuel
      → Linked m before p ns tail
      → sum_loop fuel m p total ≡ some (sum_from total ns)
  unfolding sum_loop sum_from
  sum_loop-sum_from zero ns before p total h v = absurd (omega (arith, h))
  sum_loop-sum_from (suc fuel) [] before p total h v = rw (v.0) refl
  sum_loop-sum_from (suc fuel) (n ∷ ns) before p total h v =
      rw (v.0, v.1, v.2) (sum_loop-sum_from fuel ns n.at (m n.at).next _ (omega (arith, h)) v.4)

  collect_loop-collect_ids :
      (fuel : ℕ) (ns : PriceLevel) (before p : Ptr) (ids : List OrderId)
      → length ns < fuel
      → Linked m before p ns tail
      → collect_loop fuel m p ids ≡ some (ids ++ Levels.collect_ids ns)
  unfolding collect_loop Levels.collect_ids
  collect_loop-collect_ids zero ns before p ids h v = absurd (omega (arith, h))
  collect_loop-collect_ids (suc fuel) [] before p ids h v = rw (v.0, append-nil ids) refl
  collect_loop-collect_ids (suc fuel) (n ∷ ns) before p ids h v =
      rw (v.0, v.1, v.2)
        (collect_loop-collect_ids fuel ns n.at (m n.at).next _ (omega (arith, h)) v.4
          ∙ rw (append_assoc ids (n.order.id ∷ []) (Levels.collect_ids ns)) refl)

  destroy_level-release :
      (fuel : ℕ) (ns : PriceLevel) (before p : Ptr) (pool : SlabAllocator)
      → length ns < fuel
      → Linked m before p ns tail
      → destroy_level fuel m p pool ≡ some (release ns pool)
  unfolding destroy_level release
  destroy_level-release zero ns before p pool h v = absurd (omega (arith, h))
  destroy_level-release (suc fuel) [] before p pool h v = rw (v.0) refl
  destroy_level-release (suc fuel) (n ∷ ns) before p pool h v =
      rw (v.0, v.1) (destroy_level-release fuel ns n.at (m n.at).next _ (omega (arith, h)) v.4)

-- Where the links of a level make the queue of a list of distinct nodes, the loops of sum_quantity,
-- of collect_ids and of the destructor end with more fuel than the list has nodes, with the sum,
-- the ids in order, and the pool in which each node is given back, the head first.
pub level_loops :
    (fuel : ℕ) (m : Nodes) (level : Nodes.PriceLevel) (ns : PriceLevel) (pool : SlabAllocator)
    → IsQueue m level ns
    → length ns < fuel
    → (sum_quantity fuel m level ≡ some (Levels.sum_quantity ns))
      × (collect_ids fuel m level ≡ some (Levels.collect_ids ns))
      × (destroy_level fuel m level.head pool ≡ some (release ns pool))
unfolding sum_quantity collect_ids Levels.sum_quantity
level_loops fuel m level ns pool v h = (
  sum_loop-sum_from m level.tail fuel ns null level.head (pos 0) h v.linked,
  collect_loop-collect_ids m level.tail fuel ns null level.head [] h v.linked,
  destroy_level-release m level.tail fuel ns null level.head pool h v.linked,
)
