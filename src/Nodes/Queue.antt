-- ===== src/Nodes/Queue.antt =====
-- push_back, pop_front and erase of src/order_book.cpp on linked nodes against the same operations
-- on the list of nodes that `Levels` has.
use lowlatency_exec_core.Common.{
  ◌≡◌, refl, sym, true, false, List, [], ◌∷◌, ◌==◌, arith, Bool-cases, inl, inr, subst,
  if◌then◌else◌, ◌⊎◌, Bool,
}
use lowlatency_exec_core.Slab.{Ptr, SlabAllocator, null, deallocate}
use lowlatency_exec_core.Slab.Pool.{has, Distinct}
use lowlatency_exec_core.Levels.{PriceLevel, node_layout, unlink}
use lowlatency_exec_core.Levels
use lowlatency_exec_core.Nodes
use lowlatency_exec_core.Nodes.{
  Nodes, write, set_next, set_prev, push_back, pop_front, erase, bridge_next, bridge_prev,
}
use lowlatency_exec_core.Nodes.Linked.{Linked, IsQueue, addresses, test_or}
use lowlatency_exec_core.Nodes.Writes.{write_other, Linked-set_prev, apart}
use lowlatency_exec_core.Nodes.Detach.{next_in}

-- The first node goes.
abbrev pub without_prev : Ptr → Nodes → Nodes
without_prev r m = if r == null then m else set_prev r null m

drop_head :
    (m : Nodes) (before p : Ptr) (n : Levels.OrderNode) (ns : PriceLevel) (tail : Ptr)
    → Distinct (addresses (n ∷ ns))
    → Linked m before p (n ∷ ns) tail
    → Linked
        (without_prev (m n.at).next m)
        null
        (m n.at).next
        ns
        (if (m n.at).next == null then null else tail)
drop_head m before p n [] tail d v =
    subst (λ r. Linked (without_prev r m) null r [] (if r == null then null else tail))
      (sym (v.4.0)) (refl, refl)
drop_head m before p n (k ∷ ns) tail d v =
    let r = (m n.at).next in
    let more : (r == null) ≡ false = rw (v.4.0) (v.4.1) in
    subst
      (λ (b : Bool).
        Linked (if b then m else set_prev r null m) null r (k ∷ ns) (if b then null else tail))
      (sym more) (Linked-set_prev m n.at r k ns tail d.1 v.4 null)

-- The result of an operation on the queue of `ns` over `m`: the queue of `ns'`, the pool `pool'`,
-- and all nodes at other addresses than `ps` as they were.
abbrev pub Refines :
    Nodes
    → List Ptr
    → PriceLevel
    → SlabAllocator
    → Nodes.PriceLevel × Nodes × SlabAllocator
    → Type 0
Refines m ps ns' pool' (level, m', pool) =
    IsQueue m' level ns' × (pool ≡ pool') × ((q : Ptr) → (has q ps ≡ true) ⊎ (m' q ≡ m q))

module _ (m : Nodes) (before p : Ptr) (n : Levels.OrderNode) (ns : PriceLevel) (tail : Ptr)
    (v : Linked m before p (n ∷ ns) tail) where
  pub without_prev_other :
      (q : Ptr) → has q (addresses (n ∷ ns)) ≡ false → without_prev (m n.at).next m q ≡ m q
  without_prev_other q out = elim (Bool-cases ((m n.at).next == null)) [
    | inl last ↦ rw last refl
    | inr more ↦
        let inside = next_in m before p n.at (n ∷ ns) tail v (ground arith) more in
        let differs = apart q (m n.at).next (addresses (n ∷ ns)) out inside in
        rw more (write_other (m n.at).next q _ m (ground (arith, differs)))
  ]

module _ (level : Nodes.PriceLevel) (m : Nodes) (pool : SlabAllocator) (n : Levels.OrderNode)
    (ns : PriceLevel) (v : IsQueue m level (n ∷ ns)) where
  -- What is left once the head is gone.
  abbrev pub headless : Nodes.PriceLevel × Nodes × SlabAllocator
  headless =
      let r = (m n.at).next in
      (
        record { head = r; tail = if r == null then null else level.tail },
        without_prev r m,
        deallocate n.at pool,
      )

  pub headless-Refines : Refines m (addresses (n ∷ ns)) ns (deallocate n.at pool) headless
  headless-Refines = (
    record {
      linked = drop_head m null level.head n ns level.tail v.distinct v.linked;
      distinct = v.distinct.1;
    },
    refl,
    λ q.
        test_or (has q (addresses (n ∷ ns)))
          (without_prev_other m null level.head n ns level.tail v.linked q),
  )

  pop_front-headless : pop_front level m pool ≡ headless
  unfolding pop_front
  pop_front-headless = rw (v.linked.0) (elim (Bool-cases ((m n.at).next == null)) [
    | inl last ↦ rw last refl
    | inr more ↦ rw more refl
  ])

  -- Where the links of a level make the queue of a list of distinct nodes that has a head,
  -- pop_front by the links makes the queue of the list less its head, leaves the pool that the
  -- operation on the list leaves, and leaves every node outside the queue as it was.
  pub pop_front-Refines :
      Refines m
        (addresses (n ∷ ns))
        (Levels.pop_front n ns pool).0
        (Levels.pop_front n ns pool).1
        (pop_front level m pool)
  unfolding Levels.pop_front
  pop_front-Refines =
      subst (Refines m (addresses (n ∷ ns)) ns (deallocate n.at pool)) (sym pop_front-headless)
        headless-Refines
