-- ===== src/Nodes/Erase.antt =====
-- erase of src/order_book.cpp on linked nodes against the same operation on the list of nodes.
use lowlatency_exec_core.Common.{
  ◌≡◌, refl, sym, ap, ◌∙◌, true, false, [], ◌∷◌, ◌==◌, arith, Bool-cases, inl, inr, subst, some,
  if◌then◌else◌,
}
use lowlatency_exec_core.Slab.{Ptr, SlabAllocator, null, deallocate}
use lowlatency_exec_core.Slab.Pool.{has, Distinct}
use lowlatency_exec_core.Levels.{PriceLevel, node_layout, unlink}
use lowlatency_exec_core.Levels
use lowlatency_exec_core.Nodes
use lowlatency_exec_core.Nodes.{
  Nodes, write, set_next, set_prev, push_back, pop_front, erase, bridge_next, bridge_prev,
}
use lowlatency_exec_core.Nodes.Linked.{IsQueue, addresses, test_or}
use lowlatency_exec_core.Nodes.Writes.{apart}
use lowlatency_exec_core.Nodes.Detach.{
  detach, less, unlink-less, bridged, bridged_inner, spliced, last_of, links_in, next_in,
  spliced_other,
}
use lowlatency_exec_core.Nodes.Queue.{Refines, headless, headless-Refines, without_prev}

bridged_first :
    (node : Ptr) (level : Nodes.PriceLevel) (m : Nodes)
    → (m node).prev ≡ null
    → bridged node level m ≡ (
      record { head = (m node).next; tail = if (m node).next == null then null else level.tail },
      without_prev (m node).next m,
    )
unfolding bridge_next bridge_prev
bridged_first node level m first = rw first (elim (Bool-cases ((m node).next == null)) [
  | inl last ↦ rw (last, first) refl
  | inr more ↦ rw (more, first) refl
])

erase-bridged :
    (level : Nodes.PriceLevel) (node : Ptr) (m : Nodes) (pool : SlabAllocator)
    → erase level node m pool
      ≡ ((bridged node level m).0, (bridged node level m).1, deallocate node pool)
unfolding erase
erase-bridged level node m pool = refl

less_out :
    (q at : Ptr) (ns : PriceLevel)
    → has q (addresses ns) ≡ false
    → has q (addresses (less at ns)) ≡ false
less_out q at [] h = refl
less_out q at (n ∷ ns) h = elim (Bool-cases (n.at == at)) [
  | inl here ↦ rw here (ground (arith, h))
  | inr past ↦ rw past (ground (arith, h, less_out q at ns))
]

less-Distinct :
    (at : Ptr) (ns : PriceLevel) → Distinct (addresses ns) → Distinct (addresses (less at ns))
less-Distinct at [] d = tt
less-Distinct at (n ∷ ns) d = elim (Bool-cases (n.at == at)) [
  | inl here ↦ rw here d.1
  | inr past ↦ rw past (less_out n.at at ns d.0, less-Distinct at ns d.1)
]

module _ (level : Nodes.PriceLevel) (m : Nodes) (pool : SlabAllocator) (n : Levels.OrderNode)
    (ns : PriceLevel) (v : IsQueue m level (n ∷ ns)) where
  erase_head-headless : erase level n.at m pool ≡ headless level m pool n ns v
  erase_head-headless =
      erase-bridged level n.at m pool
      ∙ ap (λ (r : Nodes.PriceLevel × Nodes). (r.0, r.1, deallocate n.at pool))
          (bridged_first n.at level m (v.linked.3))

module _ (level : Nodes.PriceLevel) (m : Nodes) (pool : SlabAllocator) (n : Levels.OrderNode)
    (ns : PriceLevel) (at : Ptr) (v : IsQueue m level (n ∷ ns))
    (inside : has at (addresses ns) ≡ true) where
  abbrev before_it : Ptr
  before_it = (m at).prev

  abbrev after_it : Ptr
  after_it = (m at).next

  abbrev shorter : Nodes.PriceLevel × Nodes × SlabAllocator
  shorter = (
    record level { tail = last_of before_it after_it level.tail },
    spliced before_it after_it m,
    deallocate at pool,
  )

  links :
      (has before_it (addresses (n ∷ ns)) ≡ true)
      × ((before_it == null) ≡ false)
      × ((before_it == at) ≡ false)
  links = links_in m null level.head at n ns level.tail v.distinct v.linked inside

  erase-shorter : erase level at m pool ≡ shorter
  erase-shorter =
      erase-bridged level at m pool
      ∙ ap (λ (r : Nodes.PriceLevel × Nodes). (r.0, r.1, deallocate at pool))
          (bridged_inner at level m links.1 links.2)

  shorter-Refines : Refines m (addresses (n ∷ ns)) (n ∷ less at ns) (deallocate at pool) shorter
  shorter-Refines = (
    record {
      linked = detach m null level.head at n ns level.tail v.distinct v.linked inside;
      distinct = (less_out n.at at ns v.distinct.0, less-Distinct at ns v.distinct.1);
    },
    refl,
    λ q. test_or (has q (addresses (n ∷ ns))) (λ out.
        let not_prev = apart q before_it (addresses (n ∷ ns)) out links.0 in
        spliced_other before_it after_it q m (ground (arith, not_prev))
          (elim (Bool-cases (after_it == null)) [
            | inl last ↦ inl last
            | inr more ↦
                let within =
                  next_in m null level.head at (n ∷ ns) level.tail v.linked (ground (arith, inside))
                    more in
                let not_next = apart q after_it (addresses (n ∷ ns)) out within in
                inr (ground (arith, not_next))
          ])),
  )

-- Where the links of a level make the queue of a list of distinct nodes, erasing one of them by its
-- links succeeds on the list too, makes the queue of what the list then is, leaves the pool that
-- the operation on the list leaves, and leaves every node outside the queue as it was.
pub erase-Refines :
    (level : Nodes.PriceLevel) (m : Nodes) (pool : SlabAllocator) (ns : PriceLevel) (at : Ptr)
    → IsQueue m level ns
    → has at (addresses ns) ≡ true
    → (rest : PriceLevel) × (pool' : SlabAllocator) × (Levels.erase ns at pool ≡ some (rest, pool'))
      × Refines m (addresses ns) rest pool' (erase level at m pool)
unfolding Levels.erase
erase-Refines level m pool [] at v inside = cc
erase-Refines level m pool (n ∷ ns) at v inside =
    let taken = unlink-less at (n ∷ ns) inside in
    (
      less at (n ∷ ns),
      deallocate at pool,
      rw (taken, Levels.erase) refl,
      elim (Bool-cases (n.at == at)) [
        | inl here ↦
            let same : n.at ≡ at = ground (arith, here) in
            rw here (
              subst
                (λ a. Refines m (addresses (n ∷ ns)) ns (deallocate a pool) (erase level a m pool))
                same
                (subst (Refines m (addresses (n ∷ ns)) ns (deallocate n.at pool))
                  (sym (erase_head-headless level m pool n ns v))
                  (headless-Refines level m pool n ns v)))
        | inr past ↦
            let deeper : has at (addresses ns) ≡ true = ground (arith, inside, past) in
            rw past (
              subst (Refines m (addresses (n ∷ ns)) (n ∷ less at ns) (deallocate at pool))
                (sym (erase-shorter level m pool n ns at v deeper))
                (shorter-Refines level m pool n ns at v deeper))
      ],
    )
