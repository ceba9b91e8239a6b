-- ===== src/Nodes/Push.antt =====
-- push_back of src/order_book.cpp on linked nodes against the same operation on the list of nodes.
use lowlatency_exec_core.Common.{
  ◌≡◌, refl, sym, ◌∙◌, true, false, List, [], ◌∷◌, ◌++◌, ◌==◌, arith, Bool-cases, inl, inr, subst,
  ◌⊎◌, ◌+◌, ◌<◌, ◌^◌,
}
use lowlatency_exec_core.Types.{RestingOrder}
use lowlatency_exec_core.Slab.{Ptr, SlabAllocator, null, allocate}
use lowlatency_exec_core.Slab.Pool.{has, Distinct}
use lowlatency_exec_core.Slab.Used.{IsLive, allocate-IsLive}
use lowlatency_exec_core.Levels.{PriceLevel, node_layout}
use lowlatency_exec_core.Levels
use lowlatency_exec_core.Nodes
use lowlatency_exec_core.Nodes.{Nodes, write, set_next, push_back, node_of}
use lowlatency_exec_core.Nodes.Linked.{IsQueue, addresses, test_or}
use lowlatency_exec_core.Nodes.Writes.{
  write_other, apart, tail_in, Linked-new, Linked-behind, behind,
}

-- The queue of `ns'` behind `ns`, the pool `pool'`, the new node at `at`, and all other nodes in use
-- as they were.
abbrev pub Appends :
    Nodes
    → List Ptr
    → PriceLevel
    → PriceLevel × Ptr × SlabAllocator
    → Nodes.PriceLevel × Nodes × SlabAllocator × Ptr
    → Type 0
Appends m used ns (ns', at', pool') (level, m', pool, at) =
    IsQueue m' level ns'
    × (pool ≡ pool')
    × (at ≡ at')
    × ((q : Ptr) → (has q (addresses ns) ≡ true) ⊎ ((has q used ≡ false) ⊎ (m' q ≡ m q)))

module _ (level : Nodes.PriceLevel) (order : RestingOrder) (m : Nodes) (pool : SlabAllocator) where
  abbrev at : Ptr
  at = (allocate node_layout pool).0

  abbrev new : Levels.OrderNode
  new = record { at = at; order = order }

  push_back_first :
      level.tail ≡ null
      → push_back level order m pool ≡ (
        record { head = at; tail = at },
        write at (node_of order null) m,
        (allocate node_layout pool).1,
        at,
      )
  unfolding push_back
  push_back_first empty = rw empty refl

  push_back_more :
      (level.tail == null) ≡ false
      → push_back level order m pool ≡ (
        record level { tail = at },
        behind at level.tail (node_of order level.tail) m,
        (allocate node_layout pool).1,
        at,
      )
  unfolding push_back
  push_back_more more = rw more refl

  module _ (used : List Ptr) (v : IsLive pool used)
      (room : pool.total_capacity + pool.chunk_size < 2 ^ 64) where
    abbrev live : IsLive (allocate node_layout pool).1 (at ∷ used)
    live = allocate-IsLive node_layout pool used room v

    fresh : has at used ≡ false
    fresh = live.pool.distinct_used.0

    nonnull : (at == null) ≡ false
    nonnull = let positive = (live.pool.below.1.0).0 in ground (arith, positive)

    fresh_in :
        (xs : List Ptr) → ((q : Ptr) → has q xs ≡ true → has q used ≡ true) → has at xs ≡ false
    fresh_in xs within = elim (Bool-cases (has at xs)) [
      | inr out ↦ out
      | inl inside ↦
          let clash = within at inside in absurd (let h = fresh in ground (arith, clash, h))
    ]

    not_at : (q : Ptr) → has q used ≡ true → (q == at) ≡ false
    not_at q inside = apart at q used fresh inside

    used_or : {X : Type 0} (q : Ptr) → (has q used ≡ true → X) → (has q used ≡ false) ⊎ X
    used_or q f = elim (Bool-cases (has q used)) [ inl h ↦ inr (f h) | inr h ↦ inl h ]

    -- Where the links of a level make the queue of a list of distinct nodes, all in use in a
    -- well-formed pool that has room for one more chunk in its counter, push_back by the links
    -- makes the queue of the list with the new node behind it, gives the node and the pool that the
    -- operation on the list gives, and leaves every other node in use outside the queue as it was.
    pub push_back-Appends :
        (ns : PriceLevel)
        → IsQueue m level ns
        → ((q : Ptr) → has q (addresses ns) ≡ true → has q used ≡ true)
        → Appends m used ns (Levels.push_back ns order pool) (push_back level order m pool)
    unfolding Levels.push_back
    push_back-Appends [] w within =
        subst (Appends m used [] (new ∷ [], at, (allocate node_layout pool).1))
          (sym (push_back_first (w.linked.1)))
          (
            record { linked = Linked-new at order nonnull m; distinct = (refl, tt) },
            refl,
            refl,
            λ q. inr (used_or q (λ inside. write_other at q _ m (not_at q inside))),
          )
    push_back-Appends (n ∷ ns) w within =
        let out = fresh_in (addresses (n ∷ ns)) within in
        let last = tail_in m null level.head n ns level.tail w.linked in
        subst (Appends m used (n ∷ ns) (n ∷ (ns ++ new ∷ []), at, (allocate node_layout pool).1))
          (sym (push_back_more last.1))
          (
            record {
              linked =
                  Linked-behind at order nonnull m null level.head n ns level.tail out w.distinct
                    w.linked;
              distinct = Distinct_snoc (n ∷ ns) out w.distinct;
            },
            refl,
            refl,
            λ q. test_or (has q (addresses (n ∷ ns))) (λ outside. used_or q (λ inside.
                let not_tail = apart q level.tail (addresses (n ∷ ns)) outside last.0 in
                write_other level.tail q _ (write at (node_of order level.tail) m)
                  (ground (arith, not_tail))
                ∙ write_other at q _ m (not_at q inside))),
          )
      where
        has_snoc :
            (q : Ptr) (ks : PriceLevel)
            → has q (addresses ks) ≡ false
            → (q == at) ≡ false
            → has q (addresses (ks ++ new ∷ [])) ≡ false
        has_snoc q [] h k = ground (arith, k)
        has_snoc q (j ∷ ks) h k = ground (arith, h, k, has_snoc q ks)

        Distinct_snoc :
            (ks : PriceLevel)
            → has at (addresses ks) ≡ false
            → Distinct (addresses ks)
            → Distinct (addresses (ks ++ new ∷ []))
        Distinct_snoc [] h d = (refl, tt)
        Distinct_snoc (j ∷ ks) h d =
            (has_snoc j.at ks d.0 (ground (arith, h)), Distinct_snoc ks (ground (arith, h)) d.1)
