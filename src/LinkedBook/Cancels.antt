-- ===== src/LinkedBook/Cancels.antt =====
-- `cancel_order` on linked nodes against `Book`.
use lowlatency_exec_core.Common.{
  ◌≡◌, refl, sym, ap, ◌∙◌, subst, true, false, some, none, [], ◌∷◌, ◌==◌, Bool-cases, Option-cases,
  inl, inr, arith, if◌then◌else◌,
}
use lowlatency_exec_core.Types.{Side, buy, sell, OrderId, Price}
use lowlatency_exec_core.Slab.{Ptr, SlabAllocator, null, deallocate}
use lowlatency_exec_core.Slab.Pool.{has, Distinct}
use lowlatency_exec_core.Levels.{Levels, is_empty, find, unlink, put_level, erase_level}
use lowlatency_exec_core.Levels
use lowlatency_exec_core.Nodes
use lowlatency_exec_core.Nodes.{Nodes, erase}
use lowlatency_exec_core.Nodes.Linked.{IsQueue, addresses}
use lowlatency_exec_core.Nodes.Queue.{Refines}
use lowlatency_exec_core.Nodes.Erase.{erase-Refines}
use lowlatency_exec_core.Locations.{lookup}
use lowlatency_exec_core.Book.{levels_of, opposite, ok}
use lowlatency_exec_core.Book
use lowlatency_exec_core.Book.Valid.{IsSorted}
use lowlatency_exec_core.Book.Untracked.{without}
use lowlatency_exec_core.Book.Tracked.{location}
use lowlatency_exec_core.Book.Cancel.{cancelled, forgotten, Located, cancel_known, cancel_unknown}
use lowlatency_exec_core.Book.Consistent.{IsConsistent, Cancellable, cancellable}
use lowlatency_exec_core.LinkedBook.Orders.{Agrees, side-Distinct, sides-Apart}
use lowlatency_exec_core.LinkedBook.Represents.{Represents, Represents-linked_of, linked_of}
use lowlatency_exec_core.LinkedBook.{SideLevels, OrderBook, remove_node, cancel_order}
use lowlatency_exec_core.LinkedBook.Stands.{
  Stands, places, Apart, Within-out, Stands-agree, find-IsQueue, head-is_empty,
}
use lowlatency_exec_core.LinkedBook.Puts.{
  level_at-Within, Stands-put_level, Stands-erase_level, Spares,
}

unlink-has :
    (at : Ptr) (ns rest : Levels.PriceLevel)
    → unlink at ns ≡ some rest
    → has at (addresses ns) ≡ true
unfolding unlink
unlink-has at [] rest h = absurd (nothing h)
  where
    nothing : none ≡ some rest → ⊥
    nothing e = cc
unlink-has at (n ∷ ns) rest h = elim (Bool-cases (n.at == at)) [
  | inl here ↦ ground (arith, here)
  | inr past ↦ elim (Option-cases (unlink at ns)) [
    | inl stuck ↦ absurd (nothing (rw (past, stuck) at h))
    | inr (ms, e) ↦ ground (arith, unlink-has at ns ms e)
  ]
]
  where
    nothing : none ≡ some rest → ⊥
    nothing e = cc

module _ (s : Side) (p : Price) (at : Ptr) (m : Nodes) (pool : SlabAllocator) (ks : SideLevels)
    (ls : Levels) (level : Levels.PriceLevel) (rest : Levels.PriceLevel) (linked : Nodes.PriceLevel)
    (v : Stands m ks ls) (q : IsQueue m linked level) (d : Distinct (places ls))
    (sorted : IsSorted s ls) (found : find p ls ≡ some level)
    (out : unlink at level ≡ some rest) where
  abbrev erased : Nodes.PriceLevel × Nodes × SlabAllocator
  erased = erase linked at m pool

  pub erased-Refines : Refines m (addresses level) rest (deallocate at pool) erased
  unfolding Levels.erase
  erased-Refines =
      let (rest', pool', e, r) =
        erase-Refines linked m pool level at q (unlink-has at level rest out) in
      let same : some (rest, deallocate at pool) ≡ some (rest', pool') =
        rw (out, Levels.erase) at e in
      let pair : (rest, deallocate at pool) ≡ (rest', pool') = cc in
      subst (λ (x : Levels.PriceLevel × SlabAllocator). Refines m (addresses level) x.0 x.1 erased)
        (sym pair) r

  level_at_found : Levels.level_at p ls ≡ level
  unfolding Levels.level_at
  level_at_found = rw (found, Levels.level_at) refl

  erased_same : (x : Ptr) → has x (addresses level) ≡ false → erased.1 x ≡ m x
  erased_same x outside = elim (erased-Refines.2 x) [
    | inl inside ↦ absurd (ground (arith, inside, outside))
    | inr same ↦ same
  ]

  erased-Spares : Spares p ls m erased.1
  erased-Spares x inside outside = erased_same x (rw level_at_found at outside)

  -- The level in its side, or erased from it where it has no head then.
  pub erased-Stands :
      Stands erased.1
        (if erased.0.head == null then erase_level p ks else put_level s p erased.0 ks)
        (without s p rest ls)
  erased-Stands =
      rw (head-is_empty erased.1 erased.0 rest erased-Refines.0)
        (elim (Bool-cases (is_empty rest)) [
          | inl last ↦ rw last (Stands-erase_level p m erased.1 ks ls d v erased-Spares)
          | inr more ↦ rw more (
              Stands-put_level s p erased.0 rest m erased.1 erased-Refines.0 ks ls sorted d v
                erased-Spares)
        ])

  pub erased_other :
      (xs : SideLevels) (ys : Levels)
      → Stands m xs ys
      → Apart (places ys) (places ls)
      → Stands erased.1 xs ys
  erased_other xs ys u apart =
      Stands-agree m erased.1 xs ys
        (λ x h. erased_same x (
          rw level_at_found at (
            Within-out (addresses (Levels.level_at p ls)) (places ls) (level_at-Within p ls) x
              (apart x h))))
        u

module _ (id : OrderId) (p : Price) (at : Ptr) (bids asks : SideLevels) (m : Nodes)
    (b : Book.OrderBook) (vb : Stands m bids b.bids) (va : Stands m asks b.asks)
    (c : IsConsistent b) (level rest : Levels.PriceLevel) where
  abbrev l : OrderBook
  l = linked_of bids asks m b

  of_bids :
      lookup id b.locations ≡ some (location buy p at)
      → Located (location buy p at) (forgotten id b) level rest
      → Agrees (some (cancel_order id l)) (ok (true, cancelled id b (location buy p at) rest))
  unfolding cancel_order remove_node
  of_bids known (found, out) =
      let (linked, there, q) = find-IsQueue m p bids b.bids level vb found in
      let d = side-Distinct b c.in_step buy in
      let r =
        erased-Refines buy p at m b.node_pool bids b.bids level rest linked vb q d
          c.formed.bids.sorted found out in
      rw (known, there, cancel_order, remove_node)
        (
          refl,
          record {
            bids =
                erased-Stands buy p at m b.node_pool bids b.bids level rest linked vb q d
                  c.formed.bids.sorted found out;
            asks =
                erased_other buy p at m b.node_pool bids b.bids level rest linked vb q d
                  c.formed.bids.sorted found out asks b.asks va (sides-Apart b c.in_step sell);
            locations = refl;
            node_pool = r.1;
            next_sequence = refl;
          },
        )

  of_asks :
      lookup id b.locations ≡ some (location sell p at)
      → Located (location sell p at) (forgotten id b) level rest
      → Agrees (some (cancel_order id l)) (ok (true, cancelled id b (location sell p at) rest))
  unfolding cancel_order remove_node
  of_asks known (found, out) =
      let (linked, there, q) = find-IsQueue m p asks b.asks level va found in
      let d = side-Distinct b c.in_step sell in
      let r =
        erased-Refines sell p at m b.node_pool asks b.asks level rest linked va q d
          c.formed.asks.sorted found out in
      rw (known, there, cancel_order, remove_node)
        (
          refl,
          record {
            bids =
                erased_other sell p at m b.node_pool asks b.asks level rest linked va q d
                  c.formed.asks.sorted found out bids b.bids vb (sides-Apart b c.in_step buy);
            asks =
                erased-Stands sell p at m b.node_pool asks b.asks level rest linked va q d
                  c.formed.asks.sorted found out;
            locations = refl;
            node_pool = r.1;
            next_sequence = refl;
          },
        )

  pub cancel_order_known :
      (s : Side)
      → lookup id b.locations ≡ some (location s p at)
      → Located (location s p at) (forgotten id b) level rest
      → Agrees (some (cancel_order id l)) (ok (true, cancelled id b (location s p at) rest))
  cancel_order_known buy = of_bids
  cancel_order_known sell = of_asks

cancel_order_unknown :
    (id : OrderId) (l : OrderBook)
    → lookup id l.locations ≡ none
    → cancel_order id l ≡ ok (false, l)
unfolding cancel_order
cancel_order_unknown id l h = rw (h, cancel_order)

-- On a linked book that represents a consistent book of lists, cancel_order never dereferences a
-- level that is not there, gives the same answer as on the lists, and leaves a linked book that
-- represents the one that the lists leave.
pub cancel_order-Represents :
    (id : OrderId) (l : OrderBook) (b : Book.OrderBook)
    → Represents l b
    → IsConsistent b
    → Agrees (some (cancel_order id l)) (Book.cancel_order id b)
unfolding Cancellable
cancel_order-Represents id l b v c = elim (Option-cases (lookup id b.locations)) [
  | inl absent ↦
      rw
        (
          cancel_order_unknown id l (ap (lookup id) v.locations ∙ absent),
          cancel_unknown id b absent,
        )
        (refl, v)
  | inr (loc, known) ↦
      let (level, rest, there, perm) = cancellable b id c loc known in
      rw (cancel_known id b loc rest known there) (
        subst (λ x. Agrees (some (cancel_order id x)) (ok (true, cancelled id b loc rest)))
          (sym (Represents-linked_of l b v))
          (cancel_order_known id loc.price loc.node l.bids l.asks l.nodes b v.bids v.asks c level
            rest loc.side known there))
]
