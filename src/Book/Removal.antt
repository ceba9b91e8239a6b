-- ===== src/Book/Removal.antt =====
-- The invariant of the book through a cancellation.
use lowlatency_exec_core.Book.Cancel.{
  Dangling, Located, Located-cases, cancelled, cancel_unknown, cancel_known, cancel_fault, removed,
  removed_own, removed_other, forgotten,
}
use lowlatency_exec_core.Locations.{OrderLocation, lookup}
use lowlatency_exec_core.Slab.{Ptr, SlabAllocator, deallocate}
use lowlatency_exec_core.Common.{
  ◌≡◌, true, [], ◌∷◌, Bool-cases, Option-cases, inl, inr, All, some, none, ◌==◌, subst,
  if◌then◌else◌, ◌⊎◌, false,
}
use lowlatency_exec_core.Types.{Side, Price, OrderId}
use lowlatency_exec_core.Levels.{
  OrderNode, PriceLevel, Levels, is_empty, find, put_level, unlink, erase_level,
}
use lowlatency_exec_core.Book.{OrderBook, too_far, opposite, levels_of, ok, cancel_order, fault}
use lowlatency_exec_core.Book.Valid.{
  IsResting, IsLevel, IsSide, Prices, Prices-put_level, IsSorted-put_level, All-put_level, All-find,
  All-erase_level, IsSorted-erase_level,
}
use lowlatency_exec_core.Book.Invariant.{IsBook, to_Sided, of_Sided}

-- Taking a node out of a level leaves the orders of the others.
pub All-unlink {κ} :
    (P : OrderNode → Type κ) (at : Ptr) (level : PriceLevel) {rest : PriceLevel}
    → unlink at level ≡ some rest
    → All P level
    → All P rest
unfolding unlink
All-unlink P at [] h k = cc
All-unlink P at (n ∷ ns) {rest} h k = elim (Bool-cases (n.at == at)) [
  | inl here ↦ subst (All P) (found ns rest (rw here at h)) k.1
  | inr on ↦ elim (Option-cases (unlink at ns)) [
    | inl absent ↦ absurd (missing (rw (on, absent) at h))
    | inr (ms, got) ↦
        subst (All P) (found (n ∷ ms) rest (rw (on, got) at h)) (k.0, All-unlink P at ns got k.1)
  ]
]
  where
    found : (a b : PriceLevel) → some a ≡ some b → a ≡ b
    found a b e = cc

    missing : {a : PriceLevel} → none ≡ some a → ⊥
    missing e = cc

-- A level that has lost a node keeps its place, or leaves the map where that was its last.
IsSide-unlink :
    (s : Side) (p : Price) (at : Ptr) (ls : Levels) {level rest : PriceLevel}
    → find p ls ≡ some level
    → unlink at level ≡ some rest
    → IsSide s ls
    → IsSide s (if is_empty rest then erase_level p ls else put_level s p rest ls)
IsSide-unlink s p at ls {level} {rest} found taken v = elim (Bool-cases (is_empty rest)) [
  | inl last ↦ rw last (record {
    sorted = IsSorted-erase_level s p ls v.sorted;
    levels = All-erase_level IsLevel p ls v.levels;
  })
  | inr more ↦ rw more (record {
    sorted = IsSorted-put_level s p rest ls v.sorted;
    levels =
        All-put_level s p rest IsLevel ls
          (more, All-unlink (IsResting p) at level taken (All-find IsLevel p ls found v.levels).1)
          v.levels;
  })
]

Prices-unlink {κ} :
    (Q : Price → Type κ) (s : Side) (p : Price) (ls : Levels) {level : PriceLevel}
    (rest : PriceLevel)
    → find p ls ≡ some level
    → Prices Q ls
    → Prices Q (if is_empty rest then erase_level p ls else put_level s p rest ls)
Prices-unlink Q s p ls rest found h = elim (Bool-cases (is_empty rest)) [
  | inl last ↦ rw last (All-erase_level (λ entry. Q entry.0) p ls h)
  | inr more ↦
      rw more (Prices-put_level Q s p rest ls (All-find (λ entry. Q entry.0) p ls found h) h)
]

pub removed-IsBook :
    (loc : OrderLocation) {level : PriceLevel} (rest : PriceLevel) (pool : SlabAllocator)
    (b : OrderBook)
    → find loc.price (levels_of loc.side b) ≡ some level
    → unlink loc.node level ≡ some rest
    → IsBook b
    → IsBook (removed loc rest pool b)
removed-IsBook loc rest pool b found taken v =
    let v' = to_Sided loc.side v in
    of_Sided loc.side (
      rw (removed_own loc rest pool b, removed_other loc rest pool b)
        (record {
          own_side = IsSide-unlink loc.side loc.price loc.node _ found taken v'.own_side;
          other_side = v'.other_side;
          apart =
              Prices-unlink
                (λ p. Prices (λ q. too_far loc.side p q ≡ true) (levels_of (opposite loc.side) b))
                loc.side loc.price _ rest found v'.apart;
        }))

-- Over a well-formed book, cancel_order answers false for an id that the book does not track and
-- changes nothing; it faults where the location of the id names a level or a node that is not
-- there; and otherwise it answers true, takes the node out of its level, the id out of the index
-- and the block back into the pool, and leaves a well-formed book.
pub cancel_order-IsBook :
    (id : OrderId) (b : OrderBook)
    → IsBook b
    → ((lookup id b.locations ≡ none) × (cancel_order id b ≡ ok (false, b)))
      ⊎ (((loc : OrderLocation) × (lookup id b.locations ≡ some loc)
            × Dangling loc (forgotten id b)
            × (cancel_order id b ≡ fault))
          ⊎ ((loc : OrderLocation) × (level : PriceLevel) × (rest : PriceLevel) × (lookup id
                  b.locations
                ≡ some loc)
              × Located loc (forgotten id b) level rest
              × (cancel_order id b ≡ ok (true, cancelled id b loc rest))
              × IsBook (cancelled id b loc rest)))
cancel_order-IsBook id b v = elim (Option-cases (lookup id b.locations)) [
  | inl unknown ↦ inl (unknown, cancel_unknown id b unknown)
  | inr (loc, known) ↦ inr (elim (Located-cases loc (forgotten id b)) [
    | inl bad ↦ inl (loc, known, bad, cancel_fault id b loc known bad)
    | inr (level, rest, there) ↦ inr (
      loc,
      level,
      rest,
      known,
      there,
      cancel_known id b loc rest known there,
      removed-IsBook loc rest (deallocate loc.node b.node_pool) (forgotten id b) there.0 there.1
          (record { bids = v.bids; asks = v.asks; uncrossed = v.uncrossed }),
    )
  ])
]
