-- ===== src/Book/Withdrawal.antt =====
-- Cancellation against the queue of a side: the order goes, and all others keep their places.
use mathlib.Core.List.Permᴰ
use lowlatency_exec_core.Common.{
  Permᴰ, ◌≡◌, ◌∙◌, sym, ap, true, false, none, some, ◌∷◌, ◌++◌, ◌||◌, map-append, arith, Bool,
  Option-cases, inl, inr,
}
use lowlatency_exec_core.Types.{Side, buy, sell, OrderId, Price}
use lowlatency_exec_core.Slab.{Ptr}
use lowlatency_exec_core.Slab.Pool.{has}
use lowlatency_exec_core.Slab.Used.{has-Permᴰ}
use lowlatency_exec_core.Levels.{PriceLevel, Levels, find, unlink}
use lowlatency_exec_core.Locations.{OrderLocation, Locations, lookup}
use lowlatency_exec_core.Locations.Keys.{keys, lookup-none}
use lowlatency_exec_core.Book.{OrderBook, cancel_order, ok}
use lowlatency_exec_core.Book.Valid.{IsSorted}
use lowlatency_exec_core.Book.Priority.{queue}
use lowlatency_exec_core.Book.Tracked.{side_entries, location, lookup-Tracks, Tracks-Permᴰ}
use lowlatency_exec_core.Book.Agreement.{tracked}
use lowlatency_exec_core.Book.Untracked.{without, has-append}
use lowlatency_exec_core.Book.Cancel.{cancelled, cancel_known, cancel_unknown, Located, forgotten}
use lowlatency_exec_core.Book.Consistent.{IsConsistent, Cancellable, cancellable}
use lowlatency_exec_core.Book.Queues.{
  withdraw, ids-queue, without-OneMore, withdraw_absent, withdraw-OneMore,
}

-- The entries of two sides, before and after.
module _ (id : OrderId) (loc : OrderLocation) (xs ys xs' ys' : Locations)
    (perm : Permᴰ (xs ++ ys) ((id, loc) ∷ (xs' ++ ys')))
    (fresh : has id (keys (xs' ++ ys')) ≡ false) where
  both : (has id (keys xs) || has id (keys ys)) ≡ true
  both =
      sym (ap (has id) (map-append (λ entry. entry.0) xs ys) ∙ has-append id (keys xs) (keys ys))
      ∙ (has-Permᴰ id (Permᴰ.map (λ entry. entry.0) perm) ∙ ground arith)

  neither : (has id (keys xs') || has id (keys ys')) ≡ false
  neither =
      sym
        (ap (has id) (map-append (λ entry. entry.0) xs' ys') ∙ has-append id (keys xs') (keys ys'))
      ∙ fresh

module _ (id : OrderId) (s : Side) (ls : Levels) where
  -- The side that does not have the order.
  queue_kept : has id (keys (side_entries s ls)) ≡ false → queue ls ≡ withdraw id (queue ls)
  queue_kept out = sym (withdraw_absent id (queue ls) (ap (has id) (ids-queue s ls) ∙ out))

  -- The side that has it.
  queue-without :
      (p : Price) (at : Ptr) (level rest : PriceLevel)
      → IsSorted s ls
      → find p ls ≡ some level
      → unlink at level ≡ some rest
      → has id (keys (side_entries s ls)) ≡ true
      → has id (keys (side_entries s (without s p rest ls))) ≡ false
      → queue (without s p rest ls) ≡ withdraw id (queue ls)
  queue-without p at level rest sorted found out there gone = sym (
      withdraw-OneMore id (queue ls) (queue (without s p rest ls))
        (without-OneMore s p at level rest ls sorted found out)
        (ap (has id) (ids-queue s ls) ∙ there)
        (ap (has id) (ids-queue s (without s p rest ls)) ∙ gone))

-- Both sides without the order `id`.
abbrev Withdrawn : OrderId → OrderBook → OrderBook → Type 0
Withdrawn id b b' =
    (queue b'.bids ≡ withdraw id (queue b.bids)) × (queue b'.asks ≡ withdraw id (queue b.asks))

module _ (id : OrderId) (b : OrderBook) (v : IsConsistent b) where
  known :
      (s : Side) (p : Price) (at : Ptr) (level rest : PriceLevel)
      → Located (location s p at) (forgotten id b) level rest
      → Permᴰ (tracked b) ((id, location s p at) ∷ tracked (cancelled id b (location s p at) rest))
      → Withdrawn id b (cancelled id b (location s p at) rest)
  known buy p at level rest there perm =
      let gone = (Tracks-Permᴰ perm v.in_step).distinct.0 in
      let bids' = without buy p rest b.bids in
      let yes =
        both id (location buy p at) (side_entries buy b.bids) (side_entries sell b.asks)
          (side_entries buy bids') (side_entries sell b.asks) perm gone in
      let no =
        neither id (location buy p at) (side_entries buy b.bids) (side_entries sell b.asks)
          (side_entries buy bids') (side_entries sell b.asks) perm gone in
      (
        queue-without id buy b.bids p at level rest v.formed.bids.sorted there.0 there.1
            (ground (arith, yes, no)) (ground (arith, no)),
        queue_kept id sell b.asks (ground (arith, no)),
      )
  known sell p at level rest there perm =
      let gone = (Tracks-Permᴰ perm v.in_step).distinct.0 in
      let asks' = without sell p rest b.asks in
      let yes =
        both id (location sell p at) (side_entries buy b.bids) (side_entries sell b.asks)
          (side_entries buy b.bids) (side_entries sell asks') perm gone in
      let no =
        neither id (location sell p at) (side_entries buy b.bids) (side_entries sell b.asks)
          (side_entries buy b.bids) (side_entries sell asks') perm gone in
      (
        queue_kept id buy b.bids (ground (arith, no)),
        queue-without id sell b.asks p at level rest v.formed.asks.sorted there.0 there.1
            (ground (arith, yes, no)) (ground (arith, no)),
      )

  unknown : lookup id b.locations ≡ none → Withdrawn id b b
  unknown h =
      let out = lookup-none id (tracked b) (sym (lookup-Tracks id v.in_step) ∙ h) in
      let parts : (has id (keys (side_entries buy b.bids))
            || has id (keys (side_entries sell b.asks)))
          ≡ false =
        sym (
          ap (has id)
            (map-append (λ entry. entry.0) (side_entries buy b.bids) (side_entries sell b.asks))
          ∙ has-append id (keys (side_entries buy b.bids)) (keys (side_entries sell b.asks)))
        ∙ out in
      (
        queue_kept id buy b.bids (ground (arith, parts)),
        queue_kept id sell b.asks (ground (arith, parts)),
      )

-- In a consistent book, cancel_order returns, and the queue of each side in price-time priority is
-- then the queue from before without the order of that id: all other orders keep their prices,
-- their lots and their places.
pub cancel_order-withdraw :
    (id : OrderId) (b : OrderBook)
    → IsConsistent b
    → (found : Bool) × (b' : OrderBook) × (cancel_order id b ≡ ok (found, b'))
      × (queue b'.bids ≡ withdraw id (queue b.bids))
      × (queue b'.asks ≡ withdraw id (queue b.asks))
unfolding Cancellable
cancel_order-withdraw id b v = elim (Option-cases (lookup id b.locations)) [
  | inl h ↦ let kept = unknown id b v h in (false, b, cancel_unknown id b h, kept.0, kept.1)
  | inr (loc, h) ↦
      let (level, rest, there, perm) = cancellable b id v loc h in
      let gone = known id b v loc.side loc.price loc.node level rest there perm in
      (true, cancelled id b loc rest, cancel_known id b loc rest h there, gone.0, gone.1)
]
