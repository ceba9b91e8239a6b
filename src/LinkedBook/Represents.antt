-- ===== src/LinkedBook/Represents.antt =====
-- When a book of src/order_book.cpp with its links is a book of `Book`.
use lowlatency_exec_core.Common.{◌≡◌, refl, ap, ◌∙◌, subst, List, [], ◌∷◌, ◌++◌, map-append}
use lowlatency_exec_core.Types.{Side, buy, sell, Price}
use lowlatency_exec_core.Slab.{Ptr}
use lowlatency_exec_core.Slab.Used.{IsLive}
use lowlatency_exec_core.Levels.{Levels}
use lowlatency_exec_core.Levels
use lowlatency_exec_core.Nodes.{Nodes}
use lowlatency_exec_core.Nodes.Linked.{addresses}
use lowlatency_exec_core.Book
use lowlatency_exec_core.Book.Tracked.{entries, side_entries, blocks}
use lowlatency_exec_core.Book.Agreement.{IsTracked}
use lowlatency_exec_core.LinkedBook.{OrderBook, SideLevels}
use lowlatency_exec_core.LinkedBook.Stands.{Stands, places}

-- The linked book `l` has the levels of `b`, and its index, its pool and its counter.
pub record Represents (l : OrderBook) (b : Book.OrderBook) : Type 0 where
  pub bids : Stands l.nodes l.bids b.bids
  pub asks : Stands l.nodes l.asks b.asks
  pub locations : l.locations ≡ b.locations
  pub node_pool : l.node_pool ≡ b.node_pool
  pub next_sequence : l.next_sequence ≡ b.next_sequence

-- The linked book with the given levels and nodes that has the rest from `b`.
abbrev pub linked_of : SideLevels → SideLevels → Nodes → Book.OrderBook → OrderBook
linked_of bids asks m b = record {
  bids = bids;
  asks = asks;
  nodes = m;
  locations = b.locations;
  node_pool = b.node_pool;
  next_sequence = b.next_sequence;
}

pub Represents-linked_of :
    (l : OrderBook) (b : Book.OrderBook) → Represents l b → l ≡ linked_of l.bids l.asks l.nodes b
Represents-linked_of l b v = rw (← v.locations, ← v.node_pool, ← v.next_sequence) refl

-- The nodes of both sides.
abbrev pub all_places : Book.OrderBook → List Ptr
all_places b = places b.bids ++ places b.asks

blocks-entries :
    (s : Side) (p : Price) (ns : Levels.PriceLevel) → blocks (entries s p ns) ≡ addresses ns
blocks-entries s p [] = refl
blocks-entries s p (n ∷ ns) = ap (λ xs. n.at ∷ xs) (blocks-entries s p ns)

pub blocks-side_entries : (s : Side) (ls : Levels) → blocks (side_entries s ls) ≡ places ls
blocks-side_entries s [] = refl
blocks-side_entries s ((p, ns) ∷ ls) =
    map-append (λ entry. entry.1.node) (entries s p ns) (side_entries s ls)
    ∙ rw (blocks-entries s p ns, blocks-side_entries s ls) refl

-- Where the pool is in step with a book, the blocks in use are the nodes of both sides.
pub IsTracked-IsLive : (b : Book.OrderBook) → IsTracked b → IsLive b.node_pool (all_places b)
IsTracked-IsLive b v =
    subst (IsLive b.node_pool)
      (map-append (λ entry. entry.1.node) (side_entries buy b.bids) (side_entries sell b.asks)
        ∙ rw (blocks-side_entries buy b.bids, blocks-side_entries sell b.asks) refl)
      v.live
