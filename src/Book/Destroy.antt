-- ===== src/Book/Destroy.antt =====
-- The destructor of OrderBook in src/order_book.cpp: the nodes of each level go back to the pool.
use lowlatency_exec_core.Common.{
  ◌≡◌, ◌∙◌, sym, ap, List, [], ◌∷◌, ◌++◌, map-append, append_assoc, append-nil, subst,
}
use lowlatency_exec_core.Types.{Side, buy, sell, Price}
use lowlatency_exec_core.Slab.{Ptr, SlabAllocator, used_blocks, deallocate}
use lowlatency_exec_core.Slab.Used.{IsLive, deallocate-IsLive}
use lowlatency_exec_core.Levels.{PriceLevel, Levels, node_layout}
use lowlatency_exec_core.Nodes.Reads.{release}
use lowlatency_exec_core.Book.{OrderBook}
use lowlatency_exec_core.Book.Tracked.{entries, side_entries, blocks}
use lowlatency_exec_core.Book.Consistent.{IsConsistent}

unfoldable pub release_levels : Levels → SlabAllocator → SlabAllocator
unfolding release
release_levels [] pool = pool
release_levels ((p, level) ∷ ls) pool = release_levels ls (release level pool)

-- OrderBook::~OrderBook, up to the destructors of its members: the pool that it leaves.
unfoldable pub destroy : OrderBook → SlabAllocator
unfolding release_levels
destroy b = release_levels b.asks (release_levels b.bids b.node_pool)

release-IsLive :
    (s : Side) (p : Price) (ns : PriceLevel) (rest : List Ptr) (pool : SlabAllocator)
    → IsLive pool (blocks (entries s p ns) ++ rest)
    → IsLive (release ns pool) rest
unfolding release
release-IsLive s p [] rest pool v = v
release-IsLive s p (n ∷ ns) rest pool v =
    release-IsLive s p ns rest (deallocate n.at pool)
      (deallocate-IsLive node_layout pool n.at (blocks (entries s p ns) ++ rest) v)

release_levels-IsLive :
    (s : Side) (ls : Levels) (rest : List Ptr) (pool : SlabAllocator)
    → IsLive pool (blocks (side_entries s ls) ++ rest)
    → IsLive (release_levels ls pool) rest
unfolding release_levels
release_levels-IsLive s [] rest pool v = v
release_levels-IsLive s ((p, level) ∷ ls) rest pool v =
    let split =
      ap (λ xs. xs ++ rest)
        (map-append (λ entry. entry.1.node) (entries s p level) (side_entries s ls))
      ∙ append_assoc (blocks (entries s p level)) (blocks (side_entries s ls)) rest in
    release_levels-IsLive s ls rest (release level pool) (
      release-IsLive s p level (blocks (side_entries s ls) ++ rest) pool
        (subst (IsLive pool) split v))

-- The destructor of a consistent book gives back every block in use and none twice: it leaves a
-- well-formed pool that counts no block in use.
pub destroy-used_blocks :
    (b : OrderBook) → IsConsistent b → IsLive (destroy b) [] × (used_blocks (destroy b) ≡ 0)
unfolding destroy used_blocks
destroy-used_blocks b v =
    let bids = side_entries buy b.bids in
    let asks = side_entries sell b.asks in
    let split =
      map-append (λ entry. entry.1.node) bids asks
      ∙ ap (λ xs. blocks bids ++ xs) (sym (append-nil (blocks asks))) in
    let live = release_levels-IsLive sell b.asks [] (release_levels b.bids b.node_pool) (
      release_levels-IsLive buy b.bids (blocks asks ++ []) b.node_pool
        (subst (IsLive b.node_pool) split v.in_step.live)) in
    (live, live.pool.in_use)
