-- ===== src/Book/Agreement.antt =====
-- An order that is executed keeps the index and the pool in step with the nodes of the book.
use lowlatency_exec_core.Slab.{deallocate}
use mathlib.Core.List.Permᴰ
use lowlatency_exec_core.Common.{◌+◌, ◌∙◌, ◌∷◌, ◌≡◌, [], refl, none, ◌++◌, arith}
use lowlatency_exec_core.Types.{Side, buy, sell, OrderId, Price, Quantity}
use lowlatency_exec_core.Levels.{OrderNode, PriceLevel, Levels, pop_front}
use lowlatency_exec_core.Locations.{Locations, lookup, forget}
use lowlatency_exec_core.Book.{
  OrderBook, Taker, Engine, retire, next_event, fill_level, sweep, opposite, levels_of, with_levels,
}
use lowlatency_exec_core.Book.Loops.{fill_level_rule, sweep_rule}
use lowlatency_exec_core.Book.Tracked.{Tracks, side_entries, Tracks-Permᴰ}

-- The entries of all nodes of the book.
abbrev pub tracked : OrderBook → Locations
tracked b = side_entries buy b.bids ++ side_entries sell b.asks

-- The index holds the entries of the book's nodes and the pool their blocks.
abbrev pub IsTracked : OrderBook → Type 0
IsTracked b = Tracks b.locations b.node_pool (tracked b)

-- The same, the other side of an order first.
abbrev Facing : Side → OrderBook → Type 0
Facing s b =
    Tracks b.locations b.node_pool
      (side_entries (opposite s) (levels_of (opposite s) b) ++ side_entries s (levels_of s b))

pub to_Facing : (s : Side) (b : OrderBook) → IsTracked b → Facing s b
to_Facing buy b v =
    Tracks-Permᴰ (Permᴰ.append_comm (side_entries buy b.bids) (side_entries sell b.asks)) v
to_Facing sell b v = v

pub of_Facing : (s : Side) (b : OrderBook) → Facing s b → IsTracked b
of_Facing buy b v =
    Tracks-Permᴰ (Permᴰ.append_comm (side_entries sell b.asks) (side_entries buy b.bids)) v
of_Facing sell b v = v

lookup-forget-none :
    (id k : OrderId) (m : Locations) → lookup id m ≡ none → lookup id (forget k m) ≡ none
unfolding lookup forget
lookup-forget-none id k [] h = h
lookup-forget-none id k ((j, v) ∷ m) h = ground (arith, lookup-forget-none id k m)

-- What the loops leave alone: the room in the pool, and the ids that the index does not have.
pub record Kept (id : OrderId) (e f : Engine) : Type 0 where
  pub room :
      f.node_pool.total_capacity + f.node_pool.chunk_size
      ≡ e.node_pool.total_capacity + e.node_pool.chunk_size
  pub fresh : lookup id e.locations ≡ none → lookup id f.locations ≡ none

Kept-trans : {id : OrderId} {e f g : Engine} → Kept id e f → Kept id f g → Kept id e g
Kept-trans a b = record { room = b.room ∙ a.room; fresh = λ h. b.fresh (a.fresh h) }

retire-Kept :
    (id : OrderId) (n : OrderNode) (ns : PriceLevel) (e : Engine)
    → Kept id e (retire n ns (next_event e)).1
unfolding retire pop_front deallocate
retire-Kept id n ns e = record { room = refl; fresh = lookup-forget-none id n.order.id e.locations }

fill_level-Kept :
    (id : OrderId) (t : Taker) (p : Price) (r : Quantity) (level : PriceLevel) (e : Engine)
    → Kept id e (fill_level t p r level e).engine
fill_level-Kept id t p =
    fill_level_rule t p (λ r level e f. Kept id e f.engine)
      (λ r e. record { room = refl; fresh = λ h. h })
      (λ r n ns e done. record { room = refl; fresh = λ h. h })
      (λ r n ns e f more whole ih. Kept-trans (retire-Kept id n ns e) ih)
      (λ r n ns e more part. record { room = refl; fresh = λ h. h })

pub sweep-Kept :
    (id : OrderId) (t : Taker) (r : Quantity) (ls : Levels) (e : Engine)
    → Kept id e (sweep t r ls e).engine
sweep-Kept id t =
    sweep_rule t (λ r ls e f. Kept id e f.engine)
      (λ r ls e h. record { room = refl; fresh = λ h. h })
      (λ r p level ls e k near emptied ih. Kept-trans (fill_level-Kept id t p r level e) ih)
      (λ r p level ls e near kept. fill_level-Kept id t p r level e)

module _ (ls : Levels) (b : OrderBook) where
  pub with_levels_locations : (s : Side) → (with_levels s ls b).locations ≡ b.locations
  with_levels_locations buy = refl
  with_levels_locations sell = refl

  pub with_levels_pool : (s : Side) → (with_levels s ls b).node_pool ≡ b.node_pool
  with_levels_pool buy = refl
  with_levels_pool sell = refl
