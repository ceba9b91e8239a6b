-- ===== src/Book/Tracked.antt =====
-- The index and the pool against the nodes of the book: the index has one entry for each node, under
-- the id of its order and with its side, price and address, and the nodes' blocks are those in use.
use mathlib.Core.List.Permᴰ
use lowlatency_exec_core.Common.{
  Permᴰ, map, ◌++◌, sym, ◌∷◌, ◌+◌, ◌≡◌, refl, List, subst, ◌^◌, ◌∙◌, none, ◌<◌, [],
}
use lowlatency_exec_core.Slab.{Ptr, SlabAllocator, allocate, deallocate}
use lowlatency_exec_core.Slab.Pool.{Distinct}
use lowlatency_exec_core.Slab.Used.{
  Distinct-Permᴰ, IsLive, IsLive-Permᴰ, allocate-IsLive, deallocate-IsLive,
}
use lowlatency_exec_core.Types.{Side, OrderId, Price}
use lowlatency_exec_core.Levels.{OrderNode, PriceLevel, Levels, node_layout}
use lowlatency_exec_core.Locations.{OrderLocation, Locations, lookup, forget, emplace}
use lowlatency_exec_core.Locations.Keys.{keys, lookup-none, forget_head, forget-Permᴰ, lookup-Permᴰ}

abbrev pub location : Side → Price → Ptr → OrderLocation
location s p at = record { side = s; price = p; node = at }

-- The entry that the index should have for a node.
abbrev pub entry_of : Side → Price → OrderNode → OrderId × OrderLocation
entry_of s p n = (n.order.id, location s p n.at)

abbrev pub entries : Side → Price → PriceLevel → Locations
entries s p [] = []
entries s p (n ∷ ns) = entry_of s p n ∷ entries s p ns

abbrev pub side_entries : Side → Levels → Locations
side_entries s [] = []
side_entries s ((p, level) ∷ ls) = entries s p level ++ side_entries s ls

abbrev pub blocks : Locations → List Ptr
blocks m = map (λ entry. entry.1.node) m

-- The index holds the entries `m`, which have different ids, and the pool has their blocks in use.
pub record Tracks (index : Locations) (pool : SlabAllocator) (m : Locations) : Type 0 where
  pub agrees : Permᴰ index m
  pub distinct : Distinct (keys m)
  pub live : IsLive pool (blocks m)

module _ {index : Locations} {pool : SlabAllocator} where
  pub Tracks-Permᴰ : {m m' : Locations} → Permᴰ m m' → Tracks index pool m → Tracks index pool m'
  Tracks-Permᴰ p v = record {
    agrees = Permᴰ.trans v.agrees p;
    distinct = Distinct-Permᴰ (Permᴰ.map (λ entry. entry.0) p) v.distinct;
    live = IsLive-Permᴰ (Permᴰ.map (λ entry. entry.1.node) p) v.live;
  }

  -- The index answers as the entries do.
  pub lookup-Tracks :
      (id : OrderId) {m : Locations} → Tracks index pool m → lookup id index ≡ lookup id m
  lookup-Tracks id v = sym (lookup-Permᴰ id (Permᴰ.symm v.agrees) v.distinct)

  -- `locations_.erase(id)` and `deallocate`
  pub forget-Tracks :
      (id : OrderId) (loc : OrderLocation) (m : Locations)
      → Tracks index pool ((id, loc) ∷ m)
      → Tracks (forget id index) (deallocate loc.node pool) m
  forget-Tracks id loc m v = record {
    agrees =
        subst (Permᴰ (forget id index)) (forget_head id loc m v.distinct.0)
          (forget-Permᴰ id v.agrees);
    distinct = v.distinct.1;
    live = deallocate-IsLive node_layout pool loc.node (blocks m) v.live;
  }

  -- `allocate` and `locations_.emplace(id, ...)`, of an id that the index does not have
  pub emplace-Tracks :
      (id : OrderId) (s : Side) (p : Price) (m : Locations)
      → lookup id index ≡ none
      → pool.total_capacity + pool.chunk_size < 2 ^ 64
      → Tracks index pool m
      → Tracks
          (emplace id (location s p (allocate node_layout pool).0) index)
          (allocate node_layout pool).1
          ((id, location s p (allocate node_layout pool).0) ∷ m)
  unfolding emplace
  emplace-Tracks id s p m fresh room v = record {
    agrees = rw (fresh, emplace) (Permᴰ.cons refl v.agrees);
    distinct = (lookup-none id m (sym (lookup-Tracks id v) ∙ fresh), v.distinct);
    live = allocate-IsLive node_layout pool (blocks m) room v.live;
  }
