-- ===== src/Book/Executed.antt =====
-- The index and the pool of the book that an order leaves.
use mathlib.Core.List.Permᴰ
use lowlatency_exec_core.Common.{
  Permᴰ, Bool-cases, ◌<◌, ◌^◌, ◌+◌, ◌∙◌, inl, false, none, inr, ◌≡◌, refl, true, arith, ◌++◌,
}
use lowlatency_exec_core.Types.{Quantity}
use lowlatency_exec_core.Slab.{allocate}
use lowlatency_exec_core.Levels.{node_layout}
use lowlatency_exec_core.Locations.{lookup, emplace}
use lowlatency_exec_core.Book.{
  OrderBook, Taker, opposite, levels_of, settle, rest_order, execute, is_positive, engine_of,
  Engine,
}
use lowlatency_exec_core.Book.Valid.{IsSorted}
use lowlatency_exec_core.Book.Sides.{
  sweep_of, settled, execute-opposite, execute_own_filled, execute_own_rested, rested,
}
use lowlatency_exec_core.Book.Tracked.{
  side_entries, location, emplace-Tracks, Tracks-Permᴰ, entry_of,
}
use lowlatency_exec_core.Book.Index.{sweep-Follows}
use lowlatency_exec_core.Book.Resting.{side_entries-put_level}
use lowlatency_exec_core.Book.Agreement.{
  IsTracked, to_Facing, of_Facing, sweep-Kept, with_levels_locations, with_levels_pool,
}

pub rest_order_locations :
    (t : Taker) (r : Quantity) (b : OrderBook)
    → (rest_order t r b).locations
      ≡ emplace t.id (location t.side t.price (allocate node_layout b.node_pool).0) b.locations
unfolding rest_order
rest_order_locations t r b = with_levels_locations _ _ t.side

pub rest_order_pool :
    (t : Taker) (r : Quantity) (b : OrderBook)
    → (rest_order t r b).node_pool ≡ (allocate node_layout b.node_pool).1
unfolding rest_order
rest_order_pool t r b = with_levels_pool _ _ t.side

module _ (t : Taker) (quantity : Quantity) (b : OrderBook) where
  abbrev e : Engine
  e = (sweep_of t quantity b).engine

  settled_locations : (settled t quantity b).locations ≡ e.locations
  unfolding settle
  settled_locations = refl

  settled_pool : (settled t quantity b).node_pool ≡ e.node_pool
  unfolding settle
  settled_pool = refl

  pub filled_locations :
      is_positive (sweep_of t quantity b).remaining ≡ false
      → ((execute t quantity b).1.locations ≡ e.locations)
        × ((execute t quantity b).1.node_pool ≡ e.node_pool)
  unfolding execute
  filled_locations done = rw done (settled_locations, settled_pool)

  rested_locations :
      is_positive (sweep_of t quantity b).remaining ≡ true
      → ((execute t quantity b).1.locations
          ≡ emplace t.id (location t.side t.price (allocate node_layout e.node_pool).0) e.locations)
        × ((execute t quantity b).1.node_pool ≡ (allocate node_layout e.node_pool).1)
  unfolding execute
  rested_locations more = rw more (
    rest_order_locations t (sweep_of t quantity b).remaining (settled t quantity b)
        ∙ rw (settled_locations, settled_pool) refl,
    rest_order_pool t (sweep_of t quantity b).remaining (settled t quantity b)
        ∙ rw settled_pool refl,
  )

  -- The book that an executed order leaves: its own level has an entry more where it rests.
  pub execute-IsTracked :
      IsSorted t.side (levels_of t.side b)
      → lookup t.id b.locations ≡ none
      → b.node_pool.total_capacity + b.node_pool.chunk_size < 2 ^ 64
      → IsTracked b
      → IsTracked (execute t quantity b).1
  unfolding settle
  execute-IsTracked sorted fresh room v =
      let other = levels_of (opposite t.side) b in
      let own = levels_of t.side b in
      let swept =
        sweep-Follows (opposite t.side) t quantity other (engine_of b) (side_entries t.side own)
          (to_Facing t.side b v) in
      let kept = sweep-Kept t.id t quantity other (engine_of b) in
      of_Facing t.side (execute t quantity b).1 (
        rw (execute-opposite t quantity b)
          (elim (Bool-cases (is_positive (sweep_of t quantity b).remaining)) [
            | inr done ↦
                rw
                  (
                    execute_own_filled t quantity b done,
                    (filled_locations done).0,
                    (filled_locations done).1,
                  )
                  swept
            | inl more ↦
                rw
                  (
                    execute_own_rested t quantity b more,
                    (rested_locations more).0,
                    (rested_locations more).1,
                  )
                  (let r = sweep_of t quantity b in
                    let n = rested t r.remaining (settled t quantity b) in
                    let front = side_entries (opposite t.side) r.rest in
                    Tracks-Permᴰ
                      (Permᴰ.trans
                        (Permᴰ.symm (
                          Permᴰ.middle (entry_of t.side t.price n) front (side_entries t.side own)))
                        (Permᴰ.append_left front
                          (Permᴰ.symm (side_entries-put_level t.side t.price n own sorted))))
                      (emplace-Tracks t.id t.side t.price (front ++ side_entries t.side own)
                        (kept.fresh fresh) (omega (arith, kept.room, room)) swept))
          ]))
