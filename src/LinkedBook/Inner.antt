-- ===== src/LinkedBook/Inner.antt =====
-- The inner loop of `add_limit_order` on linked nodes, against the same loop on the list of nodes.
use lowlatency_exec_core.Levels.{Levels}
use lowlatency_exec_core.Common.{
  ℕ, zero, suc, ◌≡◌, refl, sym, ap, ◌∙◌, subst, true, false, some, List, [], ◌∷◌, ◌++◌, arith,
  Bool-cases, inl, inr, if◌then◌else◌, none,
}
use lowlatency_exec_core.Common.Int.{◌-ℤ◌, min_ℤ}
use lowlatency_exec_core.Types.{Price, Quantity, Trade}
use lowlatency_exec_core.Slab.{Ptr, deallocate, SlabAllocator}
use lowlatency_exec_core.Levels
use lowlatency_exec_core.Locations.{forget}
use lowlatency_exec_core.Nodes.{Nodes, PriceLevel, pop_front}
use lowlatency_exec_core.Nodes.Linked.{Linked, IsQueue, addresses}
use lowlatency_exec_core.Nodes.Writes.{write_self, write_other, Linked-write}
use lowlatency_exec_core.Nodes.Queue.{Refines, pop_front-Refines}
use lowlatency_exec_core.Book.{
  Taker, Engine, Run, run_of, trade_of, is_positive, is_zero, next_event, with_quantity, retire,
}
use lowlatency_exec_core.Book.While
use lowlatency_exec_core.LinkedBook.{set_quantity, fill_body, fill_while, goes_on}
use lowlatency_exec_core.LinkedBook.Stands.{Keeps, Within, Within-out}

-- The loop on the links stands at `s` where the loop on the lists stands at `c`, with nothing written
-- outside `ps` since the memory was `m`.
abbrev pub Follows : Nodes → List Ptr → Run (PriceLevel × Nodes) → Run Levels.PriceLevel → Type 0
Follows m ps s c =
    (level : PriceLevel) × (m' : Nodes) × (s ≡ run_of c.trades c.remaining (level, m') c.engine)
    × IsQueue m' level c.rest
    × Keeps ps m m'
    × Within (addresses c.rest) ps

set_quantity-IsQueue :
    (m : Nodes) (level : PriceLevel) (n : Levels.OrderNode) (ns : Levels.PriceLevel) (q : Quantity)
    → IsQueue m level (n ∷ ns)
    → IsQueue (set_quantity n.at q m) level (with_quantity n q ∷ ns)
set_quantity-IsQueue m level n ns q v =
    let there =
      write_self n.at (record (m n.at) { order = record ((m n.at).order) { quantity = q } }) m in
    record {
      linked = (
        v.linked.0,
        v.linked.1,
        ap (λ c. c.order) there ∙ rw (v.linked.2) refl,
        ap (λ c. c.prev) there ∙ v.linked.3,
        subst (λ x. Linked (set_quantity n.at q m) n.at x ns level.tail)
            (sym (ap (λ c. c.next) there))
            (Linked-write m n.at _ n.at (m n.at).next ns level.tail v.distinct.0 v.linked.4),
      );
      distinct = v.distinct;
    }

module _ (t : Taker) (p : Price) (ts : List Trade) (r : Quantity) (e : Engine) (m : Nodes)
    (level : PriceLevel) (n : Levels.OrderNode) (ns : Levels.PriceLevel)
    (v : IsQueue m level (n ∷ ns)) where
  abbrev traded : Quantity
  traded = min_ℤ r n.order.quantity

  abbrev kept : Quantity
  kept = n.order.quantity -ℤ traded

  -- The memory with the new quantity, and what pop_front makes of it.
  abbrev lowered : Nodes
  lowered = set_quantity n.at kept m

  abbrev popped : PriceLevel × Nodes × SlabAllocator
  popped = pop_front level lowered e.node_pool

  abbrev done : List Trade
  done = ts ++ trade_of t p traded n e.next_sequence ∷ []

  fill_body-head : fill_body t p (run_of ts r (level, m) e) ≡ (
      if is_zero kept
      then run_of done
          (r -ℤ traded)
          (popped.0, popped.1)
          (record (next_event e) {
            locations = forget n.order.id e.locations;
            node_pool = popped.2;
          })
      else run_of done (r -ℤ traded) (level, lowered) (next_event e))
  unfolding fill_body
  fill_body-head = rw (v.linked.0, v.linked.2) refl

  lowered-Keeps : Keeps (addresses (n ∷ ns)) m lowered
  lowered-Keeps q out = write_other n.at q _ m (ground (arith, out))

  -- The queue without its head.
  popped-Refines : Refines lowered (addresses (n ∷ ns)) ns (deallocate n.at e.node_pool) popped
  unfolding Levels.pop_front
  popped-Refines =
      pop_front-Refines level lowered e.node_pool (with_quantity n kept) ns
        (set_quantity-IsQueue m level n ns kept v)

  popped-Keeps : Keeps (addresses (n ∷ ns)) m popped.1
  popped-Keeps q out = elim (popped-Refines.2 q) [
    | inl inside ↦ absurd (ground (arith, out, inside))
    | inr same ↦ same ∙ lowered-Keeps q out
  ]

  fill_body-Follows :
      Follows m
        (addresses (n ∷ ns))
        (fill_body t p (run_of ts r (level, m) e))
        (While.fill_body t p n ns (run_of ts r (n ∷ ns) e))
  unfolding While.fill_body retire Levels.pop_front
  fill_body-Follows =
      subst
        (λ s. Follows m (addresses (n ∷ ns)) s (While.fill_body t p n ns (run_of ts r (n ∷ ns) e)))
        (sym fill_body-head)
        (elim (Bool-cases (is_zero kept)) [
          | inl used_up ↦ rw used_up (
            popped.0,
            popped.1,
            rw (popped-Refines.1) refl,
            popped-Refines.0,
            popped-Keeps,
            λ q inside. ground (arith, inside),
          )
          | inr some_left ↦ rw some_left (
            level,
            lowered,
            refl,
            set_quantity-IsQueue m level n ns kept v,
            lowered-Keeps,
            λ q inside. inside,
          )
        ])

module _ (t : Taker) (p : Price) (m : Nodes) (ps : List Ptr) where
  fill_while_stop :
      (fuel : ℕ) (s : Run (PriceLevel × Nodes)) → goes_on s ≡ false → fill_while fuel t p s ≡ some s
  unfolding fill_while
  fill_while_stop zero s h = rw h refl
  fill_while_stop (suc fuel) s h = rw h refl

  fill_while_round :
      (fuel : ℕ) (level : PriceLevel) (m' : Nodes) (ts : List Trade) (r : Quantity)
      (n : Levels.OrderNode) (ns : Levels.PriceLevel) (e : Engine)
      → IsQueue m' level (n ∷ ns)
      → is_positive r ≡ true
      → fill_while (suc fuel) t p (run_of ts r (level, m') e)
        ≡ fill_while fuel t p (fill_body t p (run_of ts r (level, m') e))
  unfolding fill_while
  fill_while_round fuel level m' ts r n ns e v more =
      rw (more, v.linked.0, v.linked.1, fill_while) refl

  -- The loop on the links ends, at what the loop on the lists ends at.
  abbrev Ends : ℕ → Run (PriceLevel × Nodes) → Run Levels.PriceLevel → Type 0
  Ends fuel s c =
      (s' : Run (PriceLevel × Nodes)) × (fill_while fuel t p s ≡ some s') × Follows m ps s' c

  module _ (level : PriceLevel) (m' : Nodes) (k : Keeps ps m m') (ts : List Trade) (r : Quantity)
      (e : Engine) where
    stopped :
        (fuel : ℕ) (ns : Levels.PriceLevel) (c : Run Levels.PriceLevel)
        → IsQueue m' level ns
        → Within (addresses ns) ps
        → goes_on (run_of ts r (level, m') e) ≡ false
        → some (run_of ts r ns e) ≡ some c
        → Ends fuel (run_of ts r (level, m') e) c
    stopped fuel ns c v w h same =
        let named : run_of ts r ns e ≡ c = cc in
        subst (Ends fuel (run_of ts r (level, m') e)) named (
          run_of ts r (level, m') e,
          fill_while_stop fuel (run_of ts r (level, m') e) h,
          (level, m', refl, v, k, w),
        )

  pub fill_while-Follows :
      (fuel : ℕ) (level : PriceLevel) (m' : Nodes) (ts : List Trade) (r : Quantity)
      (ns : Levels.PriceLevel) (e : Engine) (c : Run Levels.PriceLevel)
      → IsQueue m' level ns
      → Keeps ps m m'
      → Within (addresses ns) ps
      → While.fill_while fuel t p (run_of ts r ns e) ≡ some c
      → Ends fuel (run_of ts r (level, m') e) c
  unfolding While.fill_while
  fill_while-Follows zero level m' ts r [] e c v k w h =
      stopped level m' k ts r e zero [] c v w (rw (v.linked.0) (ground arith)) h
  fill_while-Follows (suc fuel) level m' ts r [] e c v k w h =
      stopped level m' k ts r e (suc fuel) [] c v w (rw (v.linked.0) (ground arith)) h
  fill_while-Follows zero level m' ts r (n ∷ ns) e c v k w h = elim (Bool-cases (is_positive r)) [
    | inl more ↦ absurd (never (rw more at h))
    | inr enough ↦ stopped level m' k ts r e zero (n ∷ ns) c v w (rw enough refl) (rw enough at h)
  ]
    where
      never : none ≡ some c → ⊥
      never same = cc
  fill_while-Follows (suc fuel) level m' ts r (n ∷ ns) e c v k w h =
      elim (Bool-cases (is_positive r)) [
        | inr enough ↦
            stopped level m' k ts r e (suc fuel) (n ∷ ns) c v w (rw enough refl) (rw enough at h)
        | inl more ↦
            let c' = While.fill_body t p n ns (run_of ts r (n ∷ ns) e) in
            let (level', m'', same, v', k', w') = fill_body-Follows t p ts r e m' level n ns v in
            let (s, ended, f) =
              fill_while-Follows fuel level' m'' c'.trades c'.remaining c'.rest c'.engine c v'
                (λ q out. k' q (Within-out (addresses (n ∷ ns)) ps w q out) ∙ k q out)
                (λ q inside. w q (w' q inside)) (rw more at h) in
            (
              s,
              fill_while_round fuel level m' ts r n ns e v more
                  ∙ (ap (fill_while fuel t p) same ∙ ended),
              f,
            )
      ]
