-- ===== src/Nodes/Detach.antt =====
-- The two branches of OrderBook::erase in src/order_book.cpp, on a node inside a queue.
use lowlatency_exec_core.Common.{
  ◌≡◌, refl, sym, ap, ◌∙◌, true, false, [], ◌∷◌, ◌==◌, arith, Bool-cases, inl, inr, subst, subst₂,
  some, if◌then◌else◌, ◌⊎◌,
}
use lowlatency_exec_core.Slab.{Ptr, null}
use lowlatency_exec_core.Slab.Pool.{has, Distinct}
use lowlatency_exec_core.Levels.{PriceLevel, unlink}
use lowlatency_exec_core.Levels
use lowlatency_exec_core.Nodes
use lowlatency_exec_core.Nodes.{Nodes, write, set_next, set_prev, bridge_next, bridge_prev}
use lowlatency_exec_core.Nodes.Linked.{Linked, addresses}
use lowlatency_exec_core.Nodes.Writes.{
  write_self, write_other, Linked-write, Linked-set_prev, apart,
}

-- Both branches.
abbrev pub bridged : Ptr → Nodes.PriceLevel → Nodes → Nodes.PriceLevel × Nodes
bridged node level m = let one = bridge_next node level m in bridge_prev node one.0 one.1

-- The links of a node that stands behind another one in a queue.
pub links_in :
    (m : Nodes) (before p at : Ptr) (n : Levels.OrderNode) (ns : PriceLevel) (tail : Ptr)
    → Distinct (addresses (n ∷ ns))
    → Linked m before p (n ∷ ns) tail
    → has at (addresses ns) ≡ true
    → (has (m at).prev (addresses (n ∷ ns)) ≡ true)
      × (((m at).prev == null) ≡ false)
      × (((m at).prev == at) ≡ false)
links_in m before p at n [] tail d v h = cc
links_in m before p at n (k ∷ ns) tail d v h = elim (Bool-cases (at == k.at)) [
  | inl here ↦
      let same : at ≡ k.at = ground (arith, here) in
      let prev : (m at).prev ≡ n.at = ap (λ x. (m x).prev) same ∙ v.4.3 in
      (rw prev (ground arith), rw prev v.1, rw prev (ground (arith, d.0, same)))
  | inr past ↦
      let later = links_in m n.at (m n.at).next at k ns tail d.1 v.4 (ground (arith, h, past)) in
      (ground (arith, later.0), later.1, later.2)
]

-- The next node, where there is one, is in the queue.
pub next_in :
    (m : Nodes) (before p at : Ptr) (ns : PriceLevel) (tail : Ptr)
    → Linked m before p ns tail
    → has at (addresses ns) ≡ true
    → ((m at).next == null) ≡ false
    → has (m at).next (addresses ns) ≡ true
next_in m before p at [] tail v h k = cc
next_in m before p at (n ∷ []) tail v h k =
    let same : at ≡ n.at = ground (arith, h) in
    let last : (m at).next ≡ null = ap (λ x. (m x).next) same ∙ v.4.0 in
    absurd (
      let clash : (null == null) ≡ false = subst (λ x. (x == null) ≡ false) last k in
      ground (arith, clash))
next_in m before p at (n ∷ j ∷ ns) tail v h k = elim (Bool-cases (at == n.at)) [
  | inl here ↦
      let same : at ≡ n.at = ground (arith, here) in
      let next : (m at).next ≡ j.at = ap (λ x. (m x).next) same ∙ v.4.0 in rw next (ground arith)
  | inr past ↦
      let later = next_in m n.at (m n.at).next at (j ∷ ns) tail v.4 (ground (arith, h, past)) k in
      ground (arith, later)
]

-- The memory once the nodes before and after, `q` and `r`, name each other.
abbrev pub spliced : Ptr → Ptr → Nodes → Nodes
spliced q r m = if r == null then set_next q r m else set_prev r q (set_next q r m)

abbrev pub last_of : Ptr → Ptr → Ptr → Ptr
last_of q r tail = if r == null then q else tail

pub bridged_inner :
    (node : Ptr) (level : Nodes.PriceLevel) (m : Nodes)
    → ((m node).prev == null) ≡ false
    → ((m node).prev == node) ≡ false
    → bridged node level m ≡ (
      record level { tail = last_of (m node).prev (m node).next level.tail },
      spliced (m node).prev (m node).next m,
    )
unfolding bridge_next bridge_prev
bridged_inner node level m some_prev other =
    let q = (m node).prev in
    let r = (m node).next in
    let same : set_next q r m node ≡ m node = write_other q node _ m (ground (arith, other)) in
    rw (some_prev, same)
      (elim (Bool-cases (r == null)) [ inl last ↦ rw last refl | inr more ↦ rw more refl ])

spliced_more :
    (q r : Ptr) (m : Nodes) → (r == null) ≡ false → spliced q r m ≡ set_prev r q (set_next q r m)
spliced_more q r m more = rw more refl

last_more : (q r tail : Ptr) → (r == null) ≡ false → last_of q r tail ≡ tail
last_more q r tail more = rw more refl

-- The node behind the first one goes.
splice :
    (m : Nodes) (before p : Ptr) (x n : Levels.OrderNode) (ys : PriceLevel) (tail : Ptr)
    → Distinct (addresses (x ∷ n ∷ ys))
    → Linked m before p (x ∷ n ∷ ys) tail
    → Linked (spliced x.at (m n.at).next m) before p (x ∷ ys) (last_of x.at (m n.at).next tail)
splice m before p x n [] tail d v =
    subst (λ r. Linked (spliced x.at r m) before p (x ∷ []) (last_of x.at r tail)) (sym (v.4.4.0))
      (let here = write_self x.at (record (m x.at) { next = null }) m in
        (
          v.0,
          v.1,
          ap (λ c. c.order) here ∙ v.2,
          ap (λ c. c.prev) here ∙ v.3,
          (ap (λ c. c.next) here, refl),
        ))
splice m before p x n (y ∷ ys) tail d v =
    let r = (m n.at).next in
    let next : r ≡ y.at = v.4.4.0 in
    let more : (r == null) ≡ false = rw next (v.4.4.1) in
    let apart_first : (x.at == r) ≡ false = rw next (ground (arith, d.0)) in
    let here : set_prev r x.at (set_next x.at r m) x.at ≡ record (m x.at) { next = r } =
      write_other r x.at _ (set_next x.at r m) apart_first ∙ write_self x.at _ m in
    subst₂ (λ c l. Linked c before p (x ∷ y ∷ ys) l) (sym (spliced_more x.at r m more))
      (sym (last_more x.at r tail more))
      (
        v.0,
        v.1,
        ap (λ c. c.order) here ∙ v.2,
        ap (λ c. c.prev) here ∙ v.3,
        subst (λ z. Linked (set_prev r x.at (set_next x.at r m)) x.at z (y ∷ ys) tail)
            (sym (ap (λ c. c.next) here))
            (Linked-set_prev (set_next x.at r m) n.at r y ys tail d.1.1
              (Linked-write m x.at _ n.at r (y ∷ ys) tail (ground (arith, d.0)) v.4.4) x.at),
      )

-- The queue less the node at `at`.
abbrev pub less : Ptr → PriceLevel → PriceLevel
less at [] = []
less at (n ∷ ns) = if n.at == at then ns else n ∷ less at ns

pub unlink-less :
    (at : Ptr) (ns : PriceLevel) → has at (addresses ns) ≡ true → unlink at ns ≡ some (less at ns)
unfolding unlink
unlink-less at [] h = cc
unlink-less at (n ∷ ns) h = elim (Bool-cases (n.at == at)) [
  | inl here ↦ rw here refl
  | inr past ↦ rw (past, unlink-less at ns (ground (arith, h, past))) refl
]

pub spliced_other :
    (q r k : Ptr) (m : Nodes)
    → (k == q) ≡ false
    → (r == null) ≡ true ⊎ (k == r) ≡ false
    → spliced q r m k ≡ m k
spliced_other q r k m h j = elim (Bool-cases (r == null)) [
  | inl last ↦ rw last (write_other q k _ m h)
  | inr more ↦ elim j [
    | inl last ↦ cc
    | inr other ↦ rw more (write_other r k _ (set_next q r m) other ∙ write_other q k _ m h)
  ]
]

-- The node at `at` goes, behind the first one.
pub detach :
    (m : Nodes) (before p at : Ptr) (x : Levels.OrderNode) (ns : PriceLevel) (tail : Ptr)
    → Distinct (addresses (x ∷ ns))
    → Linked m before p (x ∷ ns) tail
    → has at (addresses ns) ≡ true
    → Linked
        (spliced (m at).prev (m at).next m)
        before
        p
        (x ∷ less at ns)
        (last_of (m at).prev (m at).next tail)
detach m before p at x [] tail d v h = cc
detach m before p at x (n ∷ ns) tail d v h = elim (Bool-cases (n.at == at)) [
  | inl here ↦
      let same : n.at ≡ at = ground (arith, here) in
      rw here (
        subst
          (λ a.
            Linked (spliced (m a).prev (m a).next m) before p (x ∷ ns)
              (last_of (m a).prev (m a).next tail))
          same
          (subst
            (λ q.
              Linked (spliced q (m n.at).next m) before p (x ∷ ns) (last_of q (m n.at).next tail))
            (sym (v.4.3)) (splice m before p x n ns tail d v)))
  | inr past ↦
      let inside : has at (addresses ns) ≡ true = ground (arith, h, past) in
      let q = (m at).prev in
      let r = (m at).next in
      let deeper = detach m x.at (m x.at).next at n ns tail d.1 v.4 inside in
      let links = links_in m x.at (m x.at).next at n ns tail d.1 v.4 inside in
      let not_prev = apart x.at q (addresses (n ∷ ns)) d.0 links.0 in
      let here : spliced q r m x.at ≡ m x.at =
        spliced_other q r x.at m (ground (arith, not_prev)) (elim (Bool-cases (r == null)) [
          | inl last ↦ inl last
          | inr more ↦
              let not_next =
                apart x.at r (addresses (n ∷ ns)) d.0
                  (next_in m x.at (m x.at).next at (n ∷ ns) tail v.4 h more) in
              inr (ground (arith, not_next))
        ]) in
      rw past (
        v.0,
        v.1,
        ap (λ c. c.order) here ∙ v.2,
        ap (λ c. c.prev) here ∙ v.3,
        subst (λ z. Linked (spliced q r m) x.at z (n ∷ less at ns) (last_of q r tail))
            (sym (ap (λ c. c.next) here)) deeper,
      )
]
