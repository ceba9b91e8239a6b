-- ===== src/Nodes/Writes.antt =====
-- What writing to one node keeps of a queue, and a queue that gains a node at either end.
use lowlatency_exec_core.Common.{
  ◌≡◌, refl, sym, ap, ◌∙◌, true, false, List, [], ◌∷◌, ◌++◌, ◌==◌, arith, Bool-cases, inl, inr,
  subst,
}
use lowlatency_exec_core.Types.{RestingOrder}
use lowlatency_exec_core.Slab.{Ptr, null}
use lowlatency_exec_core.Slab.Pool.{has, Distinct}
use lowlatency_exec_core.Levels.{PriceLevel}
use lowlatency_exec_core.Levels
use lowlatency_exec_core.Nodes
use lowlatency_exec_core.Nodes.{Nodes, write, set_next, set_prev}
use lowlatency_exec_core.Nodes.Linked.{Linked, addresses}

pub write_self : (p : Ptr) (c : Nodes.OrderNode) (m : Nodes) → write p c m p ≡ c
unfolding write
write_self p c m = let self : (p == p) ≡ true = ground arith in rw self refl

pub write_other :
    (p q : Ptr) (c : Nodes.OrderNode) (m : Nodes) → (q == p) ≡ false → write p c m q ≡ m q
unfolding write
write_other p q c m h = rw h refl

-- Memories that agree on the nodes of a queue have the same queue.
pub Linked-agree :
    (m m' : Nodes) (before p : Ptr) (ns : PriceLevel) (tail : Ptr)
    → ((q : Ptr) → has q (addresses ns) ≡ true → m' q ≡ m q)
    → Linked m before p ns tail
    → Linked m' before p ns tail
Linked-agree m m' before p [] tail same v = v
Linked-agree m m' before p (n ∷ ns) tail same v =
    let here : m' n.at ≡ m n.at = same n.at (ground arith) in
    (
      v.0,
      v.1,
      ap (λ c. c.order) here ∙ v.2,
      ap (λ c. c.prev) here ∙ v.3,
      Linked-agree m m' n.at (m' n.at).next ns tail (λ q h. same q (ground (arith, h)))
          (rw here v.4),
    )

pub apart : (p q : Ptr) (xs : List Ptr) → has p xs ≡ false → has q xs ≡ true → (q == p) ≡ false
apart p q xs out h = elim (Bool-cases (q == p)) [
  | inr differs ↦ differs
  | inl equal ↦
      let same : q ≡ p = ground (arith, equal) in
      let clash : has p xs ≡ true = subst (λ x. has x xs ≡ true) same h in cc
]

pub Linked-write :
    (m : Nodes) (k : Ptr) (c : Nodes.OrderNode) (before p : Ptr) (ns : PriceLevel) (tail : Ptr)
    → has k (addresses ns) ≡ false
    → Linked m before p ns tail
    → Linked (write k c m) before p ns tail
Linked-write m k c before p ns tail out v =
    Linked-agree m (write k c m) before p ns tail
      (λ q h. write_other k q c m (apart k q (addresses ns) out h)) v

-- The last node of a queue that has one is in it, and is not null.
pub tail_in :
    (m : Nodes) (before p : Ptr) (n : Levels.OrderNode) (ns : PriceLevel) (tail : Ptr)
    → Linked m before p (n ∷ ns) tail
    → (has tail (addresses (n ∷ ns)) ≡ true) × ((tail == null) ≡ false)
tail_in m before p n [] tail v = (ground (arith, v.4.1), rw (v.4.1) v.1)
tail_in m before p n (k ∷ ns) tail v =
    let later = tail_in m n.at (m n.at).next k ns tail v.4 in (ground (arith, later.0), later.1)

module _ (m : Nodes) (before p : Ptr) (n : Levels.OrderNode) (ns : PriceLevel) (tail : Ptr)
    (d : Distinct (addresses (n ∷ ns))) (v : Linked m before p (n ∷ ns) tail) where
  -- A queue whose first node is told another one before it.
  pub Linked-set_prev : (before' : Ptr) → Linked (set_prev p before' m) before' p (n ∷ ns) tail
  Linked-set_prev before' =
      subst (λ x. Linked (set_prev x before' m) before' p (n ∷ ns) tail) (sym v.0)
        (
          v.0,
          v.1,
          ap (λ c. c.order) here ∙ v.2,
          ap (λ c. c.prev) here,
          subst (λ x. Linked (set_prev n.at before' m) n.at x ns tail) (sym (ap (λ c. c.next) here))
              (Linked-write m n.at _ n.at (m n.at).next ns tail d.0 v.4),
        )
    where
      here : set_prev n.at before' m n.at ≡ record (m n.at) { prev = before' }
      here = write_self n.at _ m

-- The memory once the node `at` stands behind `tail`.
abbrev pub behind : Ptr → Ptr → Nodes.OrderNode → Nodes → Nodes
behind at tail c m = set_next tail at (write at c m)

module _ (at : Ptr) (order : RestingOrder) (nonnull : (at == null) ≡ false) where
  abbrev new : Levels.OrderNode
  new = record { at = at; order = order }

  abbrev cell : Ptr → Nodes.OrderNode
  cell tail = record { order = order; prev = tail; next = null }

  -- A queue that is only the new node.
  pub Linked-new : (m : Nodes) → Linked (write at (cell null) m) null at (new ∷ []) at
  Linked-new m =
      let here = write_self at (cell null) m in
      (refl, nonnull, ap (λ c. c.order) here, ap (λ c. c.prev) here, (ap (λ c. c.next) here, refl))

  -- A queue whose last node is `tail`, and the new one behind it.
  pub Linked-behind :
      (m : Nodes) (before p : Ptr) (n : Levels.OrderNode) (ns : PriceLevel) (tail : Ptr)
      → has at (addresses (n ∷ ns)) ≡ false
      → Distinct (addresses (n ∷ ns))
      → Linked m before p (n ∷ ns) tail
      → Linked (behind at tail (cell tail) m) before p (n ∷ (ns ++ new ∷ [])) at
  Linked-behind m before p n [] tail out d v =
      subst (λ x. Linked (behind at x (cell x) m) before p (n ∷ new ∷ []) at) (sym (v.4.1))
        (let first : write at (cell n.at) m n.at ≡ m n.at =
            write_other at n.at (cell n.at) m (ground (arith, out)) in
          let here : behind at n.at (cell n.at) m n.at ≡ record (m n.at) { next = at } =
            write_self n.at _ (write at (cell n.at) m)
            ∙ ap {B = Nodes.OrderNode} (λ c. record c { next = at }) first in
          let there : behind at n.at (cell n.at) m at ≡ cell n.at =
            write_other n.at at _ (write at (cell n.at) m) (ground (arith, out))
            ∙ write_self at (cell n.at) m in
          (
            v.0,
            v.1,
            ap (λ c. c.order) here ∙ v.2,
            ap (λ c. c.prev) here ∙ v.3,
            (
              ap (λ c. c.next) here,
              nonnull,
              ap (λ c. c.order) there,
              ap (λ c. c.prev) there,
              (ap (λ c. c.next) there, refl),
            ),
          ))
  Linked-behind m before p n (k ∷ ns) tail out d v =
      let inside = (tail_in m n.at (m n.at).next k ns tail v.4).0 in
      let here : behind at tail (cell tail) m n.at ≡ m n.at =
        write_other tail n.at _ (write at (cell tail) m)
          (let differs = apart n.at tail (addresses (k ∷ ns)) d.0 inside in ground (arith, differs))
        ∙ write_other at n.at (cell tail) m (ground (arith, out)) in
      (
        v.0,
        v.1,
        ap (λ c. c.order) here ∙ v.2,
        ap (λ c. c.prev) here ∙ v.3,
        subst (λ x. Linked (behind at tail (cell tail) m) n.at x (k ∷ (ns ++ new ∷ [])) at)
            (sym (ap (λ c. c.next) here))
            (Linked-behind m n.at (m n.at).next k ns tail (ground (arith, out)) d.1 v.4),
      )
