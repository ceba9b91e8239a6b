-- ===== src/Nodes/Linked.antt =====
-- When linked nodes of src/order_book.cpp are the queue that a list names.
use lowlatency_exec_core.Common.{
  ◌≡◌, Bool, true, false, List, [], ◌∷◌, ◌==◌, map, ◌⊎◌, inl, inr, Bool-cases,
}
use lowlatency_exec_core.Slab.{Ptr, null}
use lowlatency_exec_core.Slab.Pool.{Distinct}
use lowlatency_exec_core.Levels.{PriceLevel}
use lowlatency_exec_core.Nodes
use lowlatency_exec_core.Nodes.{Nodes}

abbrev pub addresses : PriceLevel → List Ptr
addresses ns = map (λ n. n.at) ns

-- From `p` on, whose `prev` is `before`, the nodes are those of `ns`, and `tail` is the last.
abbrev pub Linked : Nodes → Ptr → Ptr → PriceLevel → Ptr → Type 0
Linked m before p [] tail = (p ≡ null) × (tail ≡ before)
Linked m before p (n ∷ ns) tail =
    (p ≡ n.at)
    × ((n.at == null) ≡ false)
    × ((m n.at).order ≡ n.order)
    × ((m n.at).prev ≡ before)
    × Linked m n.at (m n.at).next ns tail

-- The level has the nodes `ns`, each once.
pub record IsQueue (m : Nodes) (level : Nodes.PriceLevel) (ns : PriceLevel) : Type 0 where
  pub linked : Linked m null level.head ns level.tail
  pub distinct : Distinct (addresses ns)

-- A test holds, or what follows where it fails.
pub test_or : {X : Type 0} (b : Bool) → (b ≡ false → X) → (b ≡ true) ⊎ X
test_or b f = elim (Bool-cases b) [ inl h ↦ inl h | inr h ↦ inr (f h) ]
