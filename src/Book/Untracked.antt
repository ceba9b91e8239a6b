-- ===== src/Book/Untracked.antt =====
-- A tracked order is in the level that the index names, and taking it out takes its entry out.
use lowlatency_exec_core.Book.Index.{no_entries}
use mathlib.Core.List.Permᴰ
use lowlatency_exec_core.Common.{
  Permᴰ, ◌==◌, inl, arith, Bool-cases, inr, ◌≡◌, ◌∷◌, false, refl, ◌∙◌, true, some, [],
  if◌then◌else◌, ◌++◌, ◌||◌, none, sym, ap, List,
}
use lowlatency_exec_core.Slab.{Ptr}
use lowlatency_exec_core.Slab.Pool.{has, Distinct}
use lowlatency_exec_core.Slab.Used.{has-Permᴰ}
use lowlatency_exec_core.Types.{buy, sell, Side, OrderId, Price, buy, sell}
use lowlatency_exec_core.Levels.{
  PriceLevel, Levels, find, unlink, is_empty, erase_level, put_level, before,
}
use lowlatency_exec_core.Locations.{OrderLocation, Locations, lookup}
use lowlatency_exec_core.Book.Lookup.{same_price_refl, apart_prices}
use lowlatency_exec_core.Book.Tracked.{entries, side_entries, location, blocks}

-- The node at `at` of the order `id` can leave its level.
abbrev pub InLevel : Side → Price → PriceLevel → OrderId → OrderLocation → Type 0
InLevel s p level id loc =
    (at : Ptr) × (rest : PriceLevel) × (loc ≡ location s p at)
    × (unlink at level ≡ some rest)
    × Permᴰ (entries s p level) ((id, location s p at) ∷ entries s p rest)

has_block :
    (at : Ptr) (id : OrderId) (s : Side) (p : Price) {m m' : Locations}
    → Permᴰ m ((id, location s p at) ∷ m')
    → has at (blocks m) ≡ true
has_block at id s p r = has-Permᴰ at (Permᴰ.map (λ entry. entry.1.node) r) ∙ ground arith

pub level_lookup :
    (s : Side) (p : Price) (level : PriceLevel) (id : OrderId) (loc : OrderLocation)
    → Distinct (blocks (entries s p level))
    → lookup id (entries s p level) ≡ some loc
    → InLevel s p level id loc
unfolding lookup unlink
level_lookup s p [] id loc d h = cc
level_lookup s p (n ∷ ns) id loc d h = elim (Bool-cases (n.order.id == id)) [
  | inl here ↦
      let same : some (location s p n.at) ≡ some loc = rw here at h in
      let self : (n.at == n.at) ≡ true = ground arith in
      let named : n.order.id ≡ id = ground (arith, here) in
      (
        n.at,
        ns,
        cc,
        rw (self, unlink) refl,
        Permᴰ.cons (ap (λ k. (k, location s p n.at)) named) (Permᴰ.refl _),
      )
  | inr on ↦
      let (at, rest, e, out, perm) = level_lookup s p ns id loc d.1 (rw on at h) in
      let other : (n.at == at) ≡ false = ground (arith, d.0, has_block at id s p perm) in
      (
        at,
        n ∷ rest,
        e,
        rw (other, out, unlink) refl,
        Permᴰ.trans (Permᴰ.cons refl perm) (Permᴰ.swap refl refl),
      )
]

pub lookup-append :
    (id : OrderId) (xs ys : Locations)
    → lookup id (xs ++ ys) ≡ elim (lookup id xs) [ none ↦ lookup id ys | some loc ↦ some loc ]
unfolding lookup
lookup-append id [] ys = refl
lookup-append id ((k, v) ∷ xs) ys = ground (arith, lookup-append id xs ys)

pub has-append : (p : Ptr) (xs ys : List Ptr) → has p (xs ++ ys) ≡ (has p xs || has p ys)
has-append p [] ys = refl
has-append p (x ∷ xs) ys = ground (arith, has-append p xs ys)

pub Distinct-parts : (xs ys : List Ptr) → Distinct (xs ++ ys) → Distinct xs × Distinct ys
Distinct-parts [] ys d = (tt, d)
Distinct-parts (x ∷ xs) ys d =
    let rest = Distinct-parts xs ys d.1 in
    ((ground (arith, d.0, has-append x xs ys), rest.0), rest.1)

-- The side once the node has left: its level too where that was its last.
abbrev pub without : Side → Price → PriceLevel → Levels → Levels
without s p rest ls = if is_empty rest then erase_level p ls else put_level s p rest ls

-- The node of the order `id` can leave its side.
abbrev pub InSide : Side → Levels → OrderId → OrderLocation → Type 0
InSide s ls id loc =
    (p : Price) × (at : Ptr) × (level : PriceLevel) × (rest : PriceLevel) × (loc ≡ location s p at)
    × (find p ls ≡ some level)
    × (unlink at level ≡ some rest)
    × Permᴰ (side_entries s ls) ((id, location s p at) ∷ side_entries s (without s p rest ls))

pub before_self : (s : Side) (p : Price) → before s p p ≡ false
before_self buy p = ground arith
before_self sell p = ground arith

pub before_asym : (s : Side) (p q : Price) → before s p q ≡ true → before s q p ≡ false
before_asym buy p q h = ground arith
before_asym sell p q h = ground arith

module _ (s : Side) (p : Price) (level rest : PriceLevel) (ls : Levels) where
  -- The first level loses a node.
  pub without_head :
      side_entries s (without s p rest ((p, level) ∷ ls)) ≡ entries s p rest ++ side_entries s ls
  unfolding erase_level put_level
  without_head = elim (Bool-cases (is_empty rest)) [
    | inl last ↦
        rw last (
          rw (same_price_refl p)
            (ap (λ m. m ++ side_entries s ls) (sym (no_entries s p rest last))))
    | inr more ↦ rw more (rw (before_self s p) refl)
  ]

  -- A later level loses a node.
  pub without_past :
      (q : Price)
      → before s p q ≡ true
      → side_entries s (without s q rest ((p, level) ∷ ls))
        ≡ entries s p level ++ side_entries s (without s q rest ls)
  unfolding erase_level put_level
  without_past q behind = elim (Bool-cases (is_empty rest)) [
    | inl last ↦ rw (last, apart_prices s q p behind)
    | inr more ↦ rw (more, before_asym s p q behind, behind)
  ]
