-- ===== src/Book/Removable.antt =====
-- Every tracked order can be cancelled: the index names a level of its side that holds its node.
use mathlib.Core.List.Permᴰ
use lowlatency_exec_core.Common.{
  Permᴰ, map-append, ◌++◌, [], inl, true, refl, none, ◌∙◌, inr, some, Option-cases, ◌∷◌, subst, sym,
  ◌≡◌,
}
use lowlatency_exec_core.Slab.Pool.{Distinct}
use lowlatency_exec_core.Types.{Side, OrderId, Price}
use lowlatency_exec_core.Levels.{PriceLevel, Levels, find, before}
use lowlatency_exec_core.Locations.{OrderLocation, Locations, lookup}
use lowlatency_exec_core.Book.Valid.{IsSorted, All-find}
use lowlatency_exec_core.Book.Lookup.{same_price_refl, apart_prices}
use lowlatency_exec_core.Book.Tracked.{entries, side_entries, location, blocks}
use lowlatency_exec_core.Book.Untracked.{
  InSide, level_lookup, lookup-append, Distinct-parts, without_head, without_past, without,
}

pub Distinct-blocks :
    (xs ys : Locations) → Distinct (blocks (xs ++ ys)) → Distinct (blocks xs) × Distinct (blocks ys)
Distinct-blocks xs ys d =
    Distinct-parts (blocks xs) (blocks ys)
      (subst Distinct (map-append (λ entry. entry.1.node) xs ys) d)

pub find_here :
    (p : Price) (level : PriceLevel) (ls : Levels) → find p ((p, level) ∷ ls) ≡ some level
unfolding find
find_here p level ls = rw (same_price_refl p) refl

pub find_past :
    (s : Side) (p q : Price) (level : PriceLevel) (ls : Levels)
    → before s p q ≡ true
    → find q ((p, level) ∷ ls) ≡ find q ls
unfolding find
find_past s p q level ls behind = rw (apart_prices s q p behind) refl

pub side_lookup :
    (s : Side) (ls : Levels) (id : OrderId) (loc : OrderLocation)
    → IsSorted s ls
    → Distinct (blocks (side_entries s ls))
    → lookup id (side_entries s ls) ≡ some loc
    → InSide s ls id loc
side_lookup s [] id loc v d h = absurd (nothing (unfold lookup in h))
  where
    nothing : none ≡ some loc → ⊥
    nothing e = cc
side_lookup s ((p, level) ∷ ls) id loc v d h =
    let parts = Distinct-blocks (entries s p level) (side_entries s ls) d in
    let found = sym (lookup-append id (entries s p level) (side_entries s ls)) ∙ h in
    elim (Option-cases (lookup id (entries s p level))) [
      | inr (l, e) ↦
          let same : some l ≡ some loc = rw e at found in
          let (at, rest, named, out, perm) = level_lookup s p level id loc parts.0 (e ∙ same) in
          (
            p,
            at,
            level,
            rest,
            named,
            find_here p level ls,
            out,
            subst (λ m. Permᴰ (entries s p level ++ side_entries s ls) ((id, location s p at) ∷ m))
                (sym (without_head s p level rest ls))
                (Permᴰ.append_right (side_entries s ls) perm),
          )
      | inl none_here ↦
          let later : lookup id (side_entries s ls) ≡ some loc = rw none_here at found in
          let (q, at, below, rest, named, found', out, perm) =
            side_lookup s ls id loc v.1 parts.1 later in
          let behind : before s p q ≡ true =
            All-find (λ entry. before s p entry.0 ≡ true) q ls found' v.0 in
          (
            q,
            at,
            below,
            rest,
            named,
            find_past s p q level ls behind ∙ found',
            out,
            subst (λ m. Permᴰ (entries s p level ++ side_entries s ls) ((id, location s q at) ∷ m))
                (sym (without_past s p level rest ls q behind))
                (Permᴰ.trans (Permᴰ.append_left (entries s p level) perm) (
                  Permᴰ.middle (id, location s q at) (entries s p level)
                    (side_entries s (without s q rest ls)))),
          )
    ]
