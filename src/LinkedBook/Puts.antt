-- ===== src/LinkedBook/Puts.antt =====
-- The maps of a side, on linked levels and on lists: a level that is put at its price or erased.
use lowlatency_exec_core.Common.{◌≡◌, refl, true, false, [], ◌∷◌, Bool-cases, inl, inr, All-weaken}
use lowlatency_exec_core.Types.{Side, Price}
use lowlatency_exec_core.Slab.{Ptr}
use lowlatency_exec_core.Slab.Pool.{has, Distinct}
use lowlatency_exec_core.Levels.{Levels, put_level, erase_level, before, same_price, find}
use lowlatency_exec_core.Levels
use lowlatency_exec_core.Nodes.{Nodes, PriceLevel}
use lowlatency_exec_core.Nodes.Linked.{IsQueue, addresses}
use lowlatency_exec_core.Book.Valid.{IsSorted, before_trans, before_neither, same_price-eq}
use lowlatency_exec_core.Book.Lookup.{
  find-before, level_at-none, level_at_past, level_at_here, apart_prices,
}
use lowlatency_exec_core.Book.Untracked.{Distinct-parts}
use lowlatency_exec_core.LinkedBook.{SideLevels}
use lowlatency_exec_core.LinkedBook.Stands.{
  Stands, places, Within, Apart-sym, Within-left, Within-right, Within-out, Distinct-Apart,
  IsQueue-agree, Stands-agree,
}

-- The nodes of the level at a price are nodes of the side.
pub level_at-Within :
    (p : Price) (ls : Levels) → Within (addresses (Levels.level_at p ls)) (places ls)
unfolding Levels.level_at find
level_at-Within p [] x = λ h. h
level_at-Within p ((q, ns) ∷ ls) x = elim (Bool-cases (same_price p q)) [
  | inl here ↦ rw (here, Levels.level_at) (Within-left (addresses ns) (places ls) x)
  | inr past ↦
      rw (past, Levels.level_at)
        (λ h. Within-right (addresses ns) (places ls) x (level_at-Within p ls x h))
]

-- The levels of a side but the one at the price `p` are as they were.
abbrev pub Spares : Price → Levels → Nodes → Nodes → Type 0
Spares p ls m m' =
    (x : Ptr)
    → has x (places ls) ≡ true
    → has x (addresses (Levels.level_at p ls)) ≡ false
    → m' x ≡ m x

module _ (s : Side) (p : Price) (level : PriceLevel) (ns : Levels.PriceLevel) (m m' : Nodes)
    (q : IsQueue m' level ns) where
  pub Stands-put_level :
      (ks : SideLevels) (ls : Levels)
      → IsSorted s ls
      → Distinct (places ls)
      → Stands m ks ls
      → Spares p ls m m'
      → Stands m' (put_level s p level ks) (put_level s p ns ls)
  unfolding put_level
  Stands-put_level [] [] v d w k = (refl, q, tt)
  Stands-put_level [] (l ∷ ls) v d w k = absurd w
  Stands-put_level (l ∷ ks) [] v d w k = absurd w
  Stands-put_level ((a, old) ∷ ks) ((b, ms) ∷ ls) v d w k =
      let parts = Distinct-parts (addresses ms) (places ls) d in
      let apart = Distinct-Apart (addresses ms) (places ls) d in
      rw (w.0) (elim (Bool-cases (before s p b)) [
        | inl first ↦
            let absent =
              find-before s p ((b, ms) ∷ ls)
                (first, All-weaken (λ entry h. before_trans s p b entry.0 first h) ls v.0) in
            rw first (
              refl,
              q,
              Stands-agree m m' ((b, old) ∷ ks) ((b, ms) ∷ ls)
                  (λ x h. k x h (rw (level_at-none p ((b, ms) ∷ ls) absent) refl)) (refl, w.1, w.2),
            )
        | inr later ↦ elim (Bool-cases (before s b p)) [
          | inl behind ↦
              let on = level_at_past p b ms ls (apart_prices s p b behind) in
              rw (later, behind)
                (
                  refl,
                  IsQueue-agree m m' old ms
                      (λ x h. k x (Within-left (addresses ms) (places ls) x h) (
                        rw on (
                          Within-out (addresses (Levels.level_at p ls)) (places ls)
                            (level_at-Within p ls) x (apart x h))))
                      w.1,
                  Stands-put_level ks ls v.1 parts.1 w.2
                      (λ x h out. k x (Within-right (addresses ms) (places ls) x h) (rw on out)),
                )
          | inr same ↦
              let named = before_neither s p b later same in
              rw (later, same)
                (
                  refl,
                  q,
                  Stands-agree m m' ks ls
                      (λ x h. k x (Within-right (addresses ms) (places ls) x h) (
                        rw (named, level_at_here b ms ls)
                          (Apart-sym (addresses ms) (places ls) apart x h)))
                      w.2,
                )
        ]
      ])

-- A level is erased with its entry.
pub Stands-erase_level :
    (p : Price) (m m' : Nodes) (ks : SideLevels) (ls : Levels)
    → Distinct (places ls)
    → Stands m ks ls
    → Spares p ls m m'
    → Stands m' (erase_level p ks) (erase_level p ls)
unfolding erase_level
Stands-erase_level p m m' [] [] d w k = tt
Stands-erase_level p m m' [] (l ∷ ls) d w k = absurd w
Stands-erase_level p m m' (l ∷ ks) [] d w k = absurd w
Stands-erase_level p m m' ((a, old) ∷ ks) ((b, ms) ∷ ls) d w k =
    let parts = Distinct-parts (addresses ms) (places ls) d in
    let apart = Distinct-Apart (addresses ms) (places ls) d in
    rw (w.0) (elim (Bool-cases (same_price p b)) [
      | inl here ↦ rw here (
          Stands-agree m m' ks ls
            (λ x h.
              k x (Within-right (addresses ms) (places ls) x h)
                (level_at_first x here (Apart-sym (addresses ms) (places ls) apart x h)))
            w.2)
      | inr past ↦
          let on = level_at_past p b ms ls past in
          rw past (
            refl,
            IsQueue-agree m m' old ms
                (λ x h. k x (Within-left (addresses ms) (places ls) x h) (
                  rw on (
                    Within-out (addresses (Levels.level_at p ls)) (places ls) (level_at-Within p ls)
                      x (apart x h))))
                w.1,
            Stands-erase_level p m m' ks ls parts.1 w.2
                (λ x h out. k x (Within-right (addresses ms) (places ls) x h) (rw on out)),
          )
    ])
  where
    level_at_first :
        (x : Ptr)
        → same_price p b ≡ true
        → has x (addresses ms) ≡ false
        → has x (addresses (Levels.level_at p ((b, ms) ∷ ls))) ≡ false
    level_at_first x here out = rw (same_price-eq p b here, level_at_here b ms ls) out
