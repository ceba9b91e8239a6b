-- ===== src/Book/Restored.antt =====
-- A side with one more order, and without it again.
use lowlatency_exec_core.Common.{
  inl, some, Bool-cases, [], refl, ◌≡◌, arith, ◌==◌, inr, true, false, ◌∷◌, ◌++◌, if◌then◌else◌,
  All-weaken, All, ◌∙◌, ap, subst, sym, ◌||◌, map-append,
}
use lowlatency_exec_core.Slab.{Ptr}
use lowlatency_exec_core.Slab.Pool.{has}
use lowlatency_exec_core.Types.{Side, Price, Quantity}
use lowlatency_exec_core.Levels.{
  OrderNode, PriceLevel, Levels, find, unlink, is_empty, erase_level, put_level, level_at, before,
  same_price,
}
use lowlatency_exec_core.Book.{Taker, Engine, run_of, sweep, too_far, is_positive}
use lowlatency_exec_core.Book.Valid.{
  IsSorted, IsLevel, Prices, before_trans, before_neither, same_price-eq,
}
use lowlatency_exec_core.Book.Lookup.{
  find-before, same_price_refl, apart_prices, level_at_here, level_at_past, level_at-none,
}
use lowlatency_exec_core.Book.Tracked.{entries, side_entries, blocks}
use lowlatency_exec_core.Book.Untracked.{without, before_asym, before_self, has-append}

-- Where no price of the other side crosses, the loops do nothing.
pub sweep_far :
    (t : Taker) (r : Quantity) (ls : Levels) (e : Engine)
    → Prices (λ p. too_far t.side t.price p ≡ true) ls
    → sweep t r ls e ≡ run_of [] r ls e
unfolding sweep
sweep_far t r [] e h = refl
sweep_far t r ((p, level) ∷ ls) e h = elim (Bool-cases (is_positive r)) [
  | inl more ↦ rw (more, h.0)
  | inr done ↦ rw done
]

pub unlink_back :
    (s : Side) (p : Price) (level : PriceLevel) (n : OrderNode)
    → has n.at (blocks (entries s p level)) ≡ false
    → unlink n.at (level ++ n ∷ []) ≡ some level
unfolding unlink
unlink_back s p [] n h = let self : (n.at == n.at) ≡ true = ground arith in rw self refl
unlink_back s p (m ∷ level) n h =
    let other : (m.at == n.at) ≡ false = ground (arith, h) in
    rw (other, unlink_back s p level n (ground (arith, h)), unlink) refl

pub find-put_level :
    (s : Side) (p : Price) (l : PriceLevel) (ls : Levels) → find p (put_level s p l ls) ≡ some l
unfolding put_level find
find-put_level s p l [] = rw (same_price_refl p) refl
find-put_level s p l ((q, m) ∷ ls) = elim (Bool-cases (before s p q)) [
  | inl first ↦ rw first (rw (same_price_refl p) refl)
  | inr later ↦ elim (Bool-cases (before s q p)) [
    | inl behind ↦ rw (later, behind) (rw (apart_prices s p q behind) (find-put_level s p l ls))
    | inr here ↦ rw (later, here) (rw (same_price_refl p) refl)
  ]
]

module _ (s : Side) (p : Price) (rest : PriceLevel) where
  pub without_first :
      (l : PriceLevel) (ls : Levels)
      → without s p rest ((p, l) ∷ ls) ≡ (if is_empty rest then ls else (p, rest) ∷ ls)
  unfolding erase_level put_level
  without_first l ls = elim (Bool-cases (is_empty rest)) [
    | inl last ↦ rw last (rw (same_price_refl p) refl)
    | inr more ↦ rw more (rw (before_self s p) refl)
  ]

  pub without_later :
      (q : Price) (m : PriceLevel) (ls : Levels)
      → before s q p ≡ true
      → without s p rest ((q, m) ∷ ls) ≡ (q, m) ∷ without s p rest ls
  unfolding erase_level put_level
  without_later q m ls behind = elim (Bool-cases (is_empty rest)) [
    | inl last ↦ rw (last, apart_prices s p q behind)
    | inr more ↦ rw (more, before_asym s q p behind, behind)
  ]

without_same :
    (s : Side) (q : Price) (l m : PriceLevel) (ls : Levels)
    → is_empty m ≡ false
    → without s q (level_at q ((q, m) ∷ ls)) ((q, l) ∷ ls) ≡ (q, m) ∷ ls
without_same s q l m ls some_left =
    subst (λ r. without s q r ((q, l) ∷ ls) ≡ (q, m) ∷ ls) (sym (level_at_here q m ls))
      (without_first s q m l ls ∙ rw some_left refl)

-- The side without the order that was put behind a level is the side as it was.
pub without-put_level :
    (s : Side) (p : Price) (l : PriceLevel) (ls : Levels)
    → IsSorted s ls
    → All IsLevel ls
    → without s p (level_at p ls) (put_level s p l ls) ≡ ls
unfolding put_level
without-put_level s p l [] v h =
    rw (level_at-none p [] (unfold find in refl)) (without_first s p [] l [])
without-put_level s p l ((q, m) ∷ ls) v h = elim (Bool-cases (before s p q)) [
  | inl first ↦
      rw
        (
          first,
          level_at-none p ((q, m) ∷ ls) (
              find-before s p ((q, m) ∷ ls)
                (first, All-weaken (λ entry k. before_trans s p q entry.0 first k) ls v.0)),
        )
        (without_first s p [] l ((q, m) ∷ ls))
  | inr later ↦ elim (Bool-cases (before s q p)) [
    | inl behind ↦
        rw (later, behind)
          (subst (λ level. without s p level ((q, m) ∷ put_level s p l ls) ≡ (q, m) ∷ ls)
            (sym (level_at_past p q m ls (apart_prices s p q behind)))
            (without_later s p (level_at p ls) q m (put_level s p l ls) behind
              ∙ ap (λ xs. (q, m) ∷ xs) (without-put_level s p l ls v.1 h.1)))
    | inr here ↦
        rw (later, here)
          (subst (λ x. without s x (level_at x ((q, m) ∷ ls)) ((x, l) ∷ ls) ≡ (q, m) ∷ ls)
            (sym (before_neither s p q later here)) (without_same s q l m ls h.0.0))
  ]
]

-- A block outside a side is outside each of its levels.
pub outside_level :
    (s : Side) (p : Price) (at : Ptr) (ls : Levels)
    → has at (blocks (side_entries s ls)) ≡ false
    → has at (blocks (entries s p (level_at p ls))) ≡ false
outside_level s p at [] h = rw (level_at-none p [] (unfold find in refl)) refl
outside_level s p at ((q, m) ∷ ls) h =
    let split : (has at (blocks (entries s q m)) || has at (blocks (side_entries s ls))) ≡ false =
      sym (
        ap (has at) (map-append (λ entry. entry.1.node) (entries s q m) (side_entries s ls))
        ∙ has-append at (blocks (entries s q m)) (blocks (side_entries s ls)))
      ∙ h in
    elim (Bool-cases (same_price p q)) [
      | inl here ↦
          subst (λ x. has at (blocks (entries s x (level_at x ((q, m) ∷ ls)))) ≡ false)
            (sym (same_price-eq p q here))
            (subst (λ l. has at (blocks (entries s q l)) ≡ false) (sym (level_at_here q m ls))
              (ground (arith, split)))
      | inr past ↦
          subst (λ l. has at (blocks (entries s p l)) ≡ false) (sym (level_at_past p q m ls past))
            (outside_level s p at ls (ground (arith, split)))
    ]
