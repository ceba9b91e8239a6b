-- ===== src/Book/Resting.antt =====
-- The node that rests: the entries of a side with one more order, and with one order less.
use mathlib.Core.List.Permᴰ
use lowlatency_exec_core.Common.{
  Permᴰ, append_assoc, ap, Bool-cases, refl, ◌++◌, All-weaken, ◌∷◌, [], inl, inr, ◌≡◌, sym, subst,
}
use lowlatency_exec_core.Types.{Side, Price}
use lowlatency_exec_core.Levels.{OrderNode, PriceLevel, Levels, before, level_at, put_level, find}
use lowlatency_exec_core.Book.Valid.{IsSorted, before_trans, before_neither}
use lowlatency_exec_core.Book.Lookup.{
  find-before, level_at-none, level_at_past, level_at_here, apart_prices,
}
use lowlatency_exec_core.Book.Tracked.{entries, side_entries, entry_of}

pub entries-append :
    (s : Side) (p : Price) (xs ys : PriceLevel)
    → entries s p (xs ++ ys) ≡ entries s p xs ++ entries s p ys
entries-append s p [] ys = refl
entries-append s p (x ∷ xs) ys = ap (λ m. entry_of s p x ∷ m) (entries-append s p xs ys)

-- An order at the back of its level adds its entry.
pub side_entries-put_level :
    (s : Side) (p : Price) (n : OrderNode) (ls : Levels)
    → IsSorted s ls
    → Permᴰ
        (side_entries s (put_level s p (level_at p ls ++ n ∷ []) ls))
        (entry_of s p n ∷ side_entries s ls)
unfolding put_level
side_entries-put_level s p n [] v = rw (level_at-none p [] (unfold find in refl)) (Permᴰ.refl _)
side_entries-put_level s p n ((q, m) ∷ ls) v = elim (Bool-cases (before s p q)) [
  | inl first ↦
      rw
        (
          first,
          level_at-none p ((q, m) ∷ ls) (
              find-before s p ((q, m) ∷ ls)
                (first, All-weaken (λ entry k. before_trans s p q entry.0 first k) ls v.0)),
        )
        (Permᴰ.refl _)
  | inr later ↦ elim (Bool-cases (before s q p)) [
    | inl behind ↦
        rw (later, behind)
          (subst
            (λ l.
              Permᴰ (entries s q m ++ side_entries s (put_level s p (l ++ n ∷ []) ls))
                (entry_of s p n ∷ (entries s q m ++ side_entries s ls)))
            (sym (level_at_past p q m ls (apart_prices s p q behind)))
            (Permᴰ.trans (Permᴰ.append_left (entries s q m) (side_entries-put_level s p n ls v.1))
              (Permᴰ.middle (entry_of s p n) (entries s q m) (side_entries s ls))))
    | inr here ↦
        rw (later, here, before_neither s p q later here, level_at_here q m ls)
          (rw
            (
              entries-append s q m (n ∷ []),
              append_assoc (entries s q m) (entry_of s q n ∷ []) (side_entries s ls),
            )
            (Permᴰ.middle (entry_of s q n) (entries s q m) (side_entries s ls)))
  ]
]
