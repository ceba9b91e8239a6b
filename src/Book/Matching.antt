-- ===== src/Book/Matching.antt =====
-- What the matching loops of `add_limit_order` keep of the other side, and when they end.
use lowlatency_exec_core.Common.{◌≡◌, refl, Bool, true, false, [], ◌∷◌, arith, All, All-weaken}
use lowlatency_exec_core.Common.Int.{pos, ◌-ℤ◌, ◌≤ℤ◌, leb_ℤ}
use lowlatency_exec_core.Types.{Side, buy, sell, Price, Quantity}
use lowlatency_exec_core.Levels.{PriceLevel, Levels, before, is_empty}
use lowlatency_exec_core.Book.{Taker, Engine, is_positive, too_far, opposite, fill_level, sweep}
use lowlatency_exec_core.Book.Loops.{stops, fill_level_rule, sweep_rule}
use lowlatency_exec_core.Book.Valid.{IsSorted, IsResting, IsLevel, IsSide, Prices}

-- The orders that a level keeps still have lots.
fill_level-IsResting :
    (t : Taker) (p : Price) (r : Quantity) (level : PriceLevel) (e : Engine)
    → All (IsResting p) level
    → All (IsResting p) (fill_level t p r level e).rest
fill_level-IsResting t p =
    fill_level_rule t p (λ r l e f. All (IsResting p) l → All (IsResting p) f.rest) (λ r e h. tt)
      (λ r n ns e done h. h) (λ r n ns e f more whole ih h. ih h.1)
      (λ r n ns e more part h. ((kept_positive r n.order.quantity part, h.0.1), h.1))
  where
    kept_positive : (r q : Quantity) → leb_ℤ q r ≡ false → is_positive (q -ℤ r) ≡ true
    kept_positive r q h = unfold ◌-ℤ◌ in ground arith

-- A level keeps an order only where no lots remain.
pub fill_level_held :
    (t : Taker) (p : Price) (r : Quantity) (level : PriceLevel) (e : Engine)
    → is_empty (fill_level t p r level e).rest ≡ false
    → is_positive (fill_level t p r level e).remaining ≡ false
fill_level_held t p =
    fill_level_rule t p (λ r l e f. is_empty f.rest ≡ false → is_positive f.remaining ≡ false)
      (λ r e h. cc) (λ r n ns e done h. done) (λ r n ns e f more whole ih h. ih h)
      (λ r n ns e more part h. refl)

fill_level_nonneg :
    (t : Taker) (p : Price) (r : Quantity) (level : PriceLevel) (e : Engine)
    → pos 0 ≤ℤ r
    → pos 0 ≤ℤ (fill_level t p r level e).remaining
fill_level_nonneg t p =
    fill_level_rule t p (λ r l e f. pos 0 ≤ℤ r → pos 0 ≤ℤ f.remaining) (λ r e h. h)
      (λ r n ns e done h. h)
      (λ r n ns e f more whole ih h. ih (nonneg_sub r n.order.quantity whole))
      (λ r n ns e more part h. omega arith)
  where
    nonneg_sub : (r q : Quantity) → leb_ℤ q r ≡ true → pos 0 ≤ℤ r -ℤ q
    nonneg_sub r q h = unfold ◌-ℤ◌ in ground arith

-- No more lots trade than the order has.
pub sweep_nonneg :
    (t : Taker) (r : Quantity) (ls : Levels) (e : Engine)
    → pos 0 ≤ℤ r
    → pos 0 ≤ℤ (sweep t r ls e).remaining
sweep_nonneg t =
    sweep_rule t (λ r ls e f. pos 0 ≤ℤ r → pos 0 ≤ℤ f.remaining) (λ r ls e h k. k)
      (λ r p level ls e f near emptied ih h. ih (fill_level_nonneg t p r level e h))
      (λ r p level ls e near kept h. fill_level_nonneg t p r level e h)

-- The prices of the levels that are left were there before.
pub sweep-Prices {κ} :
    (Q : Price → Type κ) (t : Taker) (r : Quantity) (ls : Levels) (e : Engine)
    → Prices Q ls
    → Prices Q (sweep t r ls e).rest
sweep-Prices Q t =
    sweep_rule t (λ r ls e f. Prices Q ls → Prices Q f.rest) (λ r ls e h k. k)
      (λ r p level ls e f near emptied ih h. ih h.1) (λ r p level ls e near kept h. h)

sweep-IsSorted :
    (s : Side) (t : Taker) (r : Quantity) (ls : Levels) (e : Engine)
    → IsSorted s ls
    → IsSorted s (sweep t r ls e).rest
sweep-IsSorted s t =
    sweep_rule t (λ r ls e f. IsSorted s ls → IsSorted s f.rest) (λ r ls e h k. k)
      (λ r p level ls e f near emptied ih h. ih h.1) (λ r p level ls e near kept h. h)

sweep-IsLevel :
    (t : Taker) (r : Quantity) (ls : Levels) (e : Engine)
    → All IsLevel ls
    → All IsLevel (sweep t r ls e).rest
sweep-IsLevel t =
    sweep_rule t (λ r ls e f. All IsLevel ls → All IsLevel f.rest) (λ r ls e h k. k)
      (λ r p level ls e f near emptied ih h. ih h.1)
      (λ r p level ls e near kept h. ((kept, fill_level-IsResting t p r level e h.0.1), h.1))

pub sweep-IsSide :
    (s : Side) (t : Taker) (r : Quantity) (ls : Levels) (e : Engine)
    → IsSide s ls
    → IsSide s (sweep t r ls e).rest
sweep-IsSide s t r ls e h = record {
  sorted = sweep-IsSorted s t r ls e h.sorted;
  levels = sweep-IsLevel t r ls e h.levels;
}

-- Behind a price that is too far, every price is.
too_far_behind :
    (s : Side) (limit p q : Price)
    → too_far s limit p ≡ true
    → before (opposite s) p q ≡ true
    → too_far s limit q ≡ true
too_far_behind buy limit p q h k = ground arith
too_far_behind sell limit p q h k = ground arith

stops-Prices :
    (t : Taker) (r : Quantity) (ls : Levels)
    → stops t r ls ≡ true
    → IsSorted (opposite t.side) ls
    → is_positive r ≡ true
    → Prices (λ p. too_far t.side t.price p ≡ true) ls
stops-Prices t r [] h k more = tt
stops-Prices t r ((p, level) ∷ ls) h k more =
    let far : too_far t.side t.price p ≡ true = rw more at h in
    (far, All-weaken (λ entry b. too_far_behind t.side t.price p entry.0 far b) ls k.0)

-- Where lots remain, no level that is left crosses.
pub sweep_uncrossed :
    (t : Taker) (r : Quantity) (ls : Levels) (e : Engine)
    → IsSorted (opposite t.side) ls
    → is_positive (sweep t r ls e).remaining ≡ true
    → Prices (λ p. too_far t.side t.price p ≡ true) (sweep t r ls e).rest
sweep_uncrossed t =
    sweep_rule t
      (λ r ls e f.
        IsSorted (opposite t.side) ls
        → is_positive f.remaining ≡ true
        → Prices (λ p. too_far t.side t.price p ≡ true) f.rest)
      (λ r ls e h k more. stops-Prices t r ls h k more)
      (λ r p level ls e f near emptied ih h more. ih h.1 more)
      (λ r p level ls e near kept h more. absurd (clash (fill_level_held t p r level e kept) more))
  where
    clash : {b : Bool} → b ≡ false → b ≡ true → ⊥
    clash h k = cc
