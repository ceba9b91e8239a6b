-- ===== src/PriceScan/Exact.antt =====
-- The scan against a sum over the levels, where no addition can overflow.
use lowlatency_exec_core.Words.{inc64_small}
use lowlatency_exec_core.PriceScan.{
  PriceLevel, scan_from, scan_result, hit, scan_quantity_at_or_better_scalar,
}
use lowlatency_exec_core.Types.{Side, buy, sell, Price}
use lowlatency_exec_core.Common.Int.{ℤ, ◌-ℤ◌, neg_part, pos, pos_part, add_checked_nonneg}
use lowlatency_exec_core.Common.{
  Bool, ◌==◌, refl, ◌∷◌, [], ℕ, List, ◌≡◌, All, ◌+◌, ◌<◌, ◌^◌, arith, length, some, if◌then◌else◌,
  ap₂, Bool-cases, false, true, inl, ◌∙◌, inr,
}

-- A level at or better than the limit: a buy pays no more than the limit, a sell gets no less, so
-- that what the limit leaves is not negative.
abbrev pub spare : Side → Price → Price → ℤ
spare buy limit_price price = limit_price -ℤ price
spare sell limit_price price = price -ℤ limit_price

abbrev pub at_or_better : Side → Price → PriceLevel → Bool
at_or_better side limit_price l = neg_part (spare side limit_price l.price) == 0

-- The lots and the number of those levels.
abbrev pub lots_at_or_better : Side → Price → List PriceLevel → ℕ
lots_at_or_better side limit_price [] = 0
lots_at_or_better side limit_price (l ∷ ls) =
    (if at_or_better side limit_price l then pos_part l.quantity else 0)
    + lots_at_or_better side limit_price ls

abbrev pub levels_at_or_better : Side → Price → List PriceLevel → ℕ
levels_at_or_better side limit_price [] = 0
levels_at_or_better side limit_price (l ∷ ls) =
    (if at_or_better side limit_price l then 1 else 0) + levels_at_or_better side limit_price ls

-- The same of the levels that the comparison of the scans takes.
abbrev pub hit_lots : Side → Price → List PriceLevel → ℕ
hit_lots side limit_price [] = 0
hit_lots side limit_price (l ∷ ls) =
    (if hit side limit_price l then pos_part l.quantity else 0) + hit_lots side limit_price ls

abbrev pub hit_count : Side → Price → List PriceLevel → ℕ
hit_count side limit_price [] = 0
hit_count side limit_price (l ∷ ls) =
    (if hit side limit_price l then 1 else 0) + hit_count side limit_price ls

module _ (side : Side) (limit_price : Price) where
  hit-at_or_better : (l : PriceLevel) → hit side limit_price l ≡ at_or_better side limit_price l
  unfolding ◌-ℤ◌
  hit-at_or_better l = by_side side
    where
      by_side : (s : Side) → hit s limit_price l ≡ at_or_better s limit_price l
      by_side buy = ground arith
      by_side sell = ground arith

  pub hit_lots-lots_at_or_better :
      (ls : List PriceLevel) → hit_lots side limit_price ls ≡ lots_at_or_better side limit_price ls
  hit_lots-lots_at_or_better [] = refl
  hit_lots-lots_at_or_better (l ∷ ls) = rw (hit-at_or_better l, hit_lots-lots_at_or_better ls) refl

  pub hit_count-levels_at_or_better :
      (ls : List PriceLevel)
      → hit_count side limit_price ls ≡ levels_at_or_better side limit_price ls
  hit_count-levels_at_or_better [] = refl
  hit_count-levels_at_or_better (l ∷ ls) =
      rw (hit-at_or_better l, hit_count-levels_at_or_better ls) refl

-- No level has a negative quantity, and no counter can overflow.
pub record Fits (side : Side) (limit_price : Price) (levels : List PriceLevel) : Type 0 where
  pub no_negative : All (λ (l : PriceLevel). neg_part l.quantity ≡ 0) levels
  pub lots : lots_at_or_better side limit_price levels < 2 ^ 63
  pub count : length levels < 2 ^ 63

pub Fits-hit_lots :
    {side : Side} {limit_price : Price} {levels : List PriceLevel}
    → Fits side limit_price levels
    → hit_lots side limit_price levels < 2 ^ 63
Fits-hit_lots {side} {limit_price} {levels} f =
    let same = hit_lots-lots_at_or_better side limit_price levels in omega (arith, same, f.lots)

module _ (side : Side) (limit_price : Price) (total count : ℕ) (l : PriceLevel)
    (ls : List PriceLevel) where
  scan_from-hit :
      hit side limit_price l ≡ true
      → neg_part l.quantity ≡ 0
      → total + pos_part l.quantity < 2 ^ 63
      → count + 1 < 2 ^ 64
      → scan_from side limit_price (pos total) count (l ∷ ls)
        ≡ scan_from side limit_price (pos (total + pos_part l.quantity)) (count + 1) ls
  unfolding scan_from
  scan_from-hit taken h k c =
      rw (taken, add_checked_nonneg total l.quantity h k, inc64_small count c, scan_from) (rw taken)

  scan_from_pass :
      hit side limit_price l ≡ false
      → scan_from side limit_price (pos total) count (l ∷ ls)
        ≡ scan_from side limit_price (pos total) count ls
  unfolding scan_from
  scan_from_pass passed = rw (passed, scan_from) (rw passed)

pub scan_from-hits :
    (side : Side) (limit_price : Price) (total count : ℕ) (levels : List PriceLevel)
    → All (λ (l : PriceLevel). neg_part l.quantity ≡ 0) levels
    → total + hit_lots side limit_price levels < 2 ^ 63
    → count + length levels < 2 ^ 64
    → scan_from side limit_price (pos total) count levels
      ≡ some (
          scan_result
            (pos (total + hit_lots side limit_price levels))
            (count + hit_count side limit_price levels))
scan_from-hits side limit_price total count [] h k c =
    unfold scan_from in ap₂ (λ n m. some (scan_result (pos n) m)) (omega arith) (omega arith)
scan_from-hits side limit_price total count (l ∷ ls) h k c =
    elim (Bool-cases (hit side limit_price l)) [
      | inl taken ↦
          let k' : total + (pos_part l.quantity + hit_lots side limit_price ls) < 2 ^ 63 =
            rw taken at k in
          rw
            (
              scan_from-hit side limit_price total count l ls taken h.0 (omega arith) (omega arith),
              taken,
            )
            (scan_from-hits side limit_price (total + pos_part l.quantity) (count + 1) ls h.1
                (omega arith) (omega arith)
              ∙ ap₂ (λ n m. some (scan_result (pos n) m)) (omega arith) (omega arith))
      | inr passed ↦
          let k' : total + (0 + hit_lots side limit_price ls) < 2 ^ 63 = rw passed at k in
          rw (scan_from_pass side limit_price total count l ls passed, passed)
            (scan_from-hits side limit_price total count ls h.1 (omega arith) (omega arith)
              ∙ ap₂ (λ n m. some (scan_result (pos n) m)) (omega arith) (omega arith))
    ]

pub scan_quantity_at_or_better_scalar-hit_lots :
    (levels : List PriceLevel) (limit_price : Price) (side : Side)
    → Fits side limit_price levels
    → scan_quantity_at_or_better_scalar levels limit_price side
      ≡ some
          (scan_result (pos (hit_lots side limit_price levels)) (hit_count side limit_price levels))
unfolding scan_quantity_at_or_better_scalar
scan_quantity_at_or_better_scalar-hit_lots levels limit_price side f =
    scan_from-hits side limit_price 0 0 levels f.no_negative (omega (arith, Fits-hit_lots f))
      (omega (arith, f.count))
    ∙ ap₂ (λ n m. some (scan_result (pos n) m)) (omega arith) (omega arith)

-- A level is at or better than the limit where the limit less its price is not negative for a buy,
-- and its price less the limit for a sell. Where no level has a negative quantity, the lots of the
-- levels at or better than the limit are below 2 ^ 63 and so is the number of levels, the scalar
-- scan gives those lots and the number of those levels.
pub scalar-hits :
    (levels : List PriceLevel) (limit_price : Price) (side : Side)
    → Fits side limit_price levels
    → scan_quantity_at_or_better_scalar levels limit_price side
      ≡ some (
          scan_result
            (pos (lots_at_or_better side limit_price levels))
            (levels_at_or_better side limit_price levels))
scalar-hits levels limit_price side f =
    scan_quantity_at_or_better_scalar-hit_lots levels limit_price side f
    ∙ ap₂ (λ n m. some (scan_result (pos n) m)) (hit_lots-lots_at_or_better side limit_price levels)
        (hit_count-levels_at_or_better side limit_price levels)
