-- ===== src/Book/Conservation.antt =====
-- Lots are neither lost nor made by matching, and what every trade of an order satisfies.
use lowlatency_exec_core.Common.{
  ◌+◌, ◌≡◌, refl, ap, true, [], ◌++◌, refl, true, List, [], ◌∷◌, ◌++◌,
}
use lowlatency_exec_core.Common.Int.{ℤ, pos, ◌+ℤ◌, pos_part, neg_part, int_laws}
use lowlatency_exec_core.Types.{Price, Quantity, Trade}
use lowlatency_exec_core.Levels.{PriceLevel, Levels, is_empty}
use lowlatency_exec_core.Book.{Taker, Engine, fill_level, sweep}
use lowlatency_exec_core.Book.Loops.{fill_level_rule, sweep_rule}

-- The lots that change hands in `trades`.
abbrev pub traded : List Trade → Quantity
traded [] = pos 0
traded (t ∷ ts) = t.quantity +ℤ traded ts

abbrev pub resting_level : PriceLevel → Quantity
resting_level [] = pos 0
resting_level (n ∷ ns) = n.order.quantity +ℤ resting_level ns

-- The lots that rest on a side.
abbrev pub resting : Levels → Quantity
resting [] = pos 0
resting ((p, level) ∷ ls) = resting_level level +ℤ resting ls

-- Equality of integers by their parts, which `omega` reads.
infix 4 ◌≈◌
abbrev pub ◌≈◌ : ℤ → ℤ → Type 0
a ≈ b = pos_part a + neg_part b ≡ pos_part b + neg_part a

traded-append : (xs ys : List Trade) → traded (xs ++ ys) ≈ traded xs +ℤ traded ys
traded-append [] ys = omega int_laws
traded-append (t ∷ ts) ys = omega (int_laws, traded-append ts ys)

-- Both balances of one run: of the incoming order, and of what rested where it looked.
pub record Balanced (r before after : Quantity) (trades : List Trade) (left : Quantity)
    : Type 0 where
  pub taken : traded trades +ℤ left ≈ r
  pub given : traded trades +ℤ after ≈ before

fill_level-Balanced :
    (t : Taker) (p : Price) (r : Quantity) (level : PriceLevel) (e : Engine)
    → Balanced r
        (resting_level level)
        (resting_level (fill_level t p r level e).rest)
        (fill_level t p r level e).trades
        (fill_level t p r level e).remaining
fill_level-Balanced t p =
    fill_level_rule t p
      (λ r l e f. Balanced r (resting_level l) (resting_level f.rest) f.trades f.remaining)
      (λ r e. omega int_laws) (λ r n ns e done. omega int_laws)
      (λ r n ns e f more whole ih. omega int_laws) (λ r n ns e more part. omega int_laws)

resting-empty : (level : PriceLevel) → is_empty level ≡ true → resting_level level ≡ pos 0
resting-empty [] h = refl
resting-empty (n ∷ ns) h = cc

pub sweep-Balanced :
    (t : Taker) (r : Quantity) (ls : Levels) (e : Engine)
    → Balanced r
        (resting ls)
        (resting (sweep t r ls e).rest)
        (sweep t r ls e).trades
        (sweep t r ls e).remaining
sweep-Balanced t =
    sweep_rule t (λ r ls e f. Balanced r (resting ls) (resting f.rest) f.trades f.remaining)
      (λ r ls e h. omega int_laws)
      (λ r p level ls e k near emptied ih. omega (
        int_laws,
        fill_level-Balanced t p r level e,
        ap pos_part (resting-empty _ emptied),
        ap neg_part (resting-empty _ emptied),
        traded-append (fill_level t p r level e).trades k.trades,
      ))
      (λ r p level ls e near kept. omega (int_laws, fill_level-Balanced t p r level e))
