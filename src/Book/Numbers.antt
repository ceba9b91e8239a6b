-- ===== src/Book/Numbers.antt =====
-- The numbers that the loops of `add_limit_order` give to their trades, by `next_sequence_++`.
use lowlatency_exec_core.Common.{
  ℕ, suc, ◌≡◌, refl, ◌∙◌, subst, List, [], ◌∷◌, ◌++◌, length, length-append, ◌+◌, ◌<◌, ◌≤◌, ◌^◌,
  arith,
}
use lowlatency_exec_core.Words.{inc64, inc64_small}
use lowlatency_exec_core.Types.{Price, Quantity, Trade}
use lowlatency_exec_core.Levels.{OrderNode, PriceLevel, Levels}
use lowlatency_exec_core.Book.{Taker, Engine, retire, next_event, fill_level, sweep}
use lowlatency_exec_core.Book.Loops.{fill_level_rule, sweep_rule}

-- The trades have the numbers from `lo` on, one after the other.
abbrev pub Numbered : ℕ → List Trade → Type 0
Numbered lo [] = Unit
Numbered lo (t ∷ ts) = (t.sequence ≡ lo) × Numbered (lo + 1) ts

pub Numbered-append :
    (lo : ℕ) (xs ys : List Trade)
    → Numbered lo xs
    → Numbered (lo + length xs) ys
    → Numbered lo (xs ++ ys)
Numbered-append lo [] ys v w = subst (λ n. Numbered n ys) {x = lo + 0} (omega arith) w
Numbered-append lo (x ∷ xs) ys v w = (
  v.0,
  Numbered-append (lo + 1) xs ys v.1
      (subst (λ n. Numbered n ys) {x = lo + suc (length xs)} (omega arith) w),
)

-- The orders of a side.
abbrev pub orders : Levels → ℕ
orders [] = 0
orders ((p, level) ∷ ls) = length level + orders ls

-- What a loop does to the counter, from the engine `e` to the engine `f`, where `most` orders stand.
pub record Counts (most : ℕ) (e f : Engine) (ts : List Trade) : Type 0 where
  pub numbered : Numbered e.next_sequence ts
  pub counted : f.next_sequence ≡ e.next_sequence + length ts
  pub few : length ts ≤ most

-- The orders from the engine's number on, one for each trade that may come, stay below the wrap.
abbrev Fits : ℕ → Engine → Type 0
Fits most e = e.next_sequence + most < 2 ^ 64

retire_next :
    (n : OrderNode) (ns : PriceLevel) (e : Engine)
    → (retire n ns (next_event e)).1.next_sequence ≡ inc64 e.next_sequence
unfolding retire
retire_next n ns e = refl

fill_level-Counts :
    (t : Taker) (p : Price) (r : Quantity) (level : PriceLevel) (e : Engine)
    → Fits (length level) e
    → Counts (length level) e (fill_level t p r level e).engine (fill_level t p r level e).trades
fill_level-Counts t p =
    fill_level_rule t p
      (λ r level e f. Fits (length level) e → Counts (length level) e f.engine f.trades)
      (λ r e h. none_made e) (λ r n ns e done h. none_made e)
      (λ r n ns e f more whole ih h.
        let one = inc64_small e.next_sequence (omega (arith, h)) in
        let c = ih (rw (retire_next n ns e, one) (omega (arith, h))) in
        let next = retire_next n ns e ∙ one in
        record {
          numbered = (refl, subst (λ x. Numbered x f.trades) next c.numbered);
          counted = omega (arith, c.counted, next);
          few = omega (arith, c.few);
        })
      (λ r n ns e more part h. record {
        numbered = (refl, tt);
        counted = inc64_small e.next_sequence (omega (arith, h));
        few = omega arith;
      })
  where
    none_made : {most : ℕ} (e : Engine) → Counts most e e []
    none_made e = record { numbered = tt; counted = omega arith; few = omega arith }

pub sweep-Counts :
    (t : Taker) (r : Quantity) (ls : Levels) (e : Engine)
    → Fits (orders ls) e
    → Counts (orders ls) e (sweep t r ls e).engine (sweep t r ls e).trades
sweep-Counts t =
    sweep_rule t (λ r ls e f. Fits (orders ls) e → Counts (orders ls) e f.engine f.trades)
      (λ r ls e stop h. record { numbered = tt; counted = omega arith; few = omega arith })
      (λ r p level ls e f near emptied ih h.
        let g = fill_level t p r level e in
        let c = fill_level-Counts t p r level e (omega (arith, h)) in
        let d = ih (omega (arith, h, c.counted, c.few)) in
        let total = length-append g.trades f.trades in
        record {
          numbered =
              Numbered-append e.next_sequence g.trades f.trades c.numbered
                (subst (λ x. Numbered x f.trades) c.counted d.numbered);
          counted = omega (arith, c.counted, d.counted, total);
          few = omega (arith, c.few, d.few, total);
        })
      (λ r p level ls e near kept h.
        let c = fill_level-Counts t p r level e (omega (arith, h)) in
        record { numbered = c.numbered; counted = c.counted; few = omega (arith, c.few) })
