-- ===== src/Book/Termination.antt =====
-- The `while` loops of `add_limit_order` end, and leave what the recursive loops of `Book` leave.
use lowlatency_exec_core.Common.{
  ℕ, zero, suc, ◌+◌, ◌<◌, ◌≡◌, ◌∙◌, refl, arith, true, false, some, [], ◌∷◌, ◌++◌, append-nil,
  append_assoc, length, Bool-cases, inl, inr, List,
}
use lowlatency_exec_core.Types.{Price, Quantity, Trade}
use lowlatency_exec_core.Levels.{PriceLevel, Levels, is_empty}
use lowlatency_exec_core.Book.{
  Taker, Engine, run_of, before_run, is_positive, too_far, fill_level, sweep,
}
use lowlatency_exec_core.Book.Matching.{fill_level_held}
use lowlatency_exec_core.Book.Loops.{stops}
use lowlatency_exec_core.Book.While.{sweep_while, after_fill, fill_while-fill_level}

-- The rounds that both loops can take: one for each order and two for each level.
abbrev pub rounds : Levels → ℕ
rounds [] = 0
rounds ((p, level) ∷ ls) = 2 + length level + rounds ls

module _ (t : Taker) where
  sweep_while_stop :
      (fuel : ℕ) (ts : List Trade) (r : Quantity) (ls : Levels) (e : Engine)
      → rounds ls < fuel
      → stops t r ls ≡ true
      → sweep_while fuel t (run_of ts r ls e) ≡ some (run_of ts r ls e)
  unfolding sweep_while
  sweep_while_stop zero ts r ls e h k = absurd (omega (arith, h))
  sweep_while_stop (suc fuel) ts r [] e h k = refl
  sweep_while_stop (suc fuel) ts r ((p, level) ∷ ls) e h k = elim (Bool-cases (is_positive r)) [
    | inr done ↦ rw done
    | inl more ↦ let far : too_far t.side t.price p ≡ true = rw more at k in rw (more, far)
  ]

  sweep_while_round :
      (fuel : ℕ) (ts : List Trade) (r : Quantity) (p : Price) (level : PriceLevel) (ls : Levels)
      (e : Engine)
      → length level < fuel
      → is_positive r ≡ true
      → too_far t.side t.price p ≡ false
      → sweep_while (suc fuel) t (run_of ts r ((p, level) ∷ ls) e)
        ≡ sweep_while fuel t (after_fill p ls (before_run ts (fill_level t p r level e)))
  unfolding sweep_while
  sweep_while_round fuel ts r p level ls e h more near =
      rw (more, near, fill_while-fill_level t p r level e fuel ts h) refl

  sweep_while_done :
      (fuel : ℕ) (ts : List Trade) (r : Quantity) (ls : Levels) (e : Engine)
      → is_positive r ≡ false
      → sweep_while fuel t (run_of ts r ls e) ≡ some (run_of ts r ls e)
  unfolding sweep_while
  sweep_while_done zero ts r [] e done = refl
  sweep_while_done zero ts r (x ∷ ls) e done = rw done
  sweep_while_done (suc fuel) ts r [] e done = refl
  sweep_while_done (suc fuel) ts r ((p, level) ∷ ls) e done = rw done

  loops_agree :
      (fuel : ℕ) (ts : List Trade) (r : Quantity) (ls : Levels) (e : Engine)
      → rounds ls < fuel
      → sweep_while fuel t (run_of ts r ls e) ≡ some (before_run ts (sweep t r ls e))
  unfolding sweep
  loops_agree zero ts r ls e h = absurd (omega (arith, h))
  loops_agree (suc fuel) ts r [] e h =
      sweep_while_stop (suc fuel) ts r [] e h refl ∙ rw (append-nil ts) refl
  loops_agree (suc fuel) ts r ((p, level) ∷ ls) e h =
      let f = fill_level t p r level e in
      let stop = sweep_while_stop (suc fuel) ts r ((p, level) ∷ ls) e h in
      let ih = loops_agree fuel (ts ++ f.trades) f.remaining ls f.engine (omega (arith, h)) in
      let round = sweep_while_round fuel ts r p level ls e (omega (arith, h)) in
      elim (Bool-cases (is_positive r)) [
        | inr done ↦ stop (rw done) ∙ rw (done, append-nil ts) refl
        | inl more ↦ elim (Bool-cases (too_far t.side t.price p)) [
          | inl far ↦ stop (rw (more, far)) ∙ rw (more, far, append-nil ts) refl
          | inr near ↦ round more near ∙ elim (Bool-cases (is_empty f.rest)) [
            | inl emptied ↦
                rw (more, near, emptied)
                  (ih ∙ rw (append_assoc ts f.trades (sweep t f.remaining ls f.engine).trades) refl)
            | inr kept ↦
                rw (more, near, kept)
                  (sweep_while_done fuel (ts ++ f.trades) f.remaining ((p, f.rest) ∷ ls) f.engine
                    (fill_level_held t p r level e kept))
          ]
        ]
      ]

-- The two nested while loops of add_limit_order, run round by round with their tests and the break,
-- end with more fuel than two rounds for each level and one for each order on the other side, and
-- leave the trades, the remaining lots, the levels, the index, the pool and the sequence counter
-- that the recursive loops of the model leave.
pub sweep_while-sweep :
    (fuel : ℕ) (t : Taker) (r : Quantity) (ls : Levels) (e : Engine)
    → rounds ls < fuel
    → sweep_while fuel t (run_of [] r ls e) ≡ some (sweep t r ls e)
sweep_while-sweep fuel t r ls e h = loops_agree t fuel [] r ls e h
