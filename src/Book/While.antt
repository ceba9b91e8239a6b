-- ===== src/Book/While.antt =====
-- The two `while` loops of `add_limit_order` as they stand in src/order_book.cpp: each tests its
-- condition, runs its body on the variables, and starts again. The fuel bounds the rounds.
use lowlatency_exec_core.Common.{
  ℕ, zero, suc, ◌<◌, ◌≡◌, ◌∙◌, refl, ap, arith, true, false, Option, none, some, [], ◌∷◌, ◌++◌,
  append-nil, append_assoc, length, if◌then◌else◌, List,
}
use lowlatency_exec_core.Common.Int.{pos, ◌-ℤ◌, min_ℤ, leb_ℤ}
use lowlatency_exec_core.Words.{inc64}
use lowlatency_exec_core.Types.{Price, Quantity, Trade}
use lowlatency_exec_core.Levels.{OrderNode, PriceLevel, Levels, is_empty}
use lowlatency_exec_core.Book.{
  Taker, Engine, Run, run_of, before_run, trade_of, is_positive, is_zero, too_far, retire,
  next_event, with_quantity, fill_level,
}
use lowlatency_exec_core.Book.Loops.{fill_level_rule, min_left, min_right, kept_some, sub_self}

-- The body of the inner loop, for the head `n`.
unfoldable pub fill_body : Taker → Price → OrderNode → PriceLevel → Run PriceLevel → Run PriceLevel
unfolding min_ℤ ◌-ℤ◌ retire inc64
fill_body t level_price n ns s =
    let traded = min_ℤ s.remaining n.order.quantity in
    let trades = s.trades ++ trade_of t level_price traded n s.engine.next_sequence ∷ [] in
    let kept = n.order.quantity -ℤ traded in
    let (level, e) = retire n ns (next_event s.engine) in
    if is_zero kept
    then run_of trades (s.remaining -ℤ traded) level e
    else run_of trades (s.remaining -ℤ traded) (with_quantity n kept ∷ ns) (next_event s.engine)

-- `while (remaining > 0 && level.head != nullptr)`
unfoldable pub fill_while : ℕ → Taker → Price → Run PriceLevel → Option (Run PriceLevel)
fill_while zero t p s = elim s.rest [
  | [] ↦ some s
  | n ∷ ns ↦ if is_positive s.remaining then none else some s
]
fill_while (suc fuel) t p s = elim s.rest [
  | [] ↦ some s
  | n ∷ ns ↦
      let next = fill_while fuel t p (fill_body t p n ns s) in
      if is_positive s.remaining then next else some s
]

-- What the outer loop's body leaves after the inner loop: an empty level is erased.
abbrev pub after_fill : Price → Levels → Run PriceLevel → Run Levels
after_fill p ls f =
    run_of f.trades f.remaining (if is_empty f.rest then ls else (p, f.rest) ∷ ls) f.engine

-- `while (remaining > 0 && !levels.empty())`, with its `break`
unfoldable pub sweep_while : ℕ → Taker → Run Levels → Option (Run Levels)
unfolding fill_while
sweep_while zero t s = elim s.rest [
  | [] ↦ some s
  | level ∷ ls ↦ if is_positive s.remaining then none else some s
]
sweep_while (suc fuel) t s = elim s.rest [
  | [] ↦ some s
  | (p, level) ∷ ls ↦
      let next : Option (Run Levels) =
        elim (fill_while fuel t p (run_of s.trades s.remaining level s.engine)) [
          | none ↦ none
          | some f ↦ sweep_while fuel t (after_fill p ls f)
        ] in
      if is_positive s.remaining
      then (if too_far t.side t.price p then some s else next)
      else some s
]

module _ (t : Taker) (p : Price) where
  fill_while_empty :
      (fuel : ℕ) (ts : List Trade) (r : Quantity) (e : Engine)
      → fill_while fuel t p (run_of ts r [] e) ≡ some (run_of ts r [] e)
  unfolding fill_while
  fill_while_empty zero ts r e = refl
  fill_while_empty (suc fuel) ts r e = refl

  fill_while_done :
      (fuel : ℕ) (ts : List Trade) (r : Quantity) (level : PriceLevel) (e : Engine)
      → is_positive r ≡ false
      → fill_while fuel t p (run_of ts r level e) ≡ some (run_of ts r level e)
  unfolding fill_while
  fill_while_done fuel ts r [] e done = fill_while_empty fuel ts r e
  fill_while_done zero ts r (n ∷ ns) e done = rw done
  fill_while_done (suc fuel) ts r (n ∷ ns) e done = rw done

  module _ (ts : List Trade) (r : Quantity) (n : OrderNode) (ns : PriceLevel) (e : Engine) where
    fill_while_step :
        (fuel : ℕ)
        → is_positive r ≡ true
        → fill_while (suc fuel) t p (run_of ts r (n ∷ ns) e)
          ≡ fill_while fuel t p (fill_body t p n ns (run_of ts r (n ∷ ns) e))
    unfolding fill_while
    fill_while_step fuel more = rw more refl

    fill_body_take :
        leb_ℤ n.order.quantity r ≡ true
        → fill_body t p n ns (run_of ts r (n ∷ ns) e)
          ≡ run_of
              (ts ++ trade_of t p n.order.quantity n e.next_sequence ∷ [])
              (r -ℤ n.order.quantity)
              ns
              (retire n ns (next_event e)).1
    unfolding fill_body
    fill_body_take k = rw (min_right r n.order.quantity k, sub_self n.order.quantity) refl

    fill_body_part :
        leb_ℤ n.order.quantity r ≡ false
        → fill_body t p n ns (run_of ts r (n ∷ ns) e)
          ≡ run_of
              (ts ++ trade_of t p r n e.next_sequence ∷ [])
              (pos 0)
              (with_quantity n (n.order.quantity -ℤ r) ∷ ns)
              (next_event e)
    unfolding fill_body
    fill_body_part k =
        rw (min_left r n.order.quantity k, kept_some r n.order.quantity k, sub_self r) refl

  -- The inner loop, after the trades `ts`.
  abbrev Inner : Quantity → PriceLevel → Engine → Run PriceLevel → Type 0
  Inner r level e f =
      (fuel : ℕ) (ts : List Trade)
      → length level < fuel
      → fill_while fuel t p (run_of ts r level e) ≡ some (before_run ts f)

  fill_while-take :
      (r : Quantity) (n : OrderNode) (ns : PriceLevel) (e : Engine) (f : Run PriceLevel)
      → is_positive r ≡ true
      → leb_ℤ n.order.quantity r ≡ true
      → Inner (r -ℤ n.order.quantity) ns (retire n ns (next_event e)).1 f
      → Inner r (n ∷ ns) e (before_run (trade_of t p n.order.quantity n e.next_sequence ∷ []) f)
  fill_while-take r n ns e f more whole ih zero ts h = absurd (omega (arith, h))
  fill_while-take r n ns e f more whole ih (suc fuel) ts h =
      let trade = trade_of t p n.order.quantity n e.next_sequence ∷ [] in
      fill_while_step ts r n ns e fuel more
      ∙ (ap (fill_while fuel t p) (fill_body_take ts r n ns e whole)
          ∙ (ih fuel (ts ++ trade) (omega (arith, h))
              ∙ ap (λ trades. some (run_of trades f.remaining f.rest f.engine))
                  (append_assoc ts trade f.trades)))

  fill_while-part :
      (r : Quantity) (n : OrderNode) (ns : PriceLevel) (e : Engine)
      → is_positive r ≡ true
      → leb_ℤ n.order.quantity r ≡ false
      → Inner r (n ∷ ns) e (
          run_of
            (trade_of t p r n e.next_sequence ∷ [])
            (pos 0)
            (with_quantity n (n.order.quantity -ℤ r) ∷ ns)
            (next_event e))
  fill_while-part r n ns e more part zero ts h = absurd (omega (arith, h))
  fill_while-part r n ns e more part (suc fuel) ts h =
      fill_while_step ts r n ns e fuel more
      ∙ (ap (fill_while fuel t p) (fill_body_part ts r n ns e part)
          ∙ fill_while_done fuel _ (pos 0) _ (next_event e) refl)

  pub fill_while-fill_level :
      (r : Quantity) (level : PriceLevel) (e : Engine) → Inner r level e (fill_level t p r level e)
  fill_while-fill_level =
      fill_level_rule t p Inner
        (λ r e fuel ts h. fill_while_empty fuel ts r e ∙ rw (append-nil ts) refl)
        (λ r n ns e done fuel ts h.
          fill_while_done fuel ts r (n ∷ ns) e done ∙ rw (append-nil ts) refl)
        fill_while-take fill_while-part
