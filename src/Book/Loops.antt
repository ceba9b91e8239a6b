-- ===== src/Book/Loops.antt =====
-- One round of each matching loop of `add_limit_order`, by the case that it falls in.
use lowlatency_exec_core.Common.{
  ◌≡◌, refl, Bool, true, false, not, ◌||◌, [], ◌∷◌, arith, Bool-cases, inl, inr,
}
use lowlatency_exec_core.Common.Int.{pos, ◌-ℤ◌, min_ℤ, leb_ℤ}
use lowlatency_exec_core.Types.{Price, Quantity}
use lowlatency_exec_core.Levels.{OrderNode, PriceLevel, Levels, is_empty}
use lowlatency_exec_core.Book.{
  Taker, Engine, Run, run_of, before_run, trade_of, is_positive, is_zero, too_far, retire,
  next_event, with_quantity, fill_level, sweep,
}

pub min_right : (r q : Quantity) → leb_ℤ q r ≡ true → min_ℤ r q ≡ q
unfolding min_ℤ
min_right r q h = ground arith

pub min_left : (r q : Quantity) → leb_ℤ q r ≡ false → min_ℤ r q ≡ r
unfolding min_ℤ
min_left r q h = ground arith

pub sub_self : (r : Quantity) → r -ℤ r ≡ pos 0
unfolding ◌-ℤ◌
sub_self r = ground arith

pub kept_some : (r q : Quantity) → leb_ℤ q r ≡ false → is_zero (q -ℤ r) ≡ false
unfolding ◌-ℤ◌
kept_some r q h = ground arith

module _ (t : Taker) (p : Price) (r : Quantity) (n : OrderNode) (ns : PriceLevel) (e : Engine) where
  -- The head is used up: it leaves the level, the index and the pool, and the loop goes on.
  pub fill_level_take :
      is_positive r ≡ true
      → leb_ℤ n.order.quantity r ≡ true
      → fill_level t p r (n ∷ ns) e
        ≡ before_run
            (trade_of t p n.order.quantity n e.next_sequence ∷ [])
            (fill_level t p (r -ℤ n.order.quantity) ns (retire n ns (next_event e)).1)
  unfolding fill_level
  fill_level_take h k = rw (h, min_right r n.order.quantity k, sub_self n.order.quantity)

  -- The head is larger than what remains: it keeps the difference, and nothing remains.
  pub fill_level_part :
      is_positive r ≡ true
      → leb_ℤ n.order.quantity r ≡ false
      → fill_level t p r (n ∷ ns) e
        ≡ run_of
            (trade_of t p r n e.next_sequence ∷ [])
            (pos 0)
            (with_quantity n (n.order.quantity -ℤ r) ∷ ns)
            (next_event e)
  unfolding fill_level
  fill_level_part h k =
      rw (h, min_left r n.order.quantity k, kept_some r n.order.quantity k, sub_self r)

  pub fill_level_stop : is_positive r ≡ false → fill_level t p r (n ∷ ns) e ≡ run_of [] r (n ∷ ns) e
  unfolding fill_level
  fill_level_stop h = rw h

-- Induction over the inner loop: on a level that is left as it is, on a head that is used up, and
-- on a head that keeps some lots.
pub fill_level_rule {κ} :
    (t : Taker) (p : Price) (P : Quantity → PriceLevel → Engine → Run PriceLevel → Type κ)
    → ((r : Quantity) (e : Engine) → P r [] e (run_of [] r [] e))
    → ((r : Quantity) (n : OrderNode) (ns : PriceLevel) (e : Engine)
        → is_positive r ≡ false
        → P r (n ∷ ns) e (run_of [] r (n ∷ ns) e))
    → ((r : Quantity) (n : OrderNode) (ns : PriceLevel) (e : Engine) (f : Run PriceLevel)
        → is_positive r ≡ true
        → leb_ℤ n.order.quantity r ≡ true
        → P (r -ℤ n.order.quantity) ns (retire n ns (next_event e)).1 f
        → P r (n ∷ ns) e (before_run (trade_of t p n.order.quantity n e.next_sequence ∷ []) f))
    → ((r : Quantity) (n : OrderNode) (ns : PriceLevel) (e : Engine)
        → is_positive r ≡ true
        → leb_ℤ n.order.quantity r ≡ false
        → P r (n ∷ ns) e (
            run_of
              (trade_of t p r n e.next_sequence ∷ [])
              (pos 0)
              (with_quantity n (n.order.quantity -ℤ r) ∷ ns)
              (next_event e)))
    → (r : Quantity) (level : PriceLevel) (e : Engine) → P r level e (fill_level t p r level e)
fill_level_rule t p P none_left stop take part r [] e = unfold fill_level in none_left r e
fill_level_rule t p P none_left stop take part r (n ∷ ns) e =
    let e' : Engine = (retire n ns (next_event e)).1 in
    let rest : Quantity = r -ℤ n.order.quantity in
    elim (Bool-cases (is_positive r)) [
      | inr done ↦ rw (fill_level_stop t p r n ns e done) (stop r n ns e done)
      | inl more ↦ elim (Bool-cases (leb_ℤ n.order.quantity r)) [
        | inl whole ↦ rw (fill_level_take t p r n ns e more whole) (
            take r n ns e (fill_level t p rest ns e') more whole
              (fill_level_rule t p P none_left stop take part rest ns e'))
        | inr some_left ↦
            rw (fill_level_part t p r n ns e more some_left) (part r n ns e more some_left)
      ]
    ]

-- Why the outer loop ends at once: no lots remain, no level does, or the best does not cross.
abbrev pub stops : Taker → Quantity → Levels → Bool
stops t r [] = true
stops t r ((p, level) ∷ ls) = not (is_positive r) || too_far t.side t.price p

-- Induction over the outer loop: on levels that are left as they are, on a level that is used up,
-- and on a level that keeps an order.
pub sweep_rule {κ} :
    (t : Taker) (P : Quantity → Levels → Engine → Run Levels → Type κ)
    → ((r : Quantity) (ls : Levels) (e : Engine)
        → stops t r ls ≡ true
        → P r ls e (run_of [] r ls e))
    → ((r : Quantity) (p : Price) (level : PriceLevel) (ls : Levels) (e : Engine) (k : Run Levels)
        → too_far t.side t.price p ≡ false
        → is_empty (fill_level t p r level e).rest ≡ true
        → P (fill_level t p r level e).remaining ls (fill_level t p r level e).engine k
        → P r ((p, level) ∷ ls) e (before_run (fill_level t p r level e).trades k))
    → ((r : Quantity) (p : Price) (level : PriceLevel) (ls : Levels) (e : Engine)
        → too_far t.side t.price p ≡ false
        → is_empty (fill_level t p r level e).rest ≡ false
        → P r ((p, level) ∷ ls) e (
            run_of
              (fill_level t p r level e).trades
              (fill_level t p r level e).remaining
              ((p, (fill_level t p r level e).rest) ∷ ls)
              (fill_level t p r level e).engine))
    → (r : Quantity) (ls : Levels) (e : Engine) → P r ls e (sweep t r ls e)
unfolding sweep
sweep_rule t P stop next held r [] e = stop r [] e refl
sweep_rule t P stop next held r ((p, level) ∷ ls) e =
    let f : Run PriceLevel = fill_level t p r level e in
    elim (Bool-cases (is_positive r)) [
      | inr done ↦ rw done (stop r ((p, level) ∷ ls) e (rw done))
      | inl more ↦ elim (Bool-cases (too_far t.side t.price p)) [
        | inl far ↦ rw (more, far) (stop r ((p, level) ∷ ls) e (rw (more, far)))
        | inr near ↦ elim (Bool-cases (is_empty f.rest)) [
          | inl emptied ↦
              rw (more, near, emptied)
                (next r p level ls e (sweep t f.remaining ls f.engine) near emptied
                  (sweep_rule t P stop next held f.remaining ls f.engine))
          | inr kept ↦ rw (more, near, kept) (held r p level ls e near kept)
        ]
      ]
    ]
