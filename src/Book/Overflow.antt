-- ===== src/Book/Overflow.antt =====
-- Where the arithmetic of src/order_book.cpp stays in `std::int64_t`, and where it does not.
use lowlatency_exec_core.Book.Checked.{
  fill_level_checked, sweep_checked, sum_from_checked, sum_quantity_checked, IsLots, LevelLots,
  SideLots,
}
use lowlatency_exec_core.Common.{
  ◌≡◌, refl, true, false, Option, none, some, [], ◌∷◌, ◌<◌, ◌^◌, arith, Bool-cases, inl, inr,
  if◌then◌else◌, ◌+◌, ltb, ap, ℕ, ◌∙◌,
}
use lowlatency_exec_core.Common.Int.{
  ℤ, pos, pos_part, neg_part, ◌+ℤ◌, ◌-ℤ◌, leb_ℤ, add_checked, sub_checked_less, one_part,
  add_checked_nonneg,
}
use lowlatency_exec_core.Types.{Price, Quantity}
use lowlatency_exec_core.Levels.{PriceLevel, Levels, is_empty, sum_from, sum_quantity}
use lowlatency_exec_core.Book.{
  Taker, Engine, is_positive, too_far, retire, next_event, fill_level, sweep,
}
use lowlatency_exec_core.Book.Loops.{
  fill_level_take, fill_level_part, fill_level_stop, min_left, min_right, kept_some, sub_self,
  fill_level_rule,
}

leb_refl : (a : ℤ) → leb_ℤ a a ≡ true
leb_refl a = ground arith

less : (a b : ℤ) → leb_ℤ b a ≡ false → leb_ℤ a b ≡ true
less a b h = ground arith

rest_nonneg : (a b : ℤ) → leb_ℤ b a ≡ true → leb_ℤ (pos 0) (a -ℤ b) ≡ true
unfolding ◌-ℤ◌
rest_nonneg a b h = ground arith

rest_fits :
    (a b : ℤ)
    → leb_ℤ (pos 0) b ≡ true
    → leb_ℤ b a ≡ true
    → pos_part a < 2 ^ 63
    → pos_part (a -ℤ b) < 2 ^ 63
unfolding ◌-ℤ◌
rest_fits a b h k fits = ground arith

kept_IsLots : (a b : ℤ) → is_positive b ≡ true → leb_ℤ a b ≡ false → IsLots a → IsLots (a -ℤ b)
unfolding ◌-ℤ◌
kept_IsLots a b h k v = (ground (arith, k), ground (arith, h, k, v.0, v.1))

-- What remains of an order is a number of lots of an `std::int64_t`, or nothing.
abbrev pub IsLeft : Quantity → Type 0
IsLeft r = (leb_ℤ (pos 0) r ≡ true) × (pos_part r < 2 ^ 63)

module _ (t : Taker) (p : Price) where
  fill_level_checked-fill_level :
      (r : Quantity) (level : PriceLevel) (e : Engine)
      → leb_ℤ (pos 0) r ≡ true
      → pos_part r < 2 ^ 63
      → LevelLots level
      → fill_level_checked t p r level e ≡ some (fill_level t p r level e)
  unfolding fill_level_checked
  fill_level_checked-fill_level r [] e nonneg fits v = unfold fill_level in refl
  fill_level_checked-fill_level r (n ∷ ns) e nonneg fits v =
      let q = n.order.quantity in
      let some_lots : leb_ℤ (pos 0) q ≡ true = ground (arith, v.0.0) in
      elim (Bool-cases (is_positive r)) [
        | inr done ↦ rw (fill_level_stop t p r n ns e done, done, fill_level_checked) refl
        | inl more ↦ elim (Bool-cases (leb_ℤ q r)) [
          | inl whole ↦
              rw
                (
                  fill_level_take t p r n ns e more whole,
                  more,
                  min_right r q whole,
                  sub_checked_less r q some_lots whole fits,
                  min_right r q whole,
                  sub_checked_less q q some_lots (leb_refl q) v.0.1,
                  sub_self q,
                  fill_level_checked-fill_level (r -ℤ q) ns (retire n ns (next_event e)).1
                      (rest_nonneg r q whole) (rest_fits r q some_lots whole fits) v.1,
                  min_right r q whole,
                )
                refl
          | inr part ↦
              rw
                (
                  fill_level_part t p r n ns e more part,
                  more,
                  min_left r q part,
                  sub_checked_less r r nonneg (leb_refl r) fits,
                  min_left r q part,
                  sub_checked_less q r nonneg (less r q part) v.0.1,
                  kept_some r q part,
                  min_left r q part,
                  sub_self r,
                )
                refl
        ]
      ]

  -- The loop leaves such numbers.
  fill_level-Lots :
      (r : Quantity) (level : PriceLevel) (e : Engine)
      → IsLeft r
      → LevelLots level
      → IsLeft (fill_level t p r level e).remaining × LevelLots (fill_level t p r level e).rest
  fill_level-Lots =
      fill_level_rule t p
        (λ r level e f. IsLeft r → LevelLots level → IsLeft f.remaining × LevelLots f.rest)
        (λ r e h v. (h, v)) (λ r n ns e done h v. (h, v))
        (λ r n ns e f more whole ih h v.
          let some_lots : leb_ℤ (pos 0) n.order.quantity ≡ true = ground (arith, v.0.0) in
          ih
            (rest_nonneg r n.order.quantity whole, rest_fits r n.order.quantity some_lots whole h.1)
            v.1)
        (λ r n ns e more part h v.
          ((refl, omega arith), (kept_IsLots n.order.quantity r more part v.0, v.1)))

module _ (t : Taker) where
  -- Where what remains of an order is not negative and, like every quantity that rests on the other
  -- side, below 2 ^ 63, and those are positive: no subtraction of the two matching loops leaves the
  -- range of a 64-bit signed integer, so the loops with that check give what the loops without it
  -- give, and every quantity that still rests is again positive and below 2 ^ 63.
  pub sweep_checked-sweep :
      (r : Quantity) (ls : Levels) (e : Engine)
      → IsLeft r
      → SideLots ls
      → (sweep_checked t r ls e ≡ some (sweep t r ls e)) × SideLots (sweep t r ls e).rest
  unfolding sweep_checked sweep
  sweep_checked-sweep r [] e h v = (refl, tt)
  sweep_checked-sweep r ((p, level) ∷ ls) e h v =
      let f = fill_level t p r level e in
      let inner = fill_level_checked-fill_level t p r level e h.0 h.1 v.0 in
      let kept = fill_level-Lots t p r level e h v.0 in
      let outer = sweep_checked-sweep f.remaining ls f.engine kept.0 v.1 in
      elim (Bool-cases (is_positive r)) [
        | inr done ↦ rw done (refl, v)
        | inl more ↦ elim (Bool-cases (too_far t.side t.price p)) [
          | inl far ↦ rw (more, far) (refl, v)
          | inr near ↦ elim (Bool-cases (is_empty f.rest)) [
            | inl emptied ↦ rw (more, near, inner, emptied, outer.0) (refl, outer.1)
            | inr some_left ↦ rw (more, near, inner, some_left) (refl, (kept.1, v.1))
          ]
        ]
      ]

-- The lots of a level.
abbrev pub lots : PriceLevel → ℕ
lots [] = 0
lots (n ∷ ns) = pos_part n.order.quantity + lots ns

no_debt : (q : Quantity) → is_positive q ≡ true → neg_part q ≡ 0
no_debt q h = ground (arith, one_part q, h)

add_lots :
    (total : ℕ) (q : Quantity) → is_positive q ≡ true → pos total +ℤ q ≡ pos (total + pos_part q)
unfolding ◌+ℤ◌
add_lots total q h = let none_owed = no_debt q h in ground (arith, none_owed)

sum_from-lots :
    (total : ℕ) (ns : PriceLevel) → LevelLots ns → sum_from (pos total) ns ≡ pos (total + lots ns)
unfolding sum_from
sum_from-lots total [] v = ap pos {x = total} (omega arith)
sum_from-lots total (n ∷ ns) v =
    let q = n.order.quantity in
    rw (add_lots total q v.0.0) (
      sum_from-lots (total + pos_part q) ns v.1
      ∙ ap pos {x = total + pos_part q + lots ns} (omega arith))

add_checked_over :
    (total : ℕ) (q : Quantity)
    → is_positive q ≡ true
    → ltb (total + pos_part q) (2 ^ 63) ≡ false
    → add_checked (pos total) q ≡ none
unfolding add_checked
add_checked_over total q h k = rw (add_lots total q h, k) refl

-- The total, where it is an `std::int64_t`.
abbrev pub in_range : ℕ → Option Quantity
in_range total = if ltb total (2 ^ 63) then some (pos total) else none

sum_from_checked-lots :
    (total : ℕ) (ns : PriceLevel)
    → total < 2 ^ 63
    → LevelLots ns
    → sum_from_checked (pos total) ns ≡ in_range (total + lots ns)
unfolding sum_from_checked
sum_from_checked-lots total [] h v =
    let small : ltb (total + 0) (2 ^ 63) ≡ true = ground (arith, h) in
    rw small (ap (λ n. some (pos n)) {x = total} (omega arith))
sum_from_checked-lots total (n ∷ ns) h v =
    let q = n.order.quantity in
    elim (Bool-cases (ltb (total + pos_part q) (2 ^ 63))) [
      | inl small ↦
          let fits : total + pos_part q < 2 ^ 63 = ground (arith, small) in
          rw (add_checked_nonneg total q (no_debt q v.0.0) fits, sum_from_checked)
            (sum_from_checked-lots (total + pos_part q) ns fits v.1
              ∙ ap in_range {x = total + pos_part q + lots ns} (omega arith))
      | inr over ↦
          let out : ltb (total + (pos_part q + lots ns)) (2 ^ 63) ≡ false = ground (arith, over) in
          rw (add_checked_over total q v.0.0 over, out, sum_from_checked) refl
    ]

-- On a level whose orders all have positive quantities below 2 ^ 63, the sum is the number of its
-- lots, and the loop of sum_quantity stays in the range of a 64-bit signed integer exactly where
-- that number is below 2 ^ 63.
pub sum_quantity_checked-sum_quantity :
    (level : PriceLevel)
    → LevelLots level
    → (sum_quantity level ≡ pos (lots level)) × (sum_quantity_checked level ≡ in_range (lots level))
unfolding sum_quantity sum_quantity_checked
sum_quantity_checked-sum_quantity level v = (
  sum_from-lots 0 level v ∙ ap pos {x = 0 + lots level} (omega arith),
  sum_from_checked-lots 0 level (omega arith) v ∙ ap in_range {x = 0 + lots level} (omega arith),
)
