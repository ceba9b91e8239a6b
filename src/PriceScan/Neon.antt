-- ===== src/PriceScan/Neon.antt =====
-- The NEON scan gives what the scalar scan gives, for every vector unit that does what Arm's
-- reference says.
use lowlatency_exec_core.PriceScan.Exact.{
  scan_from-hits, scan_quantity_at_or_better_scalar-hit_lots, Fits, Fits-hit_lots, hit_lots,
  hit_count,
}
use lowlatency_exec_core.Types.{sell, buy, Side, Price}
use lowlatency_exec_core.Common.{
  Bool-cases, ◌+◌, ◌≤◌, [], All, true, ◌∷◌, some, length, ◌≡◌, ℕ, ◌∙◌, ◌<◌, Bool, ap₂, inl,
  if◌then◌else◌, arith, List, false, ◌^◌, inr,
}
use lowlatency_exec_core.Common.Int.{
  neg_part, negsuc, pos_part, pos, bits, wrap64, add_checked-pos, ◌+ℤ◌, ℤ,
}
use lowlatency_exec_core.PriceScan.{
  neon_finish, ScanResult, hit, NeonUnit, scan_quantity_at_or_better_scalar, scan_result, neon_loop,
  PriceLevel, scan_quantity_at_or_better_neon, neon_mask,
}

-- One lane of an accumulator, with the lots of one level.
pub wrap64_add :
    (a : ℕ) (h : Bool) (q : ℤ)
    → neg_part q ≡ 0
    → a + (if h then pos_part q else 0) < 2 ^ 63
    → wrap64 (pos a +ℤ (if h then q else pos 0)) ≡ pos (a + (if h then pos_part q else 0))
unfolding wrap64 ◌+ℤ◌
wrap64_add a true (pos n) z k = ground arith
wrap64_add a true (negsuc n) z k = absurd (omega arith)
wrap64_add a false q z k = ground arith

module _ (u : NeonUnit) (side : Side) (limit_price : Price) where
  open u use {
    Vec, lane, vdupq, vaddq, vandq, vcleq, vcgeq, vld2q, lane-vdupq, lane-vaddq, vandq_ones,
    vandq_zeros, lane-vcleq, lane-vcgeq, vld2q_prices, vld2q_quantities,
  }

  abbrev lots_of : PriceLevel → ℕ
  lots_of l = if hit side limit_price l then pos_part l.quantity else 0

  abbrev one_of : PriceLevel → ℕ
  one_of l = if hit side limit_price l then 1 else 0

  one_of_le : (l : PriceLevel) → one_of l ≤ 1
  one_of_le l = ground arith

  mask-lane :
      (s : Side) (p : Vec) (i : ℕ) (l : PriceLevel)
      → lane p i ≡ l.price
      → lane (neon_mask u s p (vdupq limit_price)) i
        ≡ (if hit s limit_price l then negsuc 0 else pos 0)
  mask-lane buy p i l e = rw (lane-vcleq, lane-vdupq, e)
  mask-lane sell p i l e = rw (lane-vcgeq, lane-vdupq, e)

  -- A lane of a vector under the mask.
  masked :
      (p v : Vec) (i : ℕ) (l : PriceLevel)
      → lane p i ≡ l.price
      → lane (vandq (neon_mask u side p (vdupq limit_price)) v) i
        ≡ (if hit side limit_price l then lane v i else pos 0)
  masked p v i l e = elim (Bool-cases (hit side limit_price l)) [
    | inl taken ↦ rw taken (vandq_ones _ v i (mask-lane side p i l e ∙ rw taken))
    | inr passed ↦ rw passed (vandq_zeros _ v i (mask-lane side p i l e ∙ rw passed))
  ]

  add_masked :
      (acc p v : Vec) (i a : ℕ) (l : PriceLevel) (q : ℤ)
      → lane acc i ≡ pos a
      → lane p i ≡ l.price
      → lane v i ≡ q
      → neg_part q ≡ 0
      → a + (if hit side limit_price l then pos_part q else 0) < 2 ^ 63
      → lane (vaddq acc (vandq (neon_mask u side p (vdupq limit_price)) v)) i
        ≡ pos (a + (if hit side limit_price l then pos_part q else 0))
  add_masked acc p v i a l q ea ep ev z k =
      rw (lane-vaddq, ea, masked p v i l ep, ev) (wrap64_add a (hit side limit_price l) q z k)

  finish-hits :
      (sum_vec count_vec : Vec) (a b c d : ℕ) (rest : List PriceLevel)
      → lane sum_vec 0 ≡ pos a
      → lane sum_vec 1 ≡ pos b
      → lane count_vec 0 ≡ pos c
      → lane count_vec 1 ≡ pos d
      → All (λ (l : PriceLevel). neg_part l.quantity ≡ 0) rest
      → a + b + hit_lots side limit_price rest < 2 ^ 63
      → c + d + length rest < 2 ^ 63
      → neon_finish u side limit_price sum_vec count_vec rest
        ≡ some (
            scan_result
              (pos (a + b + hit_lots side limit_price rest))
              (c + d + hit_count side limit_price rest))
  unfolding neon_finish
  finish-hits sum_vec count_vec a b c d rest ea eb ec ed z k n =
      rw (ea, eb, add_checked-pos a b (omega arith), neon_finish)
        (rw (ec, ed, add_checked-pos c d (omega arith))
          (rw (bits_small (c + d) (omega arith))
            (scan_from-hits side limit_price (a + b) (c + d) rest z k (omega arith))))
    where
      bits_small : (m : ℕ) → m < 2 ^ 63 → bits (pos m) ≡ m
      bits_small m h = unfold bits in omega arith

  -- What two lanes of an accumulator gain from the levels `x` and `y`.
  neon_loop-hits :
      (sum_vec count_vec : Vec) (a b c d : ℕ) (levels : List PriceLevel)
      → lane sum_vec 0 ≡ pos a
      → lane sum_vec 1 ≡ pos b
      → lane count_vec 0 ≡ pos c
      → lane count_vec 1 ≡ pos d
      → All (λ (l : PriceLevel). neg_part l.quantity ≡ 0) levels
      → a + b + hit_lots side limit_price levels < 2 ^ 63
      → c + d + length levels < 2 ^ 63
      → neon_loop u side limit_price sum_vec count_vec levels
        ≡ some (
            scan_result
              (pos (a + b + hit_lots side limit_price levels))
              (c + d + hit_count side limit_price levels))
  unfolding neon_loop
  neon_loop-hits sum_vec count_vec a b c d (x ∷ y ∷ ls) ea eb ec ed z k n =
      let hx : ℕ = lots_of x in
      let hy : ℕ = lots_of y in
      let (p0, p1) = vld2q_prices x y in
      let (q0, q1) = vld2q_quantities x y in
      let prices = (vld2q x y).0 in
      let lots = (vld2q x y).1 in
      let ones = vdupq (pos 1) in
      neon_loop-hits (vaddq sum_vec (vandq (neon_mask u side prices (vdupq limit_price)) lots))
        (vaddq count_vec (vandq (neon_mask u side prices (vdupq limit_price)) ones)) (a + lots_of x)
        (b + lots_of y) (c + one_of x) (d + one_of y) ls
        (add_masked sum_vec prices lots 0 a x x.quantity ea p0 q0 z.0 (omega arith))
        (add_masked sum_vec prices lots 1 b y y.quantity eb p1 q1 z.1.0 (omega arith))
        (add_masked count_vec prices ones 0 c x (pos 1) ec p0 (lane-vdupq _ 0) (omega arith)
          (omega (arith, one_of_le x)))
        (add_masked count_vec prices ones 1 d y (pos 1) ed p1 (lane-vdupq _ 1) (omega arith)
          (omega (arith, one_of_le y)))
        z.1.1 (omega arith) (omega (arith, one_of_le x, one_of_le y))
      ∙ ap₂ (λ n m. some (scan_result (pos n) m)) (omega arith) (omega arith)
  neon_loop-hits sum_vec count_vec a b c d [] ea eb ec ed z k n =
      finish-hits sum_vec count_vec a b c d [] ea eb ec ed z k n
  neon_loop-hits sum_vec count_vec a b c d (x ∷ []) ea eb ec ed z k n =
      finish-hits sum_vec count_vec a b c d (x ∷ []) ea eb ec ed z k n

-- For every vector unit with the documented lanes: where no level has a negative quantity, the lots
-- at or better than the limit are below 2 ^ 63 and so is the number of levels, the NEON scan and
-- the scalar scan give the same result, and neither overflows.
pub neon-scalar :
    (u : NeonUnit) (levels : List PriceLevel) (limit_price : Price) (side : Side)
    → Fits side limit_price levels
    → (r : ScanResult) × (scan_quantity_at_or_better_neon u levels limit_price side ≡ some r)
      × (scan_quantity_at_or_better_scalar levels limit_price side ≡ some r)
unfolding scan_quantity_at_or_better_neon
neon-scalar u levels limit_price side f = (
  scan_result (pos (hit_lots side limit_price levels)) (hit_count side limit_price levels),
  neon_loop-hits u side limit_price _ _ 0 0 0 0 levels (u.lane-vdupq _ _) (u.lane-vdupq _ _)
        (u.lane-vdupq _ _) (u.lane-vdupq _ _) f.no_negative (omega (arith, Fits-hit_lots f))
        (omega (arith, f.count))
      ∙ ap₂ (λ n m. some (scan_result (pos n) m)) (omega arith) (omega arith),
  scan_quantity_at_or_better_scalar-hit_lots levels limit_price side f,
)
