-- ===== src/PriceScan/Dispatch.antt =====
-- The AVX2 scan and the dispatcher against the scalar scan.
use lowlatency_exec_core.PriceScan.Exact.{
  scan_quantity_at_or_better_scalar-hit_lots, Fits, Fits-hit_lots, hit_lots, hit_count,
}
use lowlatency_exec_core.PriceScan.Neon.{neon-scalar}
use lowlatency_exec_core.PriceScan.AvxExact.{
  lots_of, one_of, one_of_le, Holds, add_masked, finish-hits, prices_lanes, quantities_lanes,
}
use lowlatency_exec_core.Types.{Side, Price}
use lowlatency_exec_core.Common.{
  ◌+◌, [], All, ◌∷◌, some, length, ◌≡◌, ℕ, ◌∙◌, ◌<◌, ap₂, arith, List, ◌^◌,
}
use lowlatency_exec_core.Common.Int.{neg_part, pos}
use lowlatency_exec_core.PriceScan.{
  ScanResult, scan_quantity_at_or_better_scalar, scan_result, PriceLevel,
}
use lowlatency_exec_core.PriceScan.Avx.{
  AvxUnit, avx_mask, avx2_loop, prices_of, quantities_of, scan_quantity_at_or_better_avx2,
  scan_quantity_at_or_better, Target, arm_neon, x86_avx2, portable,
}

module _ (u : AvxUnit) (side : Side) (limit_price : Price) where
  open u use {Vec, set1, and, add, lane-set1}

  -- An accumulator of lots after one round.
  sum_round :
      (sum_vec : Vec) (a b c d : ℕ) (w x y z : PriceLevel)
      → Holds u side limit_price sum_vec a b c d
      → (neg_part w.quantity ≡ 0)
        × (neg_part x.quantity ≡ 0)
        × (neg_part y.quantity ≡ 0)
        × (neg_part z.quantity ≡ 0)
      → a
          + lots_of u side limit_price w
          + (b + lots_of u side limit_price y)
          + (c + lots_of u side limit_price x)
          + (d + lots_of u side limit_price z)
        < 2 ^ 63
      → Holds u side limit_price
          (add sum_vec (
            and
              (avx_mask u side (prices_of u w x y z) (set1 limit_price))
              (quantities_of u w x y z)))
          (a + lots_of u side limit_price w)
          (b + lots_of u side limit_price y)
          (c + lots_of u side limit_price x)
          (d + lots_of u side limit_price z)
  sum_round sum_vec a b c d w x y z h n k =
      let p = prices_lanes u side limit_price w x y z in
      let q = quantities_lanes u side limit_price w x y z in
      let step =
        add_masked u side limit_price sum_vec (prices_of u w x y z) (quantities_of u w x y z) in
      record {
        l0 = step 0 a w w.quantity h.l0 p.0 q.0 n.0 (omega (arith, k));
        l1 = step 1 b y y.quantity h.l1 p.1 q.1 n.2 (omega (arith, k));
        l2 = step 2 c x x.quantity h.l2 p.2 q.2 n.1 (omega (arith, k));
        l3 = step 3 d z z.quantity h.l3 p.3 q.3 n.3 (omega (arith, k));
      }

  -- An accumulator of levels after one round.
  count_round :
      (count_vec : Vec) (a b c d : ℕ) (w x y z : PriceLevel)
      → Holds u side limit_price count_vec a b c d
      → a + b + c + d + 4 < 2 ^ 63
      → Holds u side limit_price
          (add count_vec
            (and (avx_mask u side (prices_of u w x y z) (set1 limit_price)) (set1 (pos 1))))
          (a + one_of u side limit_price w)
          (b + one_of u side limit_price y)
          (c + one_of u side limit_price x)
          (d + one_of u side limit_price z)
  count_round count_vec a b c d w x y z h k =
      let p = prices_lanes u side limit_price w x y z in
      let le = one_of_le u side limit_price in
      let step = add_masked u side limit_price count_vec (prices_of u w x y z) (set1 (pos 1)) in
      record {
        l0 = step 0 a w (pos 1) h.l0 p.0 (lane-set1 _ 0) (omega arith) (omega (arith, k, le w));
        l1 = step 1 b y (pos 1) h.l1 p.1 (lane-set1 _ 1) (omega arith) (omega (arith, k, le y));
        l2 = step 2 c x (pos 1) h.l2 p.2 (lane-set1 _ 2) (omega arith) (omega (arith, k, le x));
        l3 = step 3 d z (pos 1) h.l3 p.3 (lane-set1 _ 3) (omega arith) (omega (arith, k, le z));
      }

  avx2_loop-hits :
      (sum_vec count_vec : Vec) (a b c d m n o p : ℕ) (levels : List PriceLevel)
      → Holds u side limit_price sum_vec a b c d
      → Holds u side limit_price count_vec m n o p
      → All (λ (l : PriceLevel). neg_part l.quantity ≡ 0) levels
      → a + b + c + d + hit_lots side limit_price levels < 2 ^ 63
      → m + n + o + p + length levels < 2 ^ 63
      → avx2_loop u side limit_price sum_vec count_vec levels
        ≡ some (
            scan_result
              (pos (a + b + c + d + hit_lots side limit_price levels))
              (m + n + o + p + hit_count side limit_price levels))
  unfolding avx2_loop
  avx2_loop-hits sum_vec count_vec a b c d m n o p (w ∷ x ∷ y ∷ z ∷ ls) hs hc q k j =
      let lots = lots_of u side limit_price in
      let one = one_of u side limit_price in
      let le = one_of_le u side limit_price in
      let hs' =
        sum_round sum_vec a b c d w x y z hs (q.0, q.1.0, q.1.1.0, q.1.1.1.0) (omega (arith, k)) in
      let hc' = count_round count_vec m n o p w x y z hc (omega (arith, j)) in
      let mask = avx_mask u side (prices_of u w x y z) (set1 limit_price) in
      avx2_loop-hits (add sum_vec (and mask (quantities_of u w x y z)))
        (add count_vec (and mask (set1 (pos 1)))) (a + lots w) (b + lots y) (c + lots x)
        (d + lots z) (m + one w) (n + one y) (o + one x) (p + one z) ls hs' hc' q.1.1.1.1
        (omega (arith, k)) (omega (arith, j, le w, le x, le y, le z))
      ∙ ap₂ (λ t c. some (scan_result (pos t) c)) (omega arith) (omega arith)
  avx2_loop-hits sum_vec count_vec a b c d m n o p [] hs hc q k j =
      finish-hits u side limit_price sum_vec count_vec a b c d m n o p [] hs hc q k j
  avx2_loop-hits sum_vec count_vec a b c d m n o p (x ∷ []) hs hc q k j =
      finish-hits u side limit_price sum_vec count_vec a b c d m n o p (x ∷ []) hs hc q k j
  avx2_loop-hits sum_vec count_vec a b c d m n o p (x ∷ y ∷ []) hs hc q k j =
      finish-hits u side limit_price sum_vec count_vec a b c d m n o p (x ∷ y ∷ []) hs hc q k j
  avx2_loop-hits sum_vec count_vec a b c d m n o p (x ∷ y ∷ z ∷ []) hs hc q k j =
      finish-hits u side limit_price sum_vec count_vec a b c d m n o p (x ∷ y ∷ z ∷ []) hs hc q k j

-- For every vector unit of four lanes as documented: where no level has a negative quantity, the
-- lots at or better than the limit are below 2 ^ 63 and so is the number of levels, the AVX2 scan
-- and the scalar scan give the same result, and neither overflows.
pub avx2-scalar :
    (u : AvxUnit) (levels : List PriceLevel) (limit_price : Price) (side : Side)
    → Fits side limit_price levels
    → (r : ScanResult) × (scan_quantity_at_or_better_avx2 u levels limit_price side ≡ some r)
      × (scan_quantity_at_or_better_scalar levels limit_price side ≡ some r)
unfolding scan_quantity_at_or_better_avx2
avx2-scalar u levels limit_price side f =
    let zeros : Holds u side limit_price u.setzero 0 0 0 0 = record {
      l0 = u.lane-setzero 0;
      l1 = u.lane-setzero 1;
      l2 = u.lane-setzero 2;
      l3 = u.lane-setzero 3;
    } in
    (
      scan_result (pos (hit_lots side limit_price levels)) (hit_count side limit_price levels),
      avx2_loop-hits u side limit_price _ _ 0 0 0 0 0 0 0 0 levels zeros zeros f.no_negative
            (omega (arith, Fits-hit_lots f)) (omega (arith, f.count))
          ∙ ap₂ (λ t c. some (scan_result (pos t) c)) (omega arith) (omega arith),
      scan_quantity_at_or_better_scalar-hit_lots levels limit_price side f,
    )

-- Whatever target the build is for: where no level has a negative quantity, the lots at or better
-- than the limit are below 2 ^ 63 and so is the number of levels, the dispatched scan and the
-- scalar scan give the same result, and neither overflows.
pub scan_quantity_at_or_better-scalar :
    (target : Target) (levels : List PriceLevel) (limit_price : Price) (side : Side)
    → Fits side limit_price levels
    → (r : ScanResult) × (scan_quantity_at_or_better target levels limit_price side ≡ some r)
      × (scan_quantity_at_or_better_scalar levels limit_price side ≡ some r)
unfolding scan_quantity_at_or_better
scan_quantity_at_or_better-scalar (arm_neon u) levels limit_price side f =
    neon-scalar u levels limit_price side f
scan_quantity_at_or_better-scalar (x86_avx2 u) levels limit_price side f =
    avx2-scalar u levels limit_price side f
scan_quantity_at_or_better-scalar portable levels limit_price side f =
    let r = scan_quantity_at_or_better_scalar-hit_lots levels limit_price side f in (_, r, r)
