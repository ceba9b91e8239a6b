-- ===== src/PriceScan/AvxExact.antt =====
-- The lanes of the AVX2 scan, for every vector unit that does what Intel's reference says: the mask,
-- one round of the vector loop, and the sums after it.
use lowlatency_exec_core.PriceScan.Exact.{scan_from-hits, hit_lots, hit_count}
use lowlatency_exec_core.PriceScan.Neon.{wrap64_add}
use lowlatency_exec_core.Types.{sell, buy, Side, Price}
use lowlatency_exec_core.Common.{
  Bool-cases, ◌+◌, ◌≤◌, All, true, some, length, ◌≡◌, ℕ, ◌∙◌, ◌<◌, inl, refl, if◌then◌else◌, arith,
  List, false, ◌^◌, inr,
}
use lowlatency_exec_core.Common.Int.{
  neg_part, negsuc, pos_part, pos, bits, add_checked-pos, ℤ, ltb_ℤ, leb_ℤ,
}
use lowlatency_exec_core.PriceScan.{hit, scan_result, PriceLevel}
use lowlatency_exec_core.PriceScan.Avx.{
  AvxUnit, avx_mask, avx2_finish, lane_sum, prices_of, quantities_of,
}

-- Not greater is at most.
not_greater : (a b : ℤ) → leb_ℤ a b ≡ (if ltb_ℤ b a then false else true)
not_greater a b = ground arith

bits_small : (m : ℕ) → m < 2 ^ 63 → bits (pos m) ≡ m
unfolding bits
bits_small m h = omega arith

module _ (u : AvxUnit) (side : Side) (limit_price : Price) where
  open u use {
    Vec, lane, set1, setzero, loadu, unpacklo, unpackhi, cmpeq, cmpgt, xor, and, add, lane-set1,
    lane-setzero, loadu_lanes, unpacklo_lanes, unpackhi_lanes, cmpeq_self, lane-cmpgt, xor_ones,
    xor_zeros, and_ones, and_zeros, lane-add,
  }

  abbrev pub lots_of : PriceLevel → ℕ
  lots_of l = if hit side limit_price l then pos_part l.quantity else 0

  abbrev pub one_of : PriceLevel → ℕ
  one_of l = if hit side limit_price l then 1 else 0

  pub one_of_le : (l : PriceLevel) → one_of l ≤ 1
  one_of_le l = ground arith

  -- The complement of a comparison, in one lane.
  complement :
      (p a b : Vec) (i : ℕ) (x y : ℤ)
      → lane a i ≡ x
      → lane b i ≡ y
      → lane (xor (cmpgt a b) (cmpeq p p)) i ≡ (if leb_ℤ x y then negsuc 0 else pos 0)
  complement p a b i x y ea eb = elim (Bool-cases (ltb_ℤ y x)) [
    | inl above ↦
        rw (not_greater x y, above)
          (xor_ones _ _ i (lane-cmpgt a b i ∙ rw (ea, eb, above) refl) (cmpeq_self p i))
    | inr at_most ↦
        rw (not_greater x y, at_most)
          (xor_zeros _ _ i (lane-cmpgt a b i ∙ rw (ea, eb, at_most) refl) (cmpeq_self p i))
  ]

  mask-lane :
      (s : Side) (p : Vec) (i : ℕ) (l : PriceLevel)
      → lane p i ≡ l.price
      → lane (avx_mask u s p (set1 limit_price)) i
        ≡ (if hit s limit_price l then negsuc 0 else pos 0)
  mask-lane buy p i l e = complement p p (set1 limit_price) i l.price limit_price e (lane-set1 _ i)
  mask-lane sell p i l e = complement p (set1 limit_price) p i limit_price l.price (lane-set1 _ i) e

  -- A lane of a vector under the mask.
  masked :
      (p v : Vec) (i : ℕ) (l : PriceLevel)
      → lane p i ≡ l.price
      → lane (and (avx_mask u side p (set1 limit_price)) v) i
        ≡ (if hit side limit_price l then lane v i else pos 0)
  masked p v i l e = elim (Bool-cases (hit side limit_price l)) [
    | inl taken ↦ rw taken (and_ones _ v i (mask-lane side p i l e ∙ rw taken))
    | inr passed ↦ rw passed (and_zeros _ v i (mask-lane side p i l e ∙ rw passed))
  ]

  pub add_masked :
      (acc p v : Vec) (i a : ℕ) (l : PriceLevel) (q : ℤ)
      → lane acc i ≡ pos a
      → lane p i ≡ l.price
      → lane v i ≡ q
      → neg_part q ≡ 0
      → a + (if hit side limit_price l then pos_part q else 0) < 2 ^ 63
      → lane (add acc (and (avx_mask u side p (set1 limit_price)) v)) i
        ≡ pos (a + (if hit side limit_price l then pos_part q else 0))
  add_masked acc p v i a l q ea ep ev z k =
      rw (lane-add, ea, masked p v i l ep, ev) (wrap64_add a (hit side limit_price l) q z k)

  -- The four lanes of an accumulator.
  pub record Holds (v : Vec) (a b c d : ℕ) : Type 0 where
    pub l0 : lane v 0 ≡ pos a
    pub l1 : lane v 1 ≡ pos b
    pub l2 : lane v 2 ≡ pos c
    pub l3 : lane v 3 ≡ pos d

  lane_sum-Holds :
      (v : Vec) (a b c d : ℕ)
      → Holds v a b c d
      → a + b + c + d < 2 ^ 63
      → lane_sum u v ≡ some (pos (a + b + c + d))
  lane_sum-Holds v a b c d h k =
      rw (h.l0, h.l1, h.l2, h.l3, add_checked-pos a b (omega arith))
        (rw (add_checked-pos (a + b) c (omega arith)) (add_checked-pos (a + b + c) d k))

  pub finish-hits :
      (sum_vec count_vec : Vec) (a b c d m n o p : ℕ) (rest : List PriceLevel)
      → Holds sum_vec a b c d
      → Holds count_vec m n o p
      → All (λ (l : PriceLevel). neg_part l.quantity ≡ 0) rest
      → a + b + c + d + hit_lots side limit_price rest < 2 ^ 63
      → m + n + o + p + length rest < 2 ^ 63
      → avx2_finish u side limit_price sum_vec count_vec rest
        ≡ some (
            scan_result
              (pos (a + b + c + d + hit_lots side limit_price rest))
              (m + n + o + p + hit_count side limit_price rest))
  unfolding avx2_finish
  finish-hits sum_vec count_vec a b c d m n o p rest hs hc z k j =
      rw (lane_sum-Holds sum_vec a b c d hs (omega arith), avx2_finish)
        (rw (lane_sum-Holds count_vec m n o p hc (omega arith)) (
          rw (bits_small (m + n + o + p) (omega arith)) (
            scan_from-hits side limit_price (a + b + c + d) (m + n + o + p) rest z k
              (omega arith))))

  -- The prices and the lots of four levels, as the unpacks leave them.
  pub prices_lanes :
      (w x y z : PriceLevel)
      → (lane (prices_of u w x y z) 0 ≡ w.price)
        × (lane (prices_of u w x y z) 1 ≡ y.price)
        × (lane (prices_of u w x y z) 2 ≡ x.price)
        × (lane (prices_of u w x y z) 3 ≡ z.price)
  prices_lanes w x y z =
      let lo = loadu_lanes w x in
      let hi = loadu_lanes y z in
      let p = unpacklo_lanes (loadu w x) (loadu y z) in
      (p.0 ∙ lo.0, p.1 ∙ hi.0, p.2 ∙ lo.2, p.3 ∙ hi.2)

  pub quantities_lanes :
      (w x y z : PriceLevel)
      → (lane (quantities_of u w x y z) 0 ≡ w.quantity)
        × (lane (quantities_of u w x y z) 1 ≡ y.quantity)
        × (lane (quantities_of u w x y z) 2 ≡ x.quantity)
        × (lane (quantities_of u w x y z) 3 ≡ z.quantity)
  quantities_lanes w x y z =
      let lo = loadu_lanes w x in
      let hi = loadu_lanes y z in
      let p = unpackhi_lanes (loadu w x) (loadu y z) in
      (p.0 ∙ lo.1, p.1 ∙ hi.1, p.2 ∙ lo.3, p.3 ∙ hi.3)
