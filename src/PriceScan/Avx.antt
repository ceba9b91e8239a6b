-- ===== src/PriceScan/Avx.antt =====
-- The AVX2 scan and the dispatcher of src/price_scan.cpp.
use lowlatency_exec_core.Common.{Option, none, some, List, ◌∷◌, if◌then◌else◌, ◌≡◌, ℕ}
use lowlatency_exec_core.Common.Int.{ℤ, pos, negsuc, wrap64, add_checked, ltb_ℤ, bits, ◌+ℤ◌}
use lowlatency_exec_core.Types.{Side, buy, sell, Price}
use lowlatency_exec_core.PriceScan.{
  PriceLevel, ScanResult, scan_from, NeonUnit, scan_quantity_at_or_better_scalar,
  scan_quantity_at_or_better_neon,
}

-- The intrinsics of immintrin.h that the scan uses, on vectors of four 64-bit lanes, with what
-- Intel's reference says of each lane. A load takes two levels; the two unpacks interleave within
-- each half of 128 bits; `lane` is what a store writes.
pub record AvxUnit : Type 1 where
  pub Vec : Type 0
  pub lane : Vec → ℕ → ℤ
  pub set1 : ℤ → Vec
  pub setzero : Vec
  pub loadu : PriceLevel → PriceLevel → Vec
  pub unpacklo : Vec → Vec → Vec
  pub unpackhi : Vec → Vec → Vec
  pub cmpeq : Vec → Vec → Vec
  pub cmpgt : Vec → Vec → Vec
  pub xor : Vec → Vec → Vec
  pub and : Vec → Vec → Vec
  pub add : Vec → Vec → Vec
  pub lane-set1 : (x : ℤ) (i : ℕ) → lane (set1 x) i ≡ x
  pub lane-setzero : (i : ℕ) → lane setzero i ≡ pos 0
  pub loadu_lanes :
      (x y : PriceLevel)
      → (lane (loadu x y) 0 ≡ x.price)
        × (lane (loadu x y) 1 ≡ x.quantity)
        × (lane (loadu x y) 2 ≡ y.price)
        × (lane (loadu x y) 3 ≡ y.quantity)
  pub unpacklo_lanes :
      (a b : Vec)
      → (lane (unpacklo a b) 0 ≡ lane a 0)
        × (lane (unpacklo a b) 1 ≡ lane b 0)
        × (lane (unpacklo a b) 2 ≡ lane a 2)
        × (lane (unpacklo a b) 3 ≡ lane b 2)
  pub unpackhi_lanes :
      (a b : Vec)
      → (lane (unpackhi a b) 0 ≡ lane a 1)
        × (lane (unpackhi a b) 1 ≡ lane b 1)
        × (lane (unpackhi a b) 2 ≡ lane a 3)
        × (lane (unpackhi a b) 3 ≡ lane b 3)
  pub cmpeq_self : (a : Vec) (i : ℕ) → lane (cmpeq a a) i ≡ negsuc 0
  pub lane-cmpgt :
      (a b : Vec) (i : ℕ)
      → lane (cmpgt a b) i ≡ (if ltb_ℤ (lane b i) (lane a i) then negsuc 0 else pos 0)
  pub xor_ones :
      (a b : Vec) (i : ℕ) → lane a i ≡ negsuc 0 → lane b i ≡ negsuc 0 → lane (xor a b) i ≡ pos 0
  pub xor_zeros :
      (a b : Vec) (i : ℕ) → lane a i ≡ pos 0 → lane b i ≡ negsuc 0 → lane (xor a b) i ≡ negsuc 0
  pub and_ones : (m a : Vec) (i : ℕ) → lane m i ≡ negsuc 0 → lane (and m a) i ≡ lane a i
  pub and_zeros : (m a : Vec) (i : ℕ) → lane m i ≡ pos 0 → lane (and m a) i ≡ pos 0
  pub lane-add : (a b : Vec) (i : ℕ) → lane (add a b) i ≡ wrap64 (lane a i +ℤ lane b i)

-- `x + y` of two values that may already have overflowed.
abbrev pub plus : Option ℤ → ℤ → Option ℤ
plus none y = none
plus (some x) y = add_checked x y

module _ (u : AvxUnit) where
  open u use {Vec, lane, set1, setzero, loadu, unpacklo, unpackhi, cmpeq, cmpgt, xor, and, add}

  -- Not greater than the limit for a buy, not less for a sell: the complement of `cmpgt`.
  abbrev pub avx_mask : Side → Vec → Vec → Vec
  avx_mask buy prices limit_vec = xor (cmpgt prices limit_vec) (cmpeq prices prices)
  avx_mask sell prices limit_vec = xor (cmpgt limit_vec prices) (cmpeq prices prices)

  -- `sum_lanes[0] + sum_lanes[1] + sum_lanes[2] + sum_lanes[3]`, from the left.
  abbrev pub lane_sum : Vec → Option ℤ
  lane_sum v = plus (plus (add_checked (lane v 0) (lane v 1)) (lane v 2)) (lane v 3)

  -- After the vector loop: the lanes are added, and the scalar loop takes what is left.
  unfoldable pub avx2_finish : Side → Price → Vec → Vec → List PriceLevel → Option ScanResult
  avx2_finish side limit_price sum_vec count_vec rest = elim (lane_sum sum_vec) [
    | none ↦ none
    | some total ↦ elim (lane_sum count_vec) [
      | none ↦ none
      | some count ↦ scan_from side limit_price total (bits count) rest
    ]
  ]

  abbrev pub prices_of : (w x y z : PriceLevel) → Vec
  prices_of w x y z = unpacklo (loadu w x) (loadu y z)

  abbrev pub quantities_of : (w x y z : PriceLevel) → Vec
  quantities_of w x y z = unpackhi (loadu w x) (loadu y z)

  -- The vector loop, four levels to a round.
  unfoldable pub avx2_loop : Side → Price → Vec → Vec → List PriceLevel → Option ScanResult
  unfolding avx2_finish
  avx2_loop side limit_price sum_vec count_vec (w ∷ x ∷ y ∷ z ∷ ls) =
      let mask = avx_mask side (prices_of w x y z) (set1 limit_price) in
      avx2_loop side limit_price (add sum_vec (and mask (quantities_of w x y z)))
        (add count_vec (and mask (set1 (pos 1)))) ls
  avx2_loop side limit_price sum_vec count_vec rest =
      avx2_finish side limit_price sum_vec count_vec rest

  unfoldable pub scan_quantity_at_or_better_avx2 :
      List PriceLevel → Price → Side → Option ScanResult
  unfolding avx2_loop
  scan_quantity_at_or_better_avx2 levels limit_price side =
      avx2_loop side limit_price setzero setzero levels

-- What the build is for: `__ARM_NEON`, `__AVX2__`, or neither.
pub data Target : Type 1 where
  arm_neon : NeonUnit → Target
  x86_avx2 : AvxUnit → Target
  portable : Target

unfoldable pub scan_quantity_at_or_better :
    Target → List PriceLevel → Price → Side → Option ScanResult
scan_quantity_at_or_better (arm_neon u) levels limit_price side =
    scan_quantity_at_or_better_neon u levels limit_price side
scan_quantity_at_or_better (x86_avx2 u) levels limit_price side =
    scan_quantity_at_or_better_avx2 u levels limit_price side
scan_quantity_at_or_better portable levels limit_price side =
    scan_quantity_at_or_better_scalar levels limit_price side
