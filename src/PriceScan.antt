-- ===== src/PriceScan.antt =====
-- include/exec_core/price_scan.hpp and src/price_scan.cpp: how many lots rest at or better than a
-- limit price, by a scalar loop and by vectors. An addition of C++ on `std::int64_t` that overflows
-- is undefined: the scan is then `none`. The additions of the vector units wrap.
pub mod Exact
pub mod Neon
pub mod Avx
pub mod AvxExact
pub mod Dispatch
mod Tests
mod AvxTests
use lowlatency_exec_core.Common.{
  ℕ, ◌+◌, Bool, true, false, Option, none, some, List, [], ◌∷◌, if◌then◌else◌, ◌≡◌,
}
use lowlatency_exec_core.Common.Int.{ℤ, pos, negsuc, wrap64, add_checked, leb_ℤ, bits, ◌+ℤ◌}
use lowlatency_exec_core.Words.{inc64}
use lowlatency_exec_core.Types.{Side, buy, sell, Price, Quantity}

pub record PriceLevel : Type 0 where
  pub price : Price
  pub quantity : Quantity

pub record ScanResult : Type 0 where
  pub total_quantity : Quantity
  pub count : ℕ

abbrev pub scan_result : Quantity → ℕ → ScanResult
scan_result total count = record { total_quantity = total; count = count }

-- The test of the loops: `price <= limit_price` for a buy, `price >= limit_price` for a sell.
abbrev pub hit : Side → Price → PriceLevel → Bool
hit buy limit_price l = leb_ℤ l.price limit_price
hit sell limit_price l = leb_ℤ limit_price l.price

-- The loop of the scalar scan, which is the tail loop of the vector scans too.
unfoldable pub scan_from : Side → Price → Quantity → ℕ → List PriceLevel → Option ScanResult
scan_from side limit_price total count [] = some (scan_result total count)
scan_from side limit_price total count (l ∷ ls) =
    let sum = if hit side limit_price l then add_checked total l.quantity else some total in
    elim sum [
      | none ↦ none
      | some total' ↦
          scan_from side limit_price total' (if hit side limit_price l then inc64 count else count)
            ls
    ]

unfoldable pub scan_quantity_at_or_better_scalar :
    List PriceLevel → Price → Side → Option ScanResult
unfolding scan_from
scan_quantity_at_or_better_scalar levels limit_price side =
    scan_from side limit_price (pos 0) 0 levels

-- The intrinsics of arm_neon.h that the scan uses, on vectors of two 64-bit lanes, with what Arm's
-- reference says of each lane. `lane` is `vgetq_lane_s64`; a load of two structs deinterleaves them.
pub record NeonUnit : Type 1 where
  pub Vec : Type 0
  pub lane : Vec → ℕ → ℤ
  pub vdupq : ℤ → Vec
  pub vaddq : Vec → Vec → Vec
  pub vandq : Vec → Vec → Vec
  pub vcleq : Vec → Vec → Vec
  pub vcgeq : Vec → Vec → Vec
  pub vld2q : PriceLevel → PriceLevel → Vec × Vec
  pub lane-vdupq : (x : ℤ) (i : ℕ) → lane (vdupq x) i ≡ x
  pub lane-vaddq : (a b : Vec) (i : ℕ) → lane (vaddq a b) i ≡ wrap64 (lane a i +ℤ lane b i)
  pub vandq_ones : (m a : Vec) (i : ℕ) → lane m i ≡ negsuc 0 → lane (vandq m a) i ≡ lane a i
  pub vandq_zeros : (m a : Vec) (i : ℕ) → lane m i ≡ pos 0 → lane (vandq m a) i ≡ pos 0
  pub lane-vcleq :
      (a b : Vec) (i : ℕ)
      → lane (vcleq a b) i ≡ (if leb_ℤ (lane a i) (lane b i) then negsuc 0 else pos 0)
  pub lane-vcgeq :
      (a b : Vec) (i : ℕ)
      → lane (vcgeq a b) i ≡ (if leb_ℤ (lane b i) (lane a i) then negsuc 0 else pos 0)
  pub vld2q_prices :
      (x y : PriceLevel) → (lane (vld2q x y).0 0 ≡ x.price) × (lane (vld2q x y).0 1 ≡ y.price)
  pub vld2q_quantities :
      (x y : PriceLevel) → (lane (vld2q x y).1 0 ≡ x.quantity) × (lane (vld2q x y).1 1 ≡ y.quantity)

module _ (u : NeonUnit) where
  open u use {Vec, lane, vdupq, vaddq, vandq, vcleq, vcgeq, vld2q}

  abbrev pub neon_mask : Side → Vec → Vec → Vec
  neon_mask buy prices limit_vec = vcleq prices limit_vec
  neon_mask sell prices limit_vec = vcgeq prices limit_vec

  -- After the vector loop: the lanes are added, and the scalar loop takes what is left.
  unfoldable pub neon_finish : Side → Price → Vec → Vec → List PriceLevel → Option ScanResult
  neon_finish side limit_price sum_vec count_vec rest =
      elim (add_checked (lane sum_vec 0) (lane sum_vec 1)) [
        | none ↦ none
        | some total ↦ elim (add_checked (lane count_vec 0) (lane count_vec 1)) [
          | none ↦ none
          | some count ↦ scan_from side limit_price total (bits count) rest
        ]
      ]

  -- The vector loop, two levels to a round.
  unfoldable pub neon_loop : Side → Price → Vec → Vec → List PriceLevel → Option ScanResult
  unfolding neon_finish
  neon_loop side limit_price sum_vec count_vec (x ∷ y ∷ ls) =
      let mask = neon_mask side (vld2q x y).0 (vdupq limit_price) in
      neon_loop side limit_price (vaddq sum_vec (vandq mask (vld2q x y).1))
        (vaddq count_vec (vandq mask (vdupq (pos 1)))) ls
  neon_loop side limit_price sum_vec count_vec rest =
      neon_finish side limit_price sum_vec count_vec rest

  unfoldable pub scan_quantity_at_or_better_neon :
      List PriceLevel → Price → Side → Option ScanResult
  unfolding neon_loop
  scan_quantity_at_or_better_neon levels limit_price side =
      neon_loop side limit_price (vdupq (pos 0)) (vdupq (pos 0)) levels
