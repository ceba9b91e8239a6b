-- ===== src/PriceScan/Tests.antt =====
-- The theorems of the scans at concrete levels, with the vector unit instantiated by pairs.
use lowlatency_exec_core.Common.{
  ℕ, zero, suc, ◌≡◌, [], ◌∷◌, arith, refl, List, some, if◌then◌else◌, Bool,
}
use lowlatency_exec_core.Common.Int.{ℤ, pos, negsuc, wrap64, leb_ℤ, ◌+ℤ◌, ◌-ℤ◌}
use lowlatency_exec_core.Types.{buy}
use lowlatency_exec_core.PriceScan.{
  PriceLevel, ScanResult, scan_result, NeonUnit, scan_quantity_at_or_better_scalar,
  scan_quantity_at_or_better_neon,
}
use lowlatency_exec_core.PriceScan.Exact.{Fits, lots_at_or_better, levels_at_or_better, scalar-hits}
use lowlatency_exec_core.PriceScan.Neon.{neon-scalar}

abbrev at_lane : ℤ × ℤ → ℕ → ℤ
at_lane v zero = v.0
at_lane v (suc i) = v.1

abbrev lanes : (ℤ → ℤ → ℤ) → ℤ × ℤ → ℤ × ℤ → ℤ × ℤ
lanes f a b = (f a.0 b.0, f a.1 b.1)

-- Bitwise and with a mask: of all ones, or of none.
abbrev masked : ℤ → ℤ → ℤ
masked (negsuc n) a = a
masked (pos n) a = pos 0

abbrev ones_if : Bool → ℤ
ones_if t = if t then negsuc 0 else pos 0

at_lanes :
    (f : ℤ → ℤ → ℤ) (a b : ℤ × ℤ) (i : ℕ) → at_lane (lanes f a b) i ≡ f (at_lane a i) (at_lane b i)
at_lanes f a b zero = refl
at_lanes f a b (suc i) = refl

at_both : (x : ℤ) (i : ℕ) → at_lane (x, x) i ≡ x
at_both x zero = refl
at_both x (suc i) = refl

abbrev pairs : NeonUnit
pairs = record {
  Vec = ℤ × ℤ;
  lane = at_lane;
  vdupq = λ x. (x, x);
  vaddq = lanes (λ a b. wrap64 (a +ℤ b));
  vandq = lanes masked;
  vcleq = lanes (λ a b. ones_if (leb_ℤ a b));
  vcgeq = lanes (λ a b. ones_if (leb_ℤ b a));
  vld2q = λ x y. ((x.price, y.price), (x.quantity, y.quantity));
  lane-vdupq = at_both;
  lane-vaddq = at_lanes (λ a b. wrap64 (a +ℤ b));
  vandq_ones = λ m a i h. rw (at_lanes masked m a i, h) refl;
  vandq_zeros = λ m a i h. rw (at_lanes masked m a i, h) refl;
  lane-vcleq = at_lanes (λ a b. ones_if (leb_ℤ a b));
  lane-vcgeq = at_lanes (λ a b. ones_if (leb_ℤ b a));
  vld2q_prices = λ x y. (refl, refl);
  vld2q_quantities = λ x y. (refl, refl);
}

abbrev lots : ℕ → ℕ → PriceLevel
lots price quantity = record { price = pos price; quantity = pos quantity }

abbrev ladder : List PriceLevel
ladder = lots 100 5 ∷ lots 101 7 ∷ lots 103 2 ∷ []

ladder-Fits : Fits buy (pos 101) ladder
unfolding ◌-ℤ◌
ladder-Fits = record {
  no_negative = (refl, (refl, (refl, tt)));
  lots = omega arith;
  count = omega arith;
}

scalar-hits_example :
    scan_quantity_at_or_better_scalar ladder (pos 101) buy
    ≡ some (
        scan_result
          (pos (lots_at_or_better buy (pos 101) ladder))
          (levels_at_or_better buy (pos 101) ladder))
scalar-hits_example = scalar-hits ladder (pos 101) buy ladder-Fits

neon-scalar_example :
    (r : ScanResult) × (scan_quantity_at_or_better_neon pairs ladder (pos 101) buy ≡ some r)
    × (scan_quantity_at_or_better_scalar ladder (pos 101) buy ≡ some r)
neon-scalar_example = neon-scalar pairs ladder (pos 101) buy ladder-Fits
