-- ===== src/PriceScan/AvxTests.antt =====
-- The theorems of the AVX2 scan at concrete levels, with the vector unit instantiated by quadruples.
use lowlatency_exec_core.SmokeCheck.{run_checks, cases}
use lowlatency_exec_core.SmokeCheck.Exact.{IsAgreed, run_checks_exact}
use lowlatency_exec_core.Common.{
  ℕ, zero, suc, ◌≡◌, [], ◌∷◌, arith, refl, List, some, if◌then◌else◌, Bool, ◌&&◌, ◌∙◌, ◌↔◌, true,
  All,
}
use lowlatency_exec_core.Common.Int.{ℤ, pos, negsuc, wrap64, leb_ℤ, ltb_ℤ, ◌+ℤ◌, ◌-ℤ◌}
use lowlatency_exec_core.Types.{buy}
use lowlatency_exec_core.PriceScan.{PriceLevel, ScanResult, scan_quantity_at_or_better_scalar}
use lowlatency_exec_core.PriceScan.Exact.{Fits}
use lowlatency_exec_core.PriceScan.Avx.{
  AvxUnit, x86_avx2, scan_quantity_at_or_better, scan_quantity_at_or_better_avx2,
}
use lowlatency_exec_core.PriceScan.Dispatch.{avx2-scalar, scan_quantity_at_or_better-scalar}

abbrev Quad : Type 0
Quad = ℤ × ℤ × ℤ × ℤ

abbrev at_lane : Quad → ℕ → ℤ
at_lane v zero = v.0
at_lane v (suc zero) = v.1
at_lane v (suc (suc zero)) = v.2
at_lane v (suc (suc (suc i))) = v.3

abbrev lanes : (ℤ → ℤ → ℤ) → Quad → Quad → Quad
lanes f a b = (f a.0 b.0, f a.1 b.1, f a.2 b.2, f a.3 b.3)

at_lanes :
    (f : ℤ → ℤ → ℤ) (a b : Quad) (i : ℕ) → at_lane (lanes f a b) i ≡ f (at_lane a i) (at_lane b i)
at_lanes f a b zero = refl
at_lanes f a b (suc zero) = refl
at_lanes f a b (suc (suc zero)) = refl
at_lanes f a b (suc (suc (suc i))) = refl

abbrev four : ℤ → Quad
four x = (x, x, x, x)

at_four : (x : ℤ) (i : ℕ) → at_lane (four x) i ≡ x
at_four x zero = refl
at_four x (suc zero) = refl
at_four x (suc (suc zero)) = refl
at_four x (suc (suc (suc i))) = refl

-- Bitwise and, and exclusive or, of masks of all ones or of none.
abbrev masked : ℤ → ℤ → ℤ
masked (negsuc n) a = a
masked (pos n) a = pos 0

abbrev differ : ℤ → ℤ → ℤ
differ (negsuc n) (negsuc m) = pos 0
differ (negsuc n) (pos m) = negsuc 0
differ (pos n) (negsuc m) = negsuc 0
differ (pos n) (pos m) = pos 0

abbrev ones_if : Bool → ℤ
ones_if t = if t then negsuc 0 else pos 0

equal_self : (x : ℤ) → ones_if (leb_ℤ x x && leb_ℤ x x) ≡ negsuc 0
equal_self x = ground arith

abbrev quads : AvxUnit
quads = record {
  Vec = Quad;
  lane = at_lane;
  set1 = four;
  setzero = four (pos 0);
  loadu = λ x y. (x.price, x.quantity, y.price, y.quantity);
  unpacklo = λ a b. (a.0, b.0, a.2, b.2);
  unpackhi = λ a b. (a.1, b.1, a.3, b.3);
  cmpeq = lanes (λ a b. ones_if (leb_ℤ a b && leb_ℤ b a));
  cmpgt = lanes (λ a b. ones_if (ltb_ℤ b a));
  xor = lanes differ;
  and = lanes masked;
  add = lanes (λ a b. wrap64 (a +ℤ b));
  lane-set1 = at_four;
  lane-setzero = at_four (pos 0);
  loadu_lanes = λ x y. (refl, refl, refl, refl);
  unpacklo_lanes = λ a b. (refl, refl, refl, refl);
  unpackhi_lanes = λ a b. (refl, refl, refl, refl);
  cmpeq_self =
      λ a i. at_lanes (λ x y. ones_if (leb_ℤ x y && leb_ℤ y x)) a a i ∙ equal_self (at_lane a i);
  lane-cmpgt = at_lanes (λ a b. ones_if (ltb_ℤ b a));
  xor_ones = λ a b i h k. rw (at_lanes differ a b i, h, k) refl;
  xor_zeros = λ a b i h k. rw (at_lanes differ a b i, h, k) refl;
  and_ones = λ m a i h. rw (at_lanes masked m a i, h) refl;
  and_zeros = λ m a i h. rw (at_lanes masked m a i, h) refl;
  lane-add = at_lanes (λ a b. wrap64 (a +ℤ b));
}

abbrev lots : ℕ → ℕ → PriceLevel
lots price quantity = record { price = pos price; quantity = pos quantity }

abbrev ladder : List PriceLevel
ladder = lots 100 5 ∷ lots 101 7 ∷ lots 103 2 ∷ lots 104 1 ∷ lots 99 3 ∷ []

ladder-Fits : Fits buy (pos 101) ladder
unfolding ◌-ℤ◌
ladder-Fits = record {
  no_negative = (refl, (refl, (refl, (refl, (refl, tt)))));
  lots = omega arith;
  count = omega arith;
}

avx2-scalar_example :
    (r : ScanResult) × (scan_quantity_at_or_better_avx2 quads ladder (pos 101) buy ≡ some r)
    × (scan_quantity_at_or_better_scalar ladder (pos 101) buy ≡ some r)
avx2-scalar_example = avx2-scalar quads ladder (pos 101) buy ladder-Fits

scan_quantity_at_or_better-scalar_example :
    (r : ScanResult) × (scan_quantity_at_or_better (x86_avx2 quads) ladder (pos 101) buy ≡ some r)
    × (scan_quantity_at_or_better_scalar ladder (pos 101) buy ≡ some r)
scan_quantity_at_or_better-scalar_example =
    scan_quantity_at_or_better-scalar (x86_avx2 quads) ladder (pos 101) buy ladder-Fits

run_checks_exact_example :
    (run_checks quads cases true ≡ some true) ↔ ((true ≡ true) × All (IsAgreed quads) cases)
run_checks_exact_example = run_checks_exact quads cases true
