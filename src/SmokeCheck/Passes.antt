-- ===== src/SmokeCheck/Passes.antt =====
-- The smoke check of tools/avx2_smoke_check.cpp on every vector unit.
use lowlatency_exec_core.Common.{
  ◌≡◌, ◌∙◌, refl, ◌==◌, ◌&&◌, ◌^◌, Bool, true, some, List, [], ◌∷◌, All, length, ltb, ltb→lt, arith,
}
use lowlatency_exec_core.Common.Int.{◌-ℤ◌, neg_part}
use lowlatency_exec_core.PriceScan.{PriceLevel}
use lowlatency_exec_core.PriceScan.Exact.{Fits, lots_at_or_better}
use lowlatency_exec_core.PriceScan.Avx.{AvxUnit, x86_avx2}
use lowlatency_exec_core.PriceScan.Dispatch.{avx2-scalar, scan_quantity_at_or_better-scalar}
use lowlatency_exec_core.SmokeCheck.Exact.{IsAgreed, run_checks_exact}
use lowlatency_exec_core.SmokeCheck.{Case, cases, smoke_check}

Fits-IsAgreed : (u : AvxUnit) (c : Case) → Fits c.side c.limit c.levels → IsAgreed u c
Fits-IsAgreed u c fits =
    let (r, avx2, scalar) = avx2-scalar u c.levels c.limit c.side fits in
    let (q, dispatched, scalar') =
      scan_quantity_at_or_better-scalar (x86_avx2 u) c.levels c.limit c.side fits in
    let same : some q ≡ some r = cc in (r, scalar, avx2, dispatched ∙ same)

-- No quantity of the case is negative, and its sums and its length are small.
abbrev no_negative : List PriceLevel → Bool
no_negative [] = true
no_negative (l ∷ ls) = neg_part l.quantity == 0 && no_negative ls

abbrev small : Case → Bool
small c =
    no_negative c.levels
    && (ltb (lots_at_or_better c.side c.limit c.levels) (2 ^ 63) && ltb (length c.levels) (2 ^ 63))

abbrev all_small : List Case → Bool
all_small [] = true
all_small (c ∷ cs) = small c && all_small cs

no_negative-All :
    (ls : List PriceLevel)
    → no_negative ls ≡ true
    → All (λ (l : PriceLevel). neg_part l.quantity ≡ 0) ls
no_negative-All [] h = tt
no_negative-All (l ∷ ls) h = (ground (arith, h), no_negative-All ls (ground (arith, h)))

small-Fits : (c : Case) → small c ≡ true → Fits c.side c.limit c.levels
small-Fits c h = record {
  no_negative = no_negative-All c.levels (ground (arith, h));
  lots = ltb→lt (lots_at_or_better c.side c.limit c.levels) (2 ^ 63) (ground (arith, h));
  count = ltb→lt (length c.levels) (2 ^ 63) (ground (arith, h));
}

small-All : (u : AvxUnit) (cs : List Case) → all_small cs ≡ true → All (IsAgreed u) cs
small-All u [] h = tt
small-All u (c ∷ cs) h =
    (Fits-IsAgreed u c (small-Fits c (ground (arith, h))), small-All u cs (ground (arith, h)))

-- On every AVX2 unit with the documented lanes, the smoke check's program finds the scalar, the
-- AVX2 and the dispatched scan equal in each of its cases, with no overflow, and its exit status is
-- 0.
pub smoke_check_passes : (u : AvxUnit) → smoke_check u ≡ some 0
unfolding smoke_check ◌-ℤ◌
smoke_check_passes u =
    rw ((run_checks_exact u cases true).1 (refl, small-All u cases refl), smoke_check) refl
