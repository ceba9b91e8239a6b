-- ===== src/SmokeCheck/Exact.antt =====
-- What the result of tools/avx2_smoke_check.cpp says of its cases.
use lowlatency_exec_core.Common.{
  ◌≡◌, ◌↔◌, refl, Bool, true, some, none, List, [], ◌∷◌, All, arith, Option-cases, inl, inr, ◌∙◌,
  sym, ap, ap₂,
}
use lowlatency_exec_core.Common.Int.{ℤ, leb_ℤ, eq_of_parts}
use lowlatency_exec_core.PriceScan.{ScanResult, scan_result, scan_quantity_at_or_better_scalar}
use lowlatency_exec_core.PriceScan.Avx.{
  AvxUnit, x86_avx2, scan_quantity_at_or_better_avx2, scan_quantity_at_or_better,
}
use lowlatency_exec_core.SmokeCheck.{Case, same_result, all_ok_after, check, run_checks}

-- The three scans of a case end without an overflow, and with one result.
abbrev pub IsAgreed : AvxUnit → Case → Type 0
IsAgreed u c =
    (r : ScanResult) × (scan_quantity_at_or_better_scalar c.levels c.limit c.side ≡ some r)
    × (scan_quantity_at_or_better_avx2 u c.levels c.limit c.side ≡ some r)
    × (scan_quantity_at_or_better (x86_avx2 u) c.levels c.limit c.side ≡ some r)

same_value : {a b : Bool} → some a ≡ some b → a ≡ b
same_value h = cc

no_result : {a : Bool} → none ≡ some a → ⊥
no_result h = cc

same_ℤ : (a b : ℤ) → leb_ℤ a b ≡ true → leb_ℤ b a ≡ true → a ≡ b
same_ℤ a b h k = eq_of_parts a b (ground (arith, h, k))

same_result-eq : (a b : ScanResult) → same_result a b ≡ true → a ≡ b
same_result-eq a b h =
    let total = same_ℤ a.total_quantity b.total_quantity (ground (arith, h)) (ground (arith, h)) in
    let count : a.count ≡ b.count = ground (arith, h) in ap₂ scan_result total count

same_result_refl : (r : ScanResult) → same_result r r ≡ true
same_result_refl r = ground arith

all_ok_after_exact :
    (all_ok : Bool) (scalar avx2 dispatch : ScanResult)
    → (all_ok_after all_ok scalar avx2 dispatch ≡ true)
      ↔ ((all_ok ≡ true) × (scalar ≡ avx2) × (scalar ≡ dispatch))
all_ok_after_exact all_ok scalar avx2 dispatch = (
  λ h. (
    ground (arith, h),
    same_result-eq scalar avx2 (ground (arith, h)),
    same_result-eq scalar dispatch (ground (arith, h)),
  ),
  λ h. let (kept, one, two) = h in rw (sym one, sym two, same_result_refl scalar, kept) refl,
)

module _ (u : AvxUnit) where
  agreed :
      (c : Case) (all_ok : Bool)
      → check u c.levels c.limit c.side all_ok ≡ some true
      → (all_ok ≡ true) × IsAgreed u c
  unfolding check
  agreed c all_ok h =
      elim (Option-cases (scan_quantity_at_or_better_scalar c.levels c.limit c.side)) [
        | inl e ↦ absurd (no_result (rw (e, check) at h))
        | inr (scalar, e) ↦
            let h = rw (e, check) at h in
            elim (Option-cases (scan_quantity_at_or_better_avx2 u c.levels c.limit c.side)) [
              | inl e' ↦ absurd (no_result (rw (e', check) at h))
              | inr (avx2, e') ↦
                  let h = rw (e', check) at h in
                  elim (Option-cases
                    (scan_quantity_at_or_better (x86_avx2 u) c.levels c.limit c.side)) [
                      | inl e'' ↦ absurd (no_result (rw (e'', check) at h))
                      | inr (dispatch, e'') ↦
                          let out : some (all_ok_after all_ok scalar avx2 dispatch) ≡ some true =
                            rw (e'', check) at h in
                          let (kept, one, two) =
                            (all_ok_after_exact all_ok scalar avx2 dispatch).0 (same_value out) in
                          (kept, (scalar, e, e' ∙ ap some (sym one), e'' ∙ ap some (sym two)))
                    ]
            ]
      ]

  agreed_check :
      (c : Case) (all_ok : Bool)
      → IsAgreed u c
      → check u c.levels c.limit c.side all_ok ≡ some all_ok
  unfolding check
  agreed_check c all_ok (r, scalar, avx2, dispatch) =
      rw (scalar, check) (rw (avx2, check) (rw (dispatch, same_result_refl r) refl))

  -- For every AVX2 unit with the documented lanes and every list of cases: the checks of the list,
  -- begun with g_all_ok true or false, end without an overflow and with it true exactly where it
  -- began as true and, in each case, the scalar, the AVX2 and the dispatched scan end without an
  -- overflow and with one result.
  pub run_checks_exact :
      (cs : List Case) (all_ok : Bool)
      → (run_checks u cs all_ok ≡ some true) ↔ ((all_ok ≡ true) × All (IsAgreed u) cs)
  unfolding run_checks
  run_checks_exact [] all_ok =
      (λ h. let out : some all_ok ≡ some true = h in (same_value out, tt), λ h. ap some h.0)
  run_checks_exact (c ∷ cs) all_ok = (
    λ h. elim (Option-cases (check u c.levels c.limit c.side all_ok)) [
      | inl e ↦ absurd (no_result (rw (e, run_checks) at h))
      | inr (all_ok', e) ↦
          let rest : run_checks u cs all_ok' ≡ some true = rw (e, run_checks) at h in
          let (kept, all) = (run_checks_exact cs all_ok').0 rest in
          let (began, one) = agreed c all_ok (e ∙ ap some kept) in (began, (one, all))
    ],
    λ h.
        let (began, (one, all)) = h in
        rw (agreed_check c all_ok one, run_checks) ((run_checks_exact cs all_ok).1 (began, all)),
  )
