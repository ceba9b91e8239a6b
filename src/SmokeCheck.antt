-- ===== src/SmokeCheck.antt =====
-- tools/avx2_smoke_check.cpp: the AVX2 scan and the dispatched scan against the scalar scan on a list
-- of cases, on a build for AVX2. Printing is left out; `none` is a scan whose addition overflows.
pub mod Passes
pub mod Exact
use lowlatency_exec_core.Common.{
  ℕ, zero, suc, ◌+◌, ◌==◌, ◌&&◌, Bool, true, false, Option, none, some, List, [], ◌∷◌, ◌++◌,
  if◌then◌else◌,
}
use lowlatency_exec_core.Common.Int.{pos, negsuc, leb_ℤ}
use lowlatency_exec_core.Types.{Side, buy, sell, Price, Quantity}
use lowlatency_exec_core.PriceScan.{PriceLevel, ScanResult, scan_quantity_at_or_better_scalar}
use lowlatency_exec_core.PriceScan.Avx.{
  AvxUnit, x86_avx2, scan_quantity_at_or_better_avx2, scan_quantity_at_or_better,
}

-- `ScanResult::operator==`
abbrev pub same_result : ScanResult → ScanResult → Bool
same_result a b =
    (leb_ℤ a.total_quantity b.total_quantity && leb_ℤ b.total_quantity a.total_quantity)
    && a.count == b.count

-- `g_all_ok` after one case.
abbrev pub all_ok_after : Bool → (scalar avx2 dispatch : ScanResult) → Bool
all_ok_after all_ok scalar avx2 dispatch =
    if same_result scalar avx2 && same_result scalar dispatch then all_ok else false

unfoldable pub check : AvxUnit → List PriceLevel → Price → Side → Bool → Option Bool
check u levels limit side all_ok = elim (scan_quantity_at_or_better_scalar levels limit side) [
  | none ↦ none
  | some scalar ↦ elim (scan_quantity_at_or_better_avx2 u levels limit side) [
    | none ↦ none
    | some avx2 ↦ elim (scan_quantity_at_or_better (x86_avx2 u) levels limit side) [
      | none ↦ none
      | some dispatch ↦ some (all_ok_after all_ok scalar avx2 dispatch)
    ]
  ]
]

pub record Case : Type 0 where
  pub levels : List PriceLevel
  pub limit : Price
  pub side : Side

abbrev level : Price → ℕ → PriceLevel
level price quantity = record { price = price; quantity = pos quantity }

abbrev case_of : List PriceLevel → Price → Side → Case
case_of levels limit side = record { levels = levels; limit = limit; side = side }

-- `{100 + i, 10 + i}` for each i from `i` on.
abbrev asks_from : (i count : ℕ) → List PriceLevel
asks_from i zero = []
asks_from i (suc count) = level (pos (100 + i)) (10 + i) ∷ asks_from (i + 1) count

abbrev to_forty : List PriceLevel
to_forty = level (pos 10) 1 ∷ level (pos 20) 2 ∷ level (pos 30) 3 ∷ level (pos 40) 4 ∷ []

-- The cases of `main`, in order.
abbrev pub cases : List Case
cases =
    case_of [] (pos 100) buy
    ∷ case_of (level (pos 100) 5 ∷ []) (pos 100) buy
    ∷ case_of (level (pos 100) 5 ∷ []) (pos 100) sell
    ∷ case_of (level (pos 150) 5 ∷ []) (pos 100) buy
    ∷ case_of (level (pos 50) 5 ∷ []) (pos 100) sell
    ∷ case_of (level (pos 90) 1 ∷ level (pos 95) 2 ∷ level (pos 200) 3 ∷ []) (pos 100) buy
    ∷ case_of to_forty (pos 1000) buy
    ∷ case_of to_forty (pos 1000) sell
    ∷ case_of (asks_from 0 16) (pos 105) buy
    ∷ case_of (asks_from 0 16) (pos 50) buy
    ∷ case_of (asks_from 0 16) (pos 999) buy
    ∷ case_of (level (negsuc 49) 1 ∷ level (negsuc 9) 2 ∷ level (pos 0) 3 ∷ level (pos 10) 4 ∷ [])
        (negsuc 9) buy
    ∷ []

unfoldable pub run_checks : AvxUnit → List Case → Bool → Option Bool
unfolding check
run_checks u [] all_ok = some all_ok
run_checks u (c ∷ cs) all_ok = elim (check u c.levels c.limit c.side all_ok) [
  | none ↦ none
  | some all_ok' ↦ run_checks u cs all_ok'
]

-- The exit status of `main`.
unfoldable pub smoke_check : AvxUnit → Option ℕ
unfolding run_checks
smoke_check u = elim (run_checks u cases true) [
  | none ↦ none
  | some all_ok ↦ some (if all_ok then 0 else 1)
]
