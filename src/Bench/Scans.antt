-- ===== src/Bench/Scans.antt =====
-- The fifth workload of src/bench_main.cpp: the same scan over and over.
use lowlatency_exec_core.Common.{
  ℕ, zero, suc, ◌+◌, ◌*◌, ◌/◌, ◌<◌, ◌≤◌, ◌^◌, ◌≡◌, ◌∙◌, refl, ap, arith, some, length, All, ◌⊎◌,
  inl, inr, Bool-cases, false, suc,
}
use lowlatency_exec_core.Common.Int.{pos, leb_ℤ, neg_part}
use lowlatency_exec_core.Types.{buy}
use lowlatency_exec_core.Latency.{Doubles}
use lowlatency_exec_core.Latency.Loop.{measured_rule}
use lowlatency_exec_core.PriceScan.{PriceLevel, ScanResult, scan_result}
use lowlatency_exec_core.PriceScan.Exact.{
  hit_lots, hit_count, hit_lots-lots_at_or_better, Fits, scan_quantity_at_or_better_scalar-hit_lots,
}
use lowlatency_exec_core.PriceScan.Avx.{Target, scan_quantity_at_or_better}
use lowlatency_exec_core.PriceScan.Dispatch.{scan_quantity_at_or_better-scalar}
use lowlatency_exec_core.Bench.{levels_from, limit_of, scan_once, scan_now, bench_price_scan}

length-levels_from : (i n : ℕ) → length (levels_from i n) ≡ n
unfolding levels_from
length-levels_from i zero = refl
length-levels_from i (suc n) = ap suc (length-levels_from (i + 1) n)

levels_from_nonneg : (i n : ℕ) → All (λ (l : PriceLevel). neg_part l.quantity ≡ 0) (levels_from i n)
unfolding levels_from
levels_from_nonneg i zero = tt
levels_from_nonneg i (suc n) = (refl, levels_from_nonneg (i + 1) n)

-- No level above the limit counts.
hit_lots-past : (h i n : ℕ) → h < i → hit_lots buy (pos (100 + h)) (levels_from i n) ≡ 0
unfolding levels_from
hit_lots-past h i zero past = refl
hit_lots-past h i (suc n) past =
    let above : leb_ℤ (pos (100 + i)) (pos (100 + h)) ≡ false = ground (arith, past) in
    let rest = hit_lots-past h (i + 1) n (omega (arith, past)) in rw above (omega (arith, rest))

hit_lots-levels_from :
    (h i n : ℕ)
    → i ≤ h + 1
    → h + 1 ≤ i + n
    → hit_lots buy (pos (100 + h)) (levels_from i n) + 10 * i ≡ 10 * (h + 1)
unfolding levels_from
hit_lots-levels_from h i zero low high = omega (arith, low, high)
hit_lots-levels_from h i (suc n) low high =
    elim (Bool-cases (leb_ℤ (pos (100 + i)) (pos (100 + h)))) [
      | inl within ↦
          let inside : i ≤ h = ground (arith, within) in
          let rest =
            hit_lots-levels_from h (i + 1) n (omega (arith, inside)) (omega (arith, high)) in
          rw within (omega (arith, rest))
      | inr above ↦
          let past : h < i = ground (arith, above) in
          let rest = hit_lots-past h (i + 1) n (omega (arith, past)) in
          rw above (omega (arith, rest, past, low))
    ]

module _ (target : Target) (depth : ℕ) (deep : 2 ≤ depth) (fits : 10 * depth < 2 ^ 63) where
  lots : hit_lots buy (limit_of depth) (levels_from 0 depth) ≡ 10 * (depth / 2 + 1)
  lots =
      let total = hit_lots-levels_from (depth / 2) 0 depth (omega arith) (omega (arith, deep)) in
      omega (arith, total)

  scanned :
      (r : ScanResult) × (scan_quantity_at_or_better target
          (levels_from 0 depth)
          (limit_of depth)
          buy
        ≡ some r)
      × (r.total_quantity ≡ pos (10 * (depth / 2 + 1)))
  scanned =
      let within : Fits buy (limit_of depth) (levels_from 0 depth) = record {
        no_negative = levels_from_nonneg 0 depth;
        lots =
            let same = hit_lots-lots_at_or_better buy (limit_of depth) (levels_from 0 depth) in
            omega (arith, same, lots, fits, deep);
        count = let n = length-levels_from 0 depth in omega (arith, n, fits);
      } in
      let (r, dispatched, scalar) =
        scan_quantity_at_or_better-scalar target (levels_from 0 depth) (limit_of depth) buy
          within in
      let exact =
        scan_quantity_at_or_better_scalar-hit_lots (levels_from 0 depth) (limit_of depth) buy
          within in
      (
        r,
        dispatched,
        (let same : r
                ≡ scan_result (pos (hit_lots buy (limit_of depth) (levels_from 0 depth)))
                    (hit_count buy (limit_of depth) (levels_from 0 depth)) =
              cc in
            ap (λ c. c.total_quantity) same ∙ ap pos lots),
      )

-- For at least one iteration, and a depth of at least 2 of which ten times is below 2 ^ 63, on
-- every target and whatever the clock reads: the last scan gives ten lots for each level up to the
-- middle one, that one included.
pub bench_price_scan-sink :
    (f : Doubles) (ticks : ℕ → ℕ) (target : Target) (depth warmup measured : ℕ)
    → 2 ≤ depth
    → 10 * depth < 2 ^ 63
    → 0 < warmup + measured
    → (bench_price_scan f ticks target depth warmup measured).1.sink
      ≡ some (pos (10 * (depth / 2 + 1)))
unfolding bench_price_scan scan_once
bench_price_scan-sink f ticks target depth warmup measured deep fits some_rounds =
    let (result, found, total) = scanned target depth deep fits in
    let r : (warmup + measured ≡ 0)
        ⊎ ((bench_price_scan f ticks target depth warmup measured).1.sink
            ≡ some (pos (10 * (depth / 2 + 1)))) =
      measured_rule (scan_once target depth) (scan_now ticks) f
        (λ k s. (k ≡ 0) ⊎ (s.sink ≡ some (pos (10 * (depth / 2 + 1))))) (warmup + measured)
        (λ k s less r. inr (rw (found, scan_once) (ap some total))) (λ k s r. r) warmup measured
        (record { sink = some (pos 0); reads = 0 }) (omega arith) (inl refl) in
    elim r [ inl none_yet ↦ absurd (omega (arith, none_yet, some_rounds)) | inr last ↦ last ]
