-- ===== src/Latency/Loop.antt =====
-- The timed loop of `measure_latency_ns`.
use lowlatency_exec_core.Latency.Sort.{length-sort}
use lowlatency_exec_core.Common.{
  ap, ℕ, zero, ◌+◌, suc, refl, length, ◌≡◌, arith, List, ◌∷◌, [], ◌∙◌, ◌≤◌, subst, ◌<◌,
}
use lowlatency_exec_core.Latency.{
  measure_latency_ns, Doubles, timed_loop, warm_up, timed, compute_latency_stats, stats_of_sorted,
}

module _ {S : Type 0} (workload : S → S) (now : S → ℕ × S) where
  length-timed_loop : (f : Doubles) (n : ℕ) (s : S) → length (timed_loop f workload now n s).0 ≡ n
  unfolding timed_loop
  length-timed_loop f zero s = refl
  length-timed_loop f (suc n) s = ap suc (length-timed_loop f n _)

  count-length : (f : Doubles) (xs : List ℕ) → (compute_latency_stats f xs).count ≡ length xs
  unfolding compute_latency_stats
  count-length f [] = refl
  count-length f (x ∷ xs) = unfold stats_of_sorted in length-sort (x ∷ xs)

  module _ (f : Doubles) (calls : S → ℕ) (runs : (s : S) → calls (workload s) ≡ calls s + 1) where
    calls-warm_up : (n : ℕ) (s : S) → calls (warm_up f workload now n s) ≡ calls s + n
    unfolding warm_up
    calls-warm_up zero s = omega arith
    calls-warm_up (suc n) s = omega (arith, calls-warm_up n (workload s), runs s)

    module _ (reads : (s : S) → calls (now s).1 ≡ calls s) where
      calls-timed : (s : S) → calls (timed f workload now s).1 ≡ calls s + 1
      unfolding timed
      calls-timed s = omega (arith, reads s, runs (now s).1, reads (workload (now s).1))

      calls-timed_loop : (n : ℕ) (s : S) → calls (timed_loop f workload now n s).1 ≡ calls s + n
      unfolding timed_loop
      calls-timed_loop zero s = omega arith
      calls-timed_loop (suc n) s =
          omega (arith, calls-timed s, calls-timed_loop n (timed f workload now s).1)

  -- What each of `total` runs of the workload takes from a count to the next, and each reading of
  -- the clock keeps, holds of the count of the iterations after measure_latency_ns.
  module _ {κ} (f : Doubles) (P : ℕ → S → Type κ) (total : ℕ)
      (runs : (k : ℕ) (s : S) → k < total → P k s → P (k + 1) (workload s))
      (reads : (k : ℕ) (s : S) → P k s → P k (now s).1) where
    warm_up_rule :
        (n k : ℕ) (s : S) → k + n ≤ total → P k s → P (k + n) (warm_up f workload now n s)
    unfolding warm_up
    warm_up_rule zero k s h p = let e : k ≡ k + 0 = omega arith in subst (λ j. P j s) e p
    warm_up_rule (suc n) k s h p =
        let e : k + 1 + n ≡ k + suc n = omega arith in
        subst (λ j. P j (warm_up f workload now n (workload s))) e
          (warm_up_rule n (k + 1) (workload s) (omega (arith, h)) (runs k s (omega (arith, h)) p))

    timed_loop_rule :
        (n k : ℕ) (s : S) → k + n ≤ total → P k s → P (k + n) (timed_loop f workload now n s).1
    unfolding timed_loop timed
    timed_loop_rule zero k s h p = let e : k ≡ k + 0 = omega arith in subst (λ j. P j s) e p
    timed_loop_rule (suc n) k s h p =
        let e : k + 1 + n ≡ k + suc n = omega arith in
        subst (λ j. P j (timed_loop f workload now n (timed f workload now s).1).1) e
          (timed_loop_rule n (k + 1) (timed f workload now s).1 (omega (arith, h)) (
            reads (k + 1) (workload (now s).1) (runs k (now s).1 (omega (arith, h)) (reads k s p))))

    pub measured_rule :
        (w m : ℕ) (s : S)
        → w + m ≤ total
        → P 0 s
        → P (w + m) (measure_latency_ns f workload now w m s).1
    unfolding measure_latency_ns
    measured_rule w m s h p =
        let e : 0 + w ≡ w = omega arith in
        timed_loop_rule m w (warm_up f workload now w s) h (
          subst (λ j. P j (warm_up f workload now w s)) e (warm_up_rule w 0 s (omega (arith, h)) p))

  -- Where each run of the workload adds one to a count and the clock leaves that count alone,
  -- measure_latency_ns summarises one sample for each measured iteration, and runs the workload
  -- once for each iteration, warm-up and measured.
  pub measure_latency_ns-counts :
      (f : Doubles) (calls : S → ℕ)
      → ((s : S) → calls (workload s) ≡ calls s + 1)
      → ((s : S) → calls (now s).1 ≡ calls s)
      → (warmup_iters measured_iters : ℕ) (s : S)
      → ((measure_latency_ns f workload now warmup_iters measured_iters s).0.count ≡ measured_iters)
        × (calls (measure_latency_ns f workload now warmup_iters measured_iters s).1
            ≡ calls s + warmup_iters + measured_iters)
  unfolding measure_latency_ns
  measure_latency_ns-counts f calls runs reads w m s = (
    count-length f _ ∙ length-timed_loop f m _,
    omega (
      arith,
      calls-timed_loop f calls runs reads m (warm_up f workload now w s),
      calls-warm_up f calls runs w s,
    ),
  )
