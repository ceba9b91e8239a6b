-- ===== src/Affinity/Tests.antt =====
-- The theorem of the pinning function at a concrete system with four cores.
use lowlatency_exec_core.Common.{◌≡◌, ◌↔◌, [], ◌∷◌, if◌then◌else◌, List}
use lowlatency_exec_core.Common.Int.{ℤ, pos, leb_ℤ}
use lowlatency_exec_core.Affinity.{
  linux, apple, Os, pinned, best_effort_hint, set_affinity, set_policy, pin_current_thread_to_core,
}
use lowlatency_exec_core.Affinity.Outcome.{pin_current_thread_to_core-honest}

-- EINVAL where the set has no core below four.
abbrev answer : List ℤ → ℤ
answer [] = pos 22
answer (c ∷ cs) = if leb_ℤ c (pos 3) then pos 0 else answer cs

abbrev four_cores : Os
four_cores = record {
  CpuSet = List ℤ;
  cpu_zero = [];
  cpu_set = λ c cs. c ∷ cs;
  pthread_setaffinity_np = answer;
  thread_policy_set = λ tag. pos 46;
  sched_getcpu = pos 2;
}

pin_current_thread_to_core-honest_example :
    (((pin_current_thread_to_core four_cores linux 2).outcome ≡ pinned)
      ↔ ((linux ≡ linux) × (set_affinity four_cores 2 ≡ pos 0)))
    × (((pin_current_thread_to_core four_cores linux 2).outcome ≡ best_effort_hint)
        ↔ ((linux ≡ apple) × (set_policy four_cores 2 ≡ pos 0)))
pin_current_thread_to_core-honest_example = pin_current_thread_to_core-honest four_cores linux 2
