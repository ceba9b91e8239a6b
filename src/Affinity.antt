-- ===== src/Affinity.antt =====
-- include/exec_core/core_affinity.hpp and src/core_affinity.cpp: one function for each platform,
-- here with the platform as an argument. The calls of the operating system are parameters.
pub mod Outcome
mod Tests
use lowlatency_exec_core.Common.{
  ℕ, Bool, true, false, Option, none, some, if◌then◌else◌, ltb, ◌%◌, ◌^◌, ◌-◌, ◌+◌, ◌*◌, zero, suc,
}
use lowlatency_exec_core.Common.Int.{ℤ, pos, negsuc, ltb_ℤ}

-- `__linux__`, `__APPLE__`, or neither.
pub data Platform : Type 0 where
  linux apple elsewhere : Platform

pub data PinOutcome : Type 0 where
  pinned best_effort_hint unsupported : PinOutcome

pub record PinResult : Type 0 where
  pub outcome : PinOutcome
  pub os_status : ℤ

-- What the operating system answers to the calling thread, and its set of CPUs.
pub record Os : Type 1 where
  pub CpuSet : Type 0
  pub cpu_zero : CpuSet
  pub cpu_set : ℤ → CpuSet → CpuSet
  pub pthread_setaffinity_np : CpuSet → ℤ
  pub thread_policy_set : ℤ → ℤ
  pub sched_getcpu : ℤ

-- `static_cast<int>` of an `unsigned`
unfoldable pub signed32 : ℕ → ℤ
signed32 n = let w = n % 2 ^ 32 in if ltb w (2 ^ 31) then pos w else negsuc (2 ^ 32 - 1 - w)

-- `rc == 0`
abbrev pub is_success : ℤ → Bool
is_success (pos zero) = true
is_success (pos (suc n)) = false
is_success (negsuc n) = false

module _ (os : Os) where
  open os use {cpu_zero, cpu_set, pthread_setaffinity_np, thread_policy_set, sched_getcpu}

  -- The answer of the call that each platform makes.
  unfoldable pub set_affinity : ℕ → ℤ
  unfolding signed32
  set_affinity core_id = pthread_setaffinity_np (cpu_set (signed32 core_id) cpu_zero)

  unfoldable pub set_policy : ℕ → ℤ
  unfolding signed32
  set_policy core_id = thread_policy_set (signed32 core_id)

  unfoldable pub pin_current_thread_to_core : Platform → ℕ → PinResult
  unfolding set_affinity set_policy
  pin_current_thread_to_core linux core_id =
      let rc = set_affinity core_id in
      if is_success rc
      then record { outcome = pinned; os_status = pos 0 }
      else record { outcome = unsupported; os_status = rc }
  pin_current_thread_to_core apple core_id =
      let kr = set_policy core_id in
      if is_success kr
      then record { outcome = best_effort_hint; os_status = kr }
      else record { outcome = unsupported; os_status = kr }
  pin_current_thread_to_core elsewhere core_id = record { outcome = unsupported; os_status = pos 0 }

  unfoldable pub current_core_id : Platform → Option ℤ
  current_core_id linux = let cpu = sched_getcpu in if ltb_ℤ cpu (pos 0) then none else some cpu
  current_core_id apple = none
  current_core_id elsewhere = none
