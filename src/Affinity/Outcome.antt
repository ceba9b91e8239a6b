-- ===== src/Affinity/Outcome.antt =====
-- What an outcome of `pin_current_thread_to_core` says of the call.
use lowlatency_exec_core.Common.{ℕ, ◌≡◌, ◌≢◌, ◌⊎◌, ◌↔◌, inl, inr, true, false, refl, zero, suc}
use lowlatency_exec_core.Common.Int.{ℤ, pos, negsuc}
use lowlatency_exec_core.Affinity.{
  Platform, linux, apple, elsewhere, Os, pinned, best_effort_hint, is_success, set_affinity,
  set_policy, pin_current_thread_to_core,
}

success_cases :
    (rc : ℤ) → ((is_success rc ≡ true) × (rc ≡ pos 0)) ⊎ ((is_success rc ≡ false) × (rc ≢ pos 0))
success_cases (pos zero) = inl (refl, refl)
success_cases (pos (suc n)) = inr (refl, λ e. cc)
success_cases (negsuc n) = inr (refl, λ e. cc)

-- Whatever the operating system answers, the outcome is Pinned exactly on Linux where its call
-- answers zero, and BestEffortHint exactly on Apple's platforms where theirs answers zero.
pub pin_current_thread_to_core-honest :
    (os : Os) (p : Platform) (core_id : ℕ)
    → (((pin_current_thread_to_core os p core_id).outcome ≡ pinned)
        ↔ ((p ≡ linux) × (set_affinity os core_id ≡ pos 0)))
      × (((pin_current_thread_to_core os p core_id).outcome ≡ best_effort_hint)
          ↔ ((p ≡ apple) × (set_policy os core_id ≡ pos 0)))
unfolding pin_current_thread_to_core
pin_current_thread_to_core-honest os linux core_id =
    elim (success_cases (set_affinity os core_id)) [
      | inl (success, z) ↦ rw success (((λ e. (refl, z)), (λ h. refl)), ((λ e. cc), (λ h. cc)))
      | inr (failure, nz) ↦ rw failure (((λ e. cc), (λ h. absurd (nz h.1))), ((λ e. cc), (λ h. cc)))
    ]
pin_current_thread_to_core-honest os apple core_id = elim (success_cases (set_policy os core_id)) [
  | inl (success, z) ↦ rw success (((λ e. cc), (λ h. cc)), ((λ e. (refl, z)), (λ h. refl)))
  | inr (failure, nz) ↦ rw failure (((λ e. cc), (λ h. cc)), ((λ e. cc), (λ h. absurd (nz h.1))))
]
pin_current_thread_to_core-honest os elsewhere core_id =
    (((λ e. cc), (λ h. cc)), ((λ e. cc), (λ h. cc)))
