-- ===== src/Ring/Capacity.antt =====
-- The capacities that include/exec_core/ring_buffer.hpp accepts.
use lowlatency_exec_core.Common.{ℕ, ◌≡◌, ◌↔◌, true, ◌^◌, ◌<◌, ◌≤◌, arith, ◌-◌, dec_lt}
use Prim.Native.Nat.{bit_and}
use lowlatency_exec_core.Masks.{bit_and-pred}
use lowlatency_exec_core.Ring.{accepts_capacity, capacity}
use native.Mathlib.Nat.{pow-le-pow_right, one-le-pow}

exponent_small : (k : ℕ) → 2 ^ k < 2 ^ 64 → k ≤ 63
exponent_small k h = elim (dec_lt k 64) [
  | yes small ↦ omega (arith, small)
  | no large ↦
      let more : 2 ^ 64 ≤ 2 ^ k =
        pow-le-pow_right {n = 2} (omega arith) {i = 64} (omega (arith, large)) in
      absurd (omega (arith, h, more))
]

-- Of the numbers below 2 ^ 64, the static assertion on Capacity accepts exactly the powers 2 ^ k
-- with k at most 63.
pub accepts_capacity-capacity :
    (c : ℕ) → c < 2 ^ 64 → (accepts_capacity c ≡ true) ↔ ((k : ℕ) × (k ≤ 63) × (c ≡ capacity k))
unfolding accepts_capacity capacity
accepts_capacity-capacity c fits = (
  λ accepted.
      let positive : 0 < c = ground (arith, accepted) in
      let no_common : bit_and c (c - 1) ≡ 0 = ground (arith, accepted) in
      let (k, power) = (bit_and-pred c positive).0 no_common in
      (k, exponent_small k (omega (arith, power, fits)), power),
  λ (k, small, power).
      let one = one-le-pow k 2 (omega arith) in
      let positive : 0 < c = omega (arith, one, power) in
      let no_common = (bit_and-pred c positive).1 (k, power) in ground (arith, positive, no_common),
)
