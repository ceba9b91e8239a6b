-- ===== src/Ring/Counters.antt =====
-- What the tests and the increments of the wrapping counters say of the counts.
use lowlatency_exec_core.Ring.Invariant.{cap_fits}
use lowlatency_exec_core.Words.{sub64, add64}
use lowlatency_exec_core.Ring.{looks_empty, Ring, looks_full}
use lowlatency_exec_core.Ring.System.{word}
use lowlatency_exec_core.Common.{◌-◌, ℕ, ◌≤◌, ◌+◌, ◌≡◌, ◌^◌, arith, ◌==◌}

sub64-word : (p h : ℕ) → h ≤ p → p ≤ h + 2 ^ 63 → sub64 (word p) (word h) ≡ p - h
unfolding sub64
sub64-word p h le near = omega arith

pub add64-word : (n : ℕ) → add64 (word n) 1 ≡ word (n + 1)
unfolding add64
add64-word n = omega arith

module _ {A : Type 0} (k : ℕ) (small : k ≤ 63) where
  -- The producer's test, in terms of the counts.
  pub looks_full-eq :
      (r : Ring A) (p h : ℕ)
      → r.tail ≡ word p
      → r.head_cached ≡ word h
      → h ≤ p
      → p ≤ h + 2 ^ k
      → looks_full k r ≡ (p == h + 2 ^ k)
  unfolding looks_full
  looks_full-eq r p h et eh le near =
      let cap = cap_fits k small in
      rw (et, eh, sub64-word p h le (omega (arith, cap.1)), looks_full) (ground arith)

  -- The consumer's test, in terms of the counts.
  pub looks_empty-eq :
      (r : Ring A) (c t : ℕ)
      → r.head ≡ word c
      → r.tail_cached ≡ word t
      → c ≤ t
      → t ≤ c + 2 ^ k
      → looks_empty k r ≡ (c == t)
  unfolding looks_empty
  looks_empty-eq r c t ec et le near =
      let cap = cap_fits k small in rw (ec, et, looks_empty) (ground (arith, cap.1))
