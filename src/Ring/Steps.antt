-- ===== src/Ring/Steps.antt =====
-- Every step of either thread keeps the invariant of the ring.
use lowlatency_exec_core.Ring.Invariant.{Inv}
use lowlatency_exec_core.Ring.System.{
  push_starts, push_writes, push_ends, pop_starts, pop_reads, pop_ends, here, next, System, Reach,
  start, Step,
}
use lowlatency_exec_core.Common.{ℕ, ◌≤◌, refl, arith}
use lowlatency_exec_core.Ring.Pushes.{push_starts-Inv, push_writes-Inv, push_ends-Inv}
use lowlatency_exec_core.Ring.Pops.{pop_starts-Inv, pop_reads-Inv, pop_ends-Inv}

module _ {A : Type 0} (k : ℕ) (small : k ≤ 63) where
  -- Whichever thread moves, the invariant holds again.
  pub Step-Inv : {s t : System A} → Step k s t → Inv k s → Inv k t
  Step-Inv {s} (push_starts item h at lo hi) v = push_starts-Inv k small s v item h lo hi
  Step-Inv {s} (push_writes item at) v = push_writes-Inv k small s v item at
  Step-Inv {s} (push_ends item at) v = push_ends-Inv k small s v item at
  Step-Inv {s} (pop_starts t at lo hi) v = pop_starts-Inv k small s v t lo hi
  Step-Inv {s} (pop_reads at) v = pop_reads-Inv k small s v at
  Step-Inv {s} (pop_ends w at) v = pop_ends-Inv k small s v w at

  start-Inv : (fill : A) → Inv k (start k fill)
  start-Inv fill = record {
    tail = refl;
    head = refl;
    head_cached = refl;
    tail_cached = refl;
    order = omega arith;
    room = tt;
    item = tt;
    stored = λ i lo hi. absurd (omega arith);
    fifo = λ i h. absurd (omega arith);
  }

  pub Reach-Inv : {fill : A} {s : System A} → Reach k fill s → Inv k s
  Reach-Inv {fill} here = start-Inv fill
  Reach-Inv (next r st) = Step-Inv st (Reach-Inv r)
