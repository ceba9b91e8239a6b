-- ===== src/Bench/RingRounds.antt =====
-- The fourth workload of src/bench_main.cpp: an item is pushed and popped again, by one thread.
use lowlatency_exec_core.Common.{ℕ, ◌+◌, ◌<◌, ◌^◌, ◌≡◌, refl, ap, arith, ◌⊎◌, inl, inr}
use lowlatency_exec_core.Words.{inc64_small}
use lowlatency_exec_core.Latency.{Doubles}
use lowlatency_exec_core.Latency.Loop.{measured_rule}
use lowlatency_exec_core.Ring.{empty_ring}
use lowlatency_exec_core.Ring.RoundTrip.{IsDrained, try_push-try_pop}
use lowlatency_exec_core.Bench.{RingRun, push_pop, ring_now, bench_ring_buffer_round_trip}

-- After `k` rounds.
record Rounds (k : ℕ) (s : RingRun) : Type 0 where
  drained : IsDrained s.ring
  next_value : s.next_value ≡ k
  sink : (k ≡ 0) ⊎ (s.sink + 1 ≡ k)

push_pop-Rounds :
    (bits k : ℕ) (s : RingRun) → k + 1 < 2 ^ 64 → Rounds k s → Rounds (k + 1) (push_pop bits s)
unfolding push_pop
push_pop-Rounds bits k s fits r =
    let (ring, ring', pushed, popped, drained) =
      try_push-try_pop bits s.next_value s.ring r.drained in
    rw (pushed, popped)
      (record {
        drained = drained;
        next_value = rw (r.next_value) (inc64_small k fits);
        sink = inr (ap (λ n. n + 1) r.next_value);
      })

-- For n iterations with n from 1 to below 2 ^ 64, whatever the clock reads and the slots hold at
-- first: the last value popped is n - 1, the last one pushed, and the ring holds no item.
pub bench_ring_buffer_round_trip-sink :
    (f : Doubles) (ticks : ℕ → ℕ) (k fill warmup measured : ℕ)
    → 0 < warmup + measured
    → warmup + measured < 2 ^ 64
    → ((bench_ring_buffer_round_trip f ticks k fill warmup measured).1.sink + 1 ≡ warmup + measured)
      × IsDrained (bench_ring_buffer_round_trip f ticks k fill warmup measured).1.ring
unfolding bench_ring_buffer_round_trip
bench_ring_buffer_round_trip-sink f ticks k fill warmup measured some_rounds fits =
    let r =
      measured_rule (push_pop k) (ring_now ticks) f Rounds (warmup + measured)
        (λ j s less r. push_pop-Rounds k j s (omega (arith, less, fits)) r)
        (λ j s r. record { drained = r.drained; next_value = r.next_value; sink = r.sink }) warmup
        measured (record { ring = empty_ring fill; next_value = 0; sink = 0; reads = 0 })
        (omega arith)
        (record {
          drained = record { bounded = omega arith; popped = refl; seen = refl };
          next_value = refl;
          sink = inl refl;
        }) in
    (
      elim (r.sink) [
        | inl none_yet ↦ absurd (omega (arith, none_yet, some_rounds))
        | inr last ↦ last
      ],
      r.drained,
    )
