-- ===== src/Ring/RoundTrip.antt =====
-- One thread that pushes an item and pops it again, by include/exec_core/ring_buffer.hpp.
use lowlatency_exec_core.Common.{
  ℕ, ◌+◌, ◌-◌, ◌%◌, zero, suc, ◌<◌, ◌^◌, ◌≡◌, ◌≢◌, ◌==◌, refl, ap, true, false, some, arith,
  Bool-cases, inl, inr,
}
use lowlatency_exec_core.Words.{add64, sub64}
use lowlatency_exec_core.Ring.{
  Ring, try_push, try_pop, check_room, check_items, write_slot, read_slot, slot, publish_tail,
  publish_head, looks_full,
}

-- No item is in the ring, and the consumer has seen as many pushes as there were.
pub record IsDrained {A : Type 0} (r : Ring A) : Type 0 where
  pub bounded : r.tail < 2 ^ 64
  pub popped : r.head ≡ r.tail
  pub seen : r.tail_cached ≡ r.tail

pow_positive : (k : ℕ) → 0 < 2 ^ k
pow_positive zero = omega arith
pow_positive (suc k) = omega (arith, pow_positive k)

eq_self : (n : ℕ) → (n == n) ≡ true
eq_self n = ground arith

module _ {A : Type 0} (k : ℕ) (item : A) (r : Ring A) (v : IsDrained r) where
  -- The ring once the producer has the cached head `h`.
  abbrev pushed : ℕ → Ring A
  pushed h = publish_tail k (write_slot k item (record r { head_cached = h }))

  not_full : looks_full k (record r { head_cached = r.head }) ≡ false
  unfolding looks_full sub64
  not_full =
      let gap : (r.tail + 2 ^ 64 - r.head) % 2 ^ 64 ≡ 0 = omega (arith, v.popped, v.bounded) in
      let positive = pow_positive k in rw gap (ground (arith, positive))

  room : (h : ℕ) × (check_room k r.head r ≡ (true, record r { head_cached = h }))
  unfolding check_room
  room = elim (Bool-cases (looks_full k r)) [
    | inr fits ↦ (r.head_cached, rw fits refl)
    | inl full ↦ (r.head, rw (full, not_full) refl)
  ]

  moved : (r.head == add64 r.tail 1) ≡ false
  unfolding add64
  moved =
      let next : (r.tail + 1) % 2 ^ 64 ≢ r.head =
        λ same. omega (arith, same, v.popped, v.bounded) in
      ground (arith, next)

  -- The item is there, and the cached tail is refreshed.
  found :
      (h : ℕ)
      → check_items k (pushed h).tail (pushed h)
        ≡ (true, record (pushed h) { tail_cached = (pushed h).tail })
  unfolding check_items publish_tail write_slot
  found h =
      let empty : (r.head == r.tail_cached) ≡ true = ground (arith, v.popped, v.seen) in
      rw (empty, moved) refl

  same_slot : (h : ℕ) → read_slot k (record (pushed h) { tail_cached = (pushed h).tail }) ≡ item
  unfolding read_slot publish_tail write_slot
  same_slot h = rw (v.popped, eq_self (slot k r.tail)) refl

  popped_again :
      (h : ℕ) → IsDrained (publish_head k (record (pushed h) { tail_cached = (pushed h).tail }))
  unfolding publish_head publish_tail write_slot add64
  popped_again h = record {
    bounded = omega arith;
    popped = ap (λ n. add64 n 1) v.popped;
    seen = refl;
  }

  -- On a ring of any capacity 2 ^ k that holds no item and whose consumer has seen every push,
  -- wherever its counters stand and whatever head the producer has cached, one thread's try_push
  -- succeeds, its next try_pop gives that item, and the ring is as before: it holds no item and the
  -- consumer has seen every push.
  pub try_push-try_pop :
      (r' : Ring A) × (r'' : Ring A) × (try_push k r.head item r ≡ (true, r'))
      × (try_pop k r'.tail r' ≡ (some item, r''))
      × IsDrained r''
  unfolding try_push try_pop
  try_push-try_pop =
      let (h, fits) = room in
      (
        pushed h,
        publish_head k (record (pushed h) { tail_cached = (pushed h).tail }),
        rw fits refl,
        rw (found h, same_slot h) refl,
        popped_again h,
      )
