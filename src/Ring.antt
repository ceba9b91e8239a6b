-- ===== src/Ring.antt =====
-- SpscRingBuffer<T, Capacity> of include/exec_core/ring_buffer.hpp, with `Capacity` written 2^k.
-- Both operations are cut at their accesses to shared memory, so that a producer and a consumer may
-- be interleaved between any two of them (`Ring.System`). An acquire load of the other side's
-- counter gives the argument `seen`.
use lowlatency_exec_core.Words.{sub64, add64}
use lowlatency_exec_core.Common.{
  if◌then◌else◌, true, false, ◌^◌, some, Bool, ◌&&◌, ltb, ◌-◌, not, Option, ◌==◌, ℕ, none,
}
use Prim.Native.Nat.{bit_and}
pub mod System
pub mod Invariant
pub mod Counters
pub mod Pushes
pub mod Pops
pub mod Steps
pub mod Safety
pub mod RoundTrip
pub mod Threads
pub mod Progress
pub mod Capacity
mod Tests

-- `buffer_`, the counters of `ProducerLine` and those of `ConsumerLine`.
pub record Ring (A : Type 0) : Type 0 where
  pub tail : ℕ
  pub head_cached : ℕ
  pub head : ℕ
  pub tail_cached : ℕ
  pub buffer : ℕ → A

abbrev pub put {ℓ} : {A : Type ℓ} → (ℕ → A) → ℕ → A → ℕ → A
put f i a j = if j == i then a else f j

-- The static assertion on `Capacity`, a `std::size_t`.
unfoldable pub accepts_capacity : ℕ → Bool
accepts_capacity c = ltb 0 c && (bit_and c (c - 1) == 0)

-- `i & kMask`
unfoldable pub slot : ℕ → ℕ → ℕ
slot k i = bit_and i (2 ^ k - 1)

-- A default-constructed buffer, whose slots hold `fill`.
abbrev pub empty_ring : {A : Type 0} → A → Ring A
empty_ring fill = record {
  tail = 0;
  head_cached = 0;
  head = 0;
  tail_cached = 0;
  buffer = λ _. fill;
}

module _ {A : Type 0} (k : ℕ) where
  -- `tail - head_cached == Capacity`
  unfoldable pub looks_full : Ring A → Bool
  unfolding sub64
  looks_full r = sub64 r.tail r.head_cached == 2 ^ k

  -- Is there room? The cached head is refreshed where it says that there is none.
  unfoldable pub check_room : (seen : ℕ) → Ring A → Bool × Ring A
  unfolding looks_full
  check_room seen r =
      let refreshed = record r { head_cached = seen } in
      if looks_full r then (not (looks_full refreshed), refreshed) else (true, r)

  -- `buffer_[tail & kMask] = item`
  unfoldable pub write_slot : A → Ring A → Ring A
  unfolding slot
  write_slot item r = record r { buffer = put r.buffer (slot k r.tail) item }

  -- `producer_.tail.store(tail + 1)`
  unfoldable pub publish_tail : Ring A → Ring A
  unfolding add64
  publish_tail r = record r { tail = add64 r.tail 1 }

  -- `emplace_impl`, of which both `try_push` are calls.
  unfoldable pub try_push : (seen : ℕ) → A → Ring A → Bool × Ring A
  unfolding check_room write_slot publish_tail
  try_push seen item r =
      let (room, r') = check_room seen r in
      if room then (true, publish_tail (write_slot item r')) else (false, r')

  -- `head == tail_cached`
  unfoldable pub looks_empty : Ring A → Bool
  looks_empty r = r.head == r.tail_cached

  -- Is there an item? The cached tail is refreshed where it says that there is none.
  unfoldable pub check_items : (seen : ℕ) → Ring A → Bool × Ring A
  unfolding looks_empty
  check_items seen r =
      let refreshed = record r { tail_cached = seen } in
      if looks_empty r then (not (looks_empty refreshed), refreshed) else (true, r)

  -- `buffer_[head & kMask]`
  unfoldable pub read_slot : Ring A → A
  unfolding slot
  read_slot r = r.buffer (slot k r.head)

  -- `consumer_.head.store(head + 1)`
  unfoldable pub publish_head : Ring A → Ring A
  unfolding add64
  publish_head r = record r { head = add64 r.head 1 }

  -- `try_pop`: `none` where the queue is empty, and then `out` is not written.
  unfoldable pub try_pop : (seen : ℕ) → Ring A → Option A × Ring A
  unfolding check_items read_slot publish_head
  try_pop seen r =
      let (item, r') = check_items seen r in
      if item then (some (read_slot r'), publish_head r') else (none, r')

-- `capacity()`
unfoldable pub capacity : ℕ → ℕ
capacity k = 2 ^ k

module _ {A : Type 0} where
  unfoldable pub empty_approx : Ring A → Bool
  empty_approx r = r.tail == r.head

  unfoldable pub size_approx : Ring A → ℕ
  unfolding sub64
  size_approx r = sub64 r.tail r.head
