-- ===== src/Ring/Invariant.antt =====
-- The invariant of the ring under every interleaving of its two threads.
use lowlatency_exec_core.Ring.{slot}
use lowlatency_exec_core.Masks.{bit_and_mask, mod_mod_mul}
use lowlatency_exec_core.Common.{
  ◌^◌, ◌*◌, ◌≡◌, ◌∙◌, ◌<◌, arith, ◌≤◌, suc, ℕ, ◌+◌, zero, ◌%◌, ◌≢◌, ap, dec_lt, sym, ◌-◌, ◌/◌,
}
use lowlatency_exec_core.Ring.System.{
  reading, Producer, Consumer, System, waiting, word, idle, releasing, writing, publishing,
}
use native.Mathlib.Nat.{
  pow-zero, pow-suc, add-zero, add-suc, div-add-mod, one-le-pow, pow-le-pow_right,
}

-- The producer has found room, or has filled the slot that it found.
abbrev pub HasRoom : {A : Type 0} → (k pushed known_popped : ℕ) → (ℕ → A) → Producer A → Type 0
HasRoom k pushed known_popped buffer idle = Unit
HasRoom k pushed known_popped buffer (writing item) = pushed < known_popped + 2 ^ k
HasRoom k pushed known_popped buffer (publishing item) =
    (pushed < known_popped + 2 ^ k) × (buffer (pushed % 2 ^ k) ≡ item)

-- The consumer has found an item, or has read it.
abbrev pub HasItem : {A : Type 0} → (popped known_pushed : ℕ) → (ℕ → A) → Consumer A → Type 0
HasItem popped known_pushed sent waiting = Unit
HasItem popped known_pushed sent reading = popped < known_pushed
HasItem popped known_pushed sent (releasing v) = (popped < known_pushed) × (v ≡ sent popped)

pub record Inv {A : Type 0} (k : ℕ) (s : System A) : Type 0 where
  pub tail : s.ring.tail ≡ word s.pushed
  pub head : s.ring.head ≡ word s.popped
  pub head_cached : s.ring.head_cached ≡ word s.known_popped
  pub tail_cached : s.ring.tail_cached ≡ word s.known_pushed
  pub order :
      (s.known_popped ≤ s.popped)
      × (s.popped ≤ s.known_pushed)
      × (s.known_pushed ≤ s.pushed)
      × (s.pushed ≤ s.known_popped + 2 ^ k)
  pub room : HasRoom k s.pushed s.known_popped s.ring.buffer s.producer
  pub item : HasItem s.popped s.known_pushed s.sent s.consumer
  -- the items that have been sent and not received lie in their slots
  pub stored : (i : ℕ) → s.popped ≤ i → i < s.pushed → s.ring.buffer (i % 2 ^ k) ≡ s.sent i
  pub fifo : (i : ℕ) → i < s.popped → s.received i ≡ s.sent i

pow-add : (k j : ℕ) → 2 ^ k * 2 ^ j ≡ 2 ^ (k + j)
pow-add k zero = rw (add-zero, pow-zero) (omega arith)
pow-add k (suc j) =
    rw (add-suc, pow-suc, pow-suc) (omega (arith, ap (λ (t : ℕ). t * 2) (pow-add k j)))

pub cap_fits : (k : ℕ) → k ≤ 63 → (0 < 2 ^ k) × (2 ^ k ≤ 2 ^ 63)
cap_fits k h = (one-le-pow k 2 (omega arith), pow-le-pow_right {n = 2} (omega arith) h)

-- The slot of the counter for item `n` is that of `n`.
pub slot-word : (k n : ℕ) → k ≤ 63 → slot k (word n) ≡ n % 2 ^ k
unfolding slot
slot-word k n h =
    let whole : 2 ^ k * 2 ^ (64 - k) ≡ 2 ^ 64 =
      pow-add k (64 - k) ∙ ap (λ t. 2 ^ t) {y = 64} (omega arith) in
    bit_and_mask k (word n)
    ∙ (ap (λ t. n % t % 2 ^ k) (sym whole) ∙ mod_mod_mul n (2 ^ k) (2 ^ (64 - k)))

-- Items less than a capacity apart lie in different slots.
pub slots_apart : (c i j : ℕ) → i < j → j < i + c → i % c ≢ j % c
slots_apart c i j h k e =
    let a = div-add-mod i c in
    let b = div-add-mod j c in
    elim (dec_lt (i / c) (j / c)) [
      | yes up ↦ let step : c * (i / c) + c ≤ c * (j / c) = grind arith in omega (arith, a, b, step)
      | no down ↦ let step : c * (j / c) ≤ c * (i / c) = grind arith in omega (arith, a, b, step)
    ]
