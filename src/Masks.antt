-- ===== src/Masks.antt =====
-- `x & (2^k - 1)` is the remainder of `x` by `2^k`, for an index kept below a power of two.
use Prim.Native.Nat.{min, bit_and, digits, bit_and-bitwise}
use native.Mathlib.Nat.{
  pow-suc, one-le-pow, mod-eq_of_lt, add-mul-mod_self_left, div-add-mod, mod-lt, mod_self,
}
use lowlatency_exec_core.Common.{
  ℕ, zero, suc, ◌+◌, ◌-◌, ◌*◌, ◌/◌, ◌%◌, ◌^◌, ◌≤◌, ◌<◌, ◌≡◌, refl, sym, ap, ◌∙◌, arith, subst, ◌↔◌,
  dec_lt,
}

-- Doubling a remainder and adding a low digit.
mod_double : (a m : ℕ) → 0 < m → a / 2 % m * 2 + a % 2 ≡ a % (m * 2)
mod_double a m h =
    let s = a / 2 % m in
    let q = a / 2 / m in
    let low = mod-lt (a / 2) h in
    let split : m * q + s ≡ a / 2 = div-add-mod (a / 2) m in
    let whole : s * 2 + a % 2 + m * 2 * q ≡ a = omega (arith, split, ap (λ (t : ℕ). t * 2) split) in
    sym (mod-eq_of_lt (omega arith))
    ∙ (sym (add-mul-mod_self_left (s * 2 + a % 2) (m * 2) q) ∙ ap (λ t. t % (m * 2)) whole)

no_digits : (n a : ℕ) → digits (λ b. zero) min n a 0 ≡ 0
no_digits zero a = refl
no_digits (suc n) zero = refl
no_digits (suc n) (suc a) = omega (arith, no_digits n (suc a / 2))

mask_digits : (n k a : ℕ) → a ≤ n → digits (λ b. zero) min n a (2 ^ k - 1) ≡ a % 2 ^ k
mask_digits zero k zero h = omega arith
mask_digits zero k (suc a) h = absurd (omega arith)
mask_digits (suc n) k zero h = omega arith
mask_digits (suc n) zero (suc a) h = omega (arith, no_digits n (suc a / 2))
mask_digits (suc n) (suc k) (suc a) h =
    let room = one-le-pow k 2 (omega arith) in
    let half : (2 ^ suc k - 1) / 2 ≡ 2 ^ k - 1 = omega (arith, pow-suc 2 k) in
    let odd : (2 ^ suc k - 1) % 2 ≡ 1 = omega (arith, pow-suc 2 k) in
    rw (half, odd, mask_digits n k (suc a / 2) (omega arith), pow-suc)
      (ap (λ t. suc a / 2 % 2 ^ k * 2 + t) (omega arith) ∙ mod_double (suc a) (2 ^ k) room)

pub bit_and_mask : (k a : ℕ) → bit_and a (2 ^ k - 1) ≡ a % 2 ^ k
bit_and_mask k a = bit_and-bitwise a (2 ^ k - 1) ∙ mask_digits a k a (omega arith)

-- A counter that wraps at a multiple of `d` keeps its remainder by `d`.
pub mod_mod_mul : (n d m : ℕ) → n % (d * m) % d ≡ n % d
mod_mod_mul n d m =
    let split = div-add-mod n (d * m) in
    sym (add-mul-mod_self_left (n % (d * m)) d (m * (n / (d * m))))
    ∙ ap (λ t. t % d) (omega (arith, split))

-- The digits of a number and itself are its own.
same_digits : (n a : ℕ) → a ≤ n → digits (λ b. zero) min n a a ≡ a
same_digits zero zero h = refl
same_digits zero (suc a) h = absurd (omega arith)
same_digits (suc n) zero h = refl
same_digits (suc n) (suc a) h = rw (same_digits n (suc a / 2) (omega arith)) (omega arith)

-- A number that has no digit in common with the one before is a power of two.
power_digits :
    (n a : ℕ) → suc a ≤ n → digits (λ b. zero) min n (suc a) a ≡ 0 → (k : ℕ) × (suc a ≡ 2 ^ k)
power_digits zero a h e = absurd (omega (arith, h))
power_digits (suc n) a h e =
    let parts : digits (λ b. zero) min n (suc a / 2) (a / 2) ≡ 0 = omega (arith, e) in
    elim (dec_lt 0 (suc a % 2)) [
      | yes odd ↦
          let half : suc a / 2 ≡ a / 2 = omega (arith, odd) in
          let none_left : a / 2 ≡ 0 =
            sym (same_digits n (a / 2) (omega (arith, h)))
            ∙ subst (λ m. digits (λ b. zero) min n m (a / 2) ≡ 0) half parts in
          (0, omega (arith, none_left, odd))
      | no even ↦
          let half : suc a / 2 ≡ suc (a / 2) = omega (arith, even) in
          let (k, e') =
            power_digits n (a / 2) (omega (arith, h, even))
              (subst (λ m. digits (λ b. zero) min n m (a / 2) ≡ 0) half parts) in
          (suc k, omega (arith, half, even, e', pow-suc 2 k))
    ]

-- `c & (c - 1)` is zero for the powers of two and for no other positive number.
pub bit_and-pred : (c : ℕ) → 0 < c → (bit_and c (c - 1) ≡ 0) ↔ ((k : ℕ) × (c ≡ 2 ^ k))
bit_and-pred zero h = absurd (omega (arith, h))
bit_and-pred (suc a) h = (
  λ e. power_digits (suc a) a (omega arith) (
      sym (bit_and-bitwise (suc a) a) ∙ subst (λ p. bit_and (suc a) p ≡ 0) {y = a} (omega arith) e),
  λ power. rw (power.1) (bit_and_mask power.0 (2 ^ power.0) ∙ mod_self (2 ^ power.0)),
)
