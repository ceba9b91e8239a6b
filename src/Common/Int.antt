-- ===== src/Common/Int.antt =====
-- Signed integers over the native numbers, under the library's names, and the `std::int64_t` of the
-- sources: an integer, with its range as a predicate and its bit pattern as a number below 2 ^ 64.
use lowlatency_exec_core.Common.{
  ℕ, suc, ◌+◌, ◌-◌, ◌%◌, ◌^◌, ◌≤◌, ◌<◌, ◌≡◌, refl, ◌⊎◌, Bool, true, not, arith, ltb, leb,
  if◌then◌else◌, some, Option, ◌&&◌, none,
}

-- `negsuc n` is -(n + 1).
pub data ℤ : Type 0 where
  pos : ℕ → ℤ
  negsuc : ℕ → ℤ

abbrev pub pos_part : ℤ → ℕ
pos_part (pos n) = n
pos_part (negsuc n) = 0

abbrev pub neg_part : ℤ → ℕ
neg_part (pos n) = 0
neg_part (negsuc n) = suc n

-- a - b, as an integer.
abbrev pub sub_ℕ : ℕ → ℕ → ℤ
sub_ℕ a b = if leb b a then pos (a - b) else negsuc (b - a - 1)

infixl 65 ◌+ℤ◌ ◌-ℤ◌
infix 50 ◌≤ℤ◌ ◌<ℤ◌
unfoldable pub ◌+ℤ◌ : ℤ → ℤ → ℤ
a +ℤ b = sub_ℕ (pos_part a + pos_part b) (neg_part a + neg_part b)

unfoldable pub ◌-ℤ◌ : ℤ → ℤ → ℤ
a -ℤ b = sub_ℕ (pos_part a + neg_part b) (neg_part a + pos_part b)

abbrev pub ◌≤ℤ◌ : ℤ → ℤ → Type 0
a ≤ℤ b = pos_part a + neg_part b ≤ pos_part b + neg_part a

abbrev pub ◌<ℤ◌ : ℤ → ℤ → Type 0
a <ℤ b = pos_part a + neg_part b < pos_part b + neg_part a

abbrev pub ltb_ℤ : ℤ → ℤ → Bool
ltb_ℤ a b = ltb (pos_part a + neg_part b) (pos_part b + neg_part a)

abbrev pub leb_ℤ : ℤ → ℤ → Bool
leb_ℤ a b = leb (pos_part a + neg_part b) (pos_part b + neg_part a)

-- `std::min`: the first argument where the two are equal.
unfoldable pub min_ℤ : ℤ → ℤ → ℤ
min_ℤ a b = if ltb_ℤ b a then b else a

pub +ℤ_parts :
    (a b : ℤ)
    → pos_part (a +ℤ b) + neg_part a + neg_part b ≡ neg_part (a +ℤ b) + pos_part a + pos_part b
unfolding ◌+ℤ◌
+ℤ_parts a b = ground arith

pub -ℤ_parts :
    (a b : ℤ)
    → pos_part (a -ℤ b) + neg_part a + pos_part b ≡ neg_part (a -ℤ b) + pos_part a + neg_part b
unfolding ◌-ℤ◌
-ℤ_parts a b = ground arith

-- A number has one of its two parts at zero.
pub one_part : (a : ℤ) → (pos_part a ≡ 0) ⊎ (neg_part a ≡ 0)
one_part (pos n) = ground arith
one_part (negsuc n) = ground arith

pub eq_of_parts : (a b : ℤ) → pos_part a + neg_part b ≡ pos_part b + neg_part a → a ≡ b
eq_of_parts a b h = ground arith

pub ltb→lt_ℤ : (a b : ℤ) → ltb_ℤ a b ≡ true → a <ℤ b
ltb→lt_ℤ a b h = ground arith

pub ruleset int_laws = (arith, +ℤ_parts, -ℤ_parts, eq_of_parts)

-- The values of `std::int64_t`.
abbrev pub IsInt64 : ℤ → Type 0
IsInt64 a = (pos_part a < 2 ^ 63) × (neg_part a ≤ 2 ^ 63)

-- The bit pattern of an `std::int64_t`, and the integer that a pattern stands for.
unfoldable pub bits : ℤ → ℕ
bits (pos n) = n % 2 ^ 64
bits (negsuc n) = 2 ^ 64 - 1 - n % 2 ^ 64

unfoldable pub signed64 : ℕ → ℤ
signed64 w = if ltb w (2 ^ 63) then pos w else negsuc (2 ^ 64 - 1 - w)

pub bits-lt : (a : ℤ) → bits a < 2 ^ 64
unfolding bits
bits-lt (pos n) = omega arith
bits-lt (negsuc n) = omega arith

pub bits-signed64 : (w : ℕ) → w < 2 ^ 64 → bits (signed64 w) ≡ w
unfolding bits signed64
bits-signed64 w h = ground arith

pub signed64-bits : (a : ℤ) → IsInt64 a → signed64 (bits a) ≡ a
unfolding bits signed64
signed64-bits (pos n) h = ground arith
signed64-bits (negsuc n) h = ground arith

-- Addition of patterns is addition of integers modulo 2 ^ 64.
pub bits-+ℤ : (a b : ℤ) → bits (a +ℤ b) ≡ (bits a + bits b) % 2 ^ 64
unfolding bits ◌+ℤ◌
bits-+ℤ (pos m) (pos n) = ground arith
bits-+ℤ (pos m) (negsuc n) = ground arith
bits-+ℤ (negsuc m) (pos n) = ground arith
bits-+ℤ (negsuc m) (negsuc n) = ground arith

-- The integer that an addition of the hardware leaves in a 64-bit lane.
unfoldable pub wrap64 : ℤ → ℤ
unfolding bits signed64
wrap64 a = signed64 (bits a)

pub wrap64_id : (a : ℤ) → IsInt64 a → wrap64 a ≡ a
unfolding wrap64
wrap64_id a h = signed64-bits a h

-- `a + b` on `std::int64_t` in C++, where an overflow is undefined: `none`.
unfoldable pub add_checked : ℤ → ℤ → Option ℤ
unfolding ◌+ℤ◌
add_checked a b =
    let c = a +ℤ b in
    if ltb (pos_part c) (2 ^ 63) && leb (neg_part c) (2 ^ 63) then some c else none

-- `a - b`, likewise.
unfoldable pub sub_checked : ℤ → ℤ → Option ℤ
unfolding ◌-ℤ◌
sub_checked a b =
    let c = a -ℤ b in
    if ltb (pos_part c) (2 ^ 63) && leb (neg_part c) (2 ^ 63) then some c else none

-- Nothing overflows where a number that is not negative loses no more than it is.
pub sub_checked_less :
    (a b : ℤ)
    → leb_ℤ (pos 0) b ≡ true
    → leb_ℤ b a ≡ true
    → pos_part a < 2 ^ 63
    → sub_checked a b ≡ some (a -ℤ b)
unfolding sub_checked ◌-ℤ◌
sub_checked_less a b h k fits = ground arith

pub pos-+ℤ : (a b : ℕ) → pos a +ℤ pos b ≡ pos (a + b)
unfolding ◌+ℤ◌
pos-+ℤ a b = ground arith

pub add_checked-pos : (a b : ℕ) → a + b < 2 ^ 63 → add_checked (pos a) (pos b) ≡ some (pos (a + b))
unfolding add_checked
add_checked-pos a b h = ground arith

pub add_checked_nonneg :
    (t : ℕ) (q : ℤ)
    → neg_part q ≡ 0
    → t + pos_part q < 2 ^ 63
    → add_checked (pos t) q ≡ some (pos (t + pos_part q))
unfolding add_checked
add_checked_nonneg t q h k = ground arith
