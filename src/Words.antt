-- ===== src/Words.antt =====
-- `std::uint64_t` and `std::size_t` counters: numbers below 2 ^ 64 that wrap.
use lowlatency_exec_core.Common.{ℕ, ◌+◌, ◌-◌, ◌%◌, ◌^◌, ◌<◌, ◌≡◌, suc, arith}

-- `++x`
unfoldable pub inc64 : ℕ → ℕ
inc64 x = (x + 1) % 2 ^ 64

-- `--x`
unfoldable pub dec64 : ℕ → ℕ
dec64 x = (x + 2 ^ 64 - 1) % 2 ^ 64

-- `a + b` and `a - b`
unfoldable pub add64 : ℕ → ℕ → ℕ
add64 a b = (a + b) % 2 ^ 64

unfoldable pub sub64 : ℕ → ℕ → ℕ
sub64 a b = (a + 2 ^ 64 - b) % 2 ^ 64

pub dec64-inc64 : (x : ℕ) → x < 2 ^ 64 → dec64 (inc64 x) ≡ x
unfolding inc64 dec64
dec64-inc64 x h = omega arith

pub inc64_small : (x : ℕ) → x + 1 < 2 ^ 64 → inc64 x ≡ x + 1
unfolding inc64
inc64_small x h = omega arith

pub dec64-suc : (x : ℕ) → x + 1 < 2 ^ 64 → dec64 (suc x) ≡ x
unfolding dec64
dec64-suc x h = omega arith

pub inc64-suc : (x : ℕ) → x + 1 < 2 ^ 64 → inc64 x ≡ suc x
unfolding inc64
inc64-suc x h = omega arith

pub add64_small : (a b : ℕ) → a + b < 2 ^ 64 → add64 a b ≡ a + b
unfolding add64
add64_small a b h = omega (arith, h)
