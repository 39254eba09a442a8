-- ===== src/Prelude/Words.antt =====
-- Machine words as numbers below 2 ^ w. The release build of the program wraps around, so each
-- increment and decrement is taken modulo 2 ^ w.
use Prim.Native.Nat.{ℕ, ◌+◌, ◌-◌, ◌%◌, ◌^◌, ◌≤◌, ◌<◌, min, max}
use mathlib.Core.Path.{◌≡◌}
use native.Mathlib.Omega.{arith}

-- u32::MAX, u64::MAX and usize::MAX (on a 64-bit target).
abbrev pub u32_max : ℕ
u32_max = 4294967295

abbrev pub u64_max : ℕ
u64_max = 18446744073709551615

-- `x += 1` and `x -= 1` on a u32.
abbrev pub inc32 : ℕ → ℕ
inc32 n = (n + 1) % 2 ^ 32

abbrev pub dec32 : ℕ → ℕ
dec32 n = (n + 2 ^ 32 - 1) % 2 ^ 32

-- The same on a u64 or usize.
abbrev pub inc64 : ℕ → ℕ
inc64 n = (n + 1) % 2 ^ 64

abbrev pub dec64 : ℕ → ℕ
dec64 n = (n + 2 ^ 64 - 1) % 2 ^ 64

-- `saturating_add(1)` on a u64.
abbrev pub saturating_inc64 : ℕ → ℕ
saturating_inc64 n = min (n + 1) u64_max

pub inc64_below : (n k : ℕ) → n < k → k ≤ u64_max → inc64 n ≡ n + 1
inc64_below n k h b = omega arith

pub dec64_above : (n : ℕ) → 0 < n → n ≤ u64_max → dec64 n ≡ n - 1
dec64_above n h b = omega arith

-- `x.clamp(lo, hi)` on an unsigned integer, where lo ≤ hi.
abbrev pub clamp_nat : ℕ → ℕ → ℕ → ℕ
clamp_nat lo hi x = min hi (max lo x)
