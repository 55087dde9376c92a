-- ===== src/Common/Words.antt =====
-- Machine words. A `u64` or `usize` is a number below 2^64 and wraps around there; an `i64` is its
-- bit pattern, so that a cast between the two is the identity on patterns.
use Prim.Native.Nat.{ℕ, ◌+◌, ◌-◌, ◌%◌, ◌^◌}

abbrev pub u64_mod : ℕ
u64_mod = 2 ^ 64

-- `a + b` on `u64`, and `fetch_add` on the atomics of that width.
abbrev pub add_u64 : ℕ → ℕ → ℕ
add_u64 a b = (a + b) % u64_mod

-- `u64::saturating_sub`: the subtraction of ℕ stops at 0 as well.
abbrev pub saturating_sub : ℕ → ℕ → ℕ
saturating_sub a b = a - b
