-- ===== src/Schedule/Words.antt =====
-- Go's int64: wrap-around, and the remainder that takes the sign of the dividend.
use tenpm_uptime_monitor.Prelude.{
  ℕ, suc, ◌+◌, ◌-◌, ◌%◌, ◌^◌, ◌≤◌, ◌<◌, ◌≡◌, arith, ltb, if◌then◌else◌,
}
use tenpm_uptime_monitor.Prelude.Int.{ℤ, pos, negsuc, sub_ℕ, pos_part, neg_part}

-- The signed value of a 64-bit pattern.
signed : ℕ → ℤ
signed m = if ltb m (2 ^ 63) then pos m else negsuc (2 ^ 64 - 1 - m)

-- The int64 that an exact result wraps to.
unfoldable pub wrap64 : ℤ → ℤ
unfolding signed
wrap64 (pos n) = signed (n % 2 ^ 64)
wrap64 (negsuc n) = signed (2 ^ 64 - 1 - n % 2 ^ 64)

-- a % n on int64. Go panics at n = 0, which no caller reaches.
unfoldable pub rem64 : ℤ → ℤ → ℤ
rem64 (pos a) n = pos (a % (pos_part n + neg_part n))
rem64 (negsuc a) n = sub_ℕ 0 (suc a % (pos_part n + neg_part n))

abbrev pub IsInt64 : ℤ → Type 0
IsInt64 z = (pos_part z < 2 ^ 63) × (neg_part z ≤ 2 ^ 63)

-- A result in range does not wrap.
pub wrap64_of_IsInt64 : (z : ℤ) → IsInt64 z → wrap64 z ≡ z
unfolding wrap64
wrap64_of_IsInt64 (pos n) h = ground arith
wrap64_of_IsInt64 (negsuc n) h = ground arith
