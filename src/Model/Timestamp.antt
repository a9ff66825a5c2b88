-- ===== src/Model/Timestamp.antt =====
-- model/model.go: FormatTimestamp. The date and the time of day of an instant in UTC, which package
-- time computes, are a parameter.
pub mod Order
use tenpm_uptime_monitor.Prelude.{
  ℕ, zero, suc, ◌+◌, ◌/◌, ◌%◌, ◌^◌, [], ◌∷◌, ◌++◌, ltb, if◌then◌else◌,
}
use tenpm_uptime_monitor.Prelude.Text.{Text, show_ℕ}
use tenpm_uptime_monitor.Model.Check.{Time}

pub record Civil : Type 0 where
  pub year : ℕ
  pub month : ℕ
  pub day : ℕ
  pub hour : ℕ
  pub minute : ℕ
  pub second : ℕ
  pub nanosecond : ℕ

-- The last w digits of a number.
unfoldable pub last_digits : ℕ → ℕ → Text
last_digits zero n = []
last_digits (suc w) n = last_digits w (n / 10) ++ (48 + n % 10) ∷ []

-- A number in decimal, with zeros in front up to the width w.
unfoldable pub padded : ℕ → ℕ → Text
unfolding last_digits
padded w n = let digits = show_ℕ n in if ltb n (10 ^ w) then last_digits w n else digits

-- Format with TimestampLayout, in UTC.
unfoldable pub format_civil : Civil → Text
unfolding padded
format_civil c =
    padded 4 c.year
    ++ b'-' ∷ padded 2 c.month
    ++ b'-' ∷ padded 2 c.day
    ++ b'T' ∷ padded 2 c.hour
    ++ b':' ∷ padded 2 c.minute
    ++ b':' ∷ padded 2 c.second
    ++ b'.' ∷ padded 9 c.nanosecond
    ++ b'Z' ∷ []

-- FormatTimestamp
unfoldable pub format_timestamp : (Time → Civil) → Time → Text
unfolding format_civil
format_timestamp utc t = format_civil (utc t)
