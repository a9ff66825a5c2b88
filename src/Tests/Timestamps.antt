-- ===== src/Tests/Timestamps.antt =====
-- Two instants of one second, the first without a fraction.
use tenpm_uptime_monitor.Prelude.{ℕ, ◌^◌, ◌<◌, ◌≡◌, arith}
use tenpm_uptime_monitor.Prelude.Text.{text_before}
use tenpm_uptime_monitor.Model.Timestamp.{Civil, format_civil}
use tenpm_uptime_monitor.Model.Timestamp.Order.{InLayout, not_after, format_civil-Chronological}

abbrev whole : Civil
whole = record {
  year = 2026;
  month = 7;
  day = 8;
  hour = 23;
  minute = 33;
  second = 36;
  nanosecond = 0;
}

abbrev half : Civil
half = record whole { nanosecond = 500000000 }

fits : (nanosecond : ℕ) → nanosecond < 10 ^ 9 → InLayout (record whole { nanosecond = nanosecond })
fits nanosecond h = record {
  year = omega arith;
  month = omega arith;
  day = omega arith;
  hour = omega arith;
  minute = omega arith;
  second = omega arith;
  nanosecond = h;
}

format_civil-Chronological_example :
    text_before (format_civil whole) (format_civil half) ≡ not_after whole half
format_civil-Chronological_example =
    format_civil-Chronological whole half (fits 0 (omega arith)) (fits 500000000 (omega arith))
