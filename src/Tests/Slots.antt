-- ===== src/Tests/Slots.antt =====
-- The schedule of the sample check, which three monitors share.
use tenpm_uptime_monitor.Prelude.{ℕ, ◌+◌, ◌<◌, ◌≡◌, refl, arith}
use tenpm_uptime_monitor.Prelude.Int.{pos}
use tenpm_uptime_monitor.Model.Check.{Time}
use tenpm_uptime_monitor.Schedule.{next_slot_after, fnv32a}
use tenpm_uptime_monitor.Schedule.Grid.{Congruent, IsNextSlot, next_slot_after-IsNextSlot}
use tenpm_uptime_monitor.Schedule.Rotation.{phase_at, slot_has_one_owner}
use tenpm_uptime_monitor.Tests.Samples.{sample_check}

abbrev start : Time
start = record { sec = pos 1000; nsec = 5 }

next_slot_after-IsNextSlot_example :
    IsNextSlot (pos 1000) 7 180 (next_slot_after start (pos 7) (pos 180)).sec
next_slot_after-IsNextSlot_example =
    next_slot_after-IsNextSlot start 7 180 (omega arith) (omega arith) (omega arith)
      (omega arith, omega arith)

-- A second of the check's own grid.
abbrev second : ℕ
second = fnv32a sample_check.guid + 60

slot_has_one_owner_example :
    (r : ℕ) × (r < 3)
    × Congruent 180 (pos second) (phase_at sample_check r)
    × ((r' : ℕ) → r' < 3 → Congruent 180 (pos second) (phase_at sample_check r') → r ≡ r')
slot_has_one_owner_example =
    slot_has_one_owner sample_check 60 3 refl refl (omega arith) (omega arith) (omega arith) second
      (0, 1, omega arith)
