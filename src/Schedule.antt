-- ===== src/Schedule.antt =====
-- monitor/schedule.go: the epoch-anchored round-robin schedule of a check. An int64 is an integer
-- that each operation wraps.
pub mod Words
pub mod Grid
pub mod Rotation
use Prim.Native.Nat.{bit_xor}
use tenpm_uptime_monitor.Prelude.{ℕ, ◌*◌, ◌%◌, ◌^◌, Bool, List, [], ◌∷◌, if◌then◌else◌}
use tenpm_uptime_monitor.Prelude.Int.{ℤ, pos, leb_ℤ, ltb_ℤ, eq_ℤ, ◌+ℤ◌, ◌-ℤ◌, ◌*ℤ◌}
use tenpm_uptime_monitor.Prelude.Text.{Text}
use tenpm_uptime_monitor.Model.Check.{Check, Time}
use tenpm_uptime_monitor.Schedule.Words.{wrap64, rem64}

-- effectiveIntervalSeconds
unfoldable pub effective_interval_seconds : Check → ℤ
effective_interval_seconds c =
    let n = if ltb_ℤ c.monitor_count (pos 1) then pos 1 else c.monitor_count in
    wrap64 (c.interval_sec *ℤ n)

-- The loop of hash/fnv's Write for the 32-bit FNV-1a hash.
fnv32a_from : ℕ → Text → ℕ
fnv32a_from h [] = h
fnv32a_from h (b ∷ s) = fnv32a_from ((bit_xor h b * 16777619) % 2 ^ 32) s

-- fnv.New32a, Write and Sum32.
unfoldable pub fnv32a : Text → ℕ
unfolding fnv32a_from
fnv32a s = fnv32a_from 2166136261 s

-- mod64
unfoldable pub mod64 : ℤ → ℤ → ℤ
mod64 a n = let m = rem64 a n in if ltb_ℤ m (pos 0) then wrap64 (m +ℤ n) else m

-- checkPhaseSeconds
unfoldable pub check_phase_seconds : Check → ℤ → ℤ
check_phase_seconds c effective_interval =
    if leb_ℤ effective_interval (pos 0)
    then pos 0
    else let rank_offset = wrap64 (c.monitor_rank *ℤ c.interval_sec) in
      let hash_offset = rem64 (pos (fnv32a c.guid)) effective_interval in
      mod64 (wrap64 (rank_offset +ℤ hash_offset)) effective_interval

-- nextSlotAfter
unfoldable pub next_slot_after : Time → ℤ → ℤ → Time
next_slot_after now phase effective_interval =
    if leb_ℤ effective_interval (pos 0)
    then now
    else let rem = mod64 (wrap64 (now.sec -ℤ phase)) effective_interval in
      if eq_ℤ rem (pos 0)
      then now
      else record { sec = wrap64 (now.sec +ℤ wrap64 (effective_interval -ℤ rem)); nsec = 0 }
