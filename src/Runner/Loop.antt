-- ===== src/Runner/Loop.antt =====
-- monitor/runner.go: scheduleLoop. The executions are the readings of the clock after each of them, up
-- to the cancellation; the loop that skips missed slots takes fuel, and reads the clock once.
pub mod Grid
use tenpm_uptime_monitor.Prelude.{
  ℕ, zero, suc, ◌+◌, ◌-◌, ◌*◌, ◌/◌, ◌%◌, Bool, true, false, ◌&&◌, ◌||◌, Option, none, some, List,
  [], ◌∷◌, if◌then◌else◌, ltb, ◌==◌,
}
use tenpm_uptime_monitor.Prelude.Int.{ℤ, pos, negsuc, leb_ℤ, ltb_ℤ, eq_ℤ, ◌+ℤ◌, ◌-ℤ◌, ◌*ℤ◌}
use tenpm_uptime_monitor.Model.Check.{Check, Time}
use tenpm_uptime_monitor.Schedule.{effective_interval_seconds, check_phase_seconds, next_slot_after}
use tenpm_uptime_monitor.Schedule.Words.{wrap64}

-- time.Second, in nanoseconds.
abbrev pub second : ℕ
second = 1000000000

-- Time.After
unfoldable pub after : Time → Time → Bool
after t u = ltb_ℤ u.sec t.sec || (eq_ℤ t.sec u.sec && ltb u.nsec t.nsec)

-- Time.Add, of a Duration in nanoseconds.
unfoldable pub add_time : Time → ℤ → Time
add_time t (pos n) = record {
  sec = t.sec +ℤ pos ((t.nsec + n) / second);
  nsec = (t.nsec + n) % second;
}
add_time t (negsuc n) =
    let back = (suc n + (second - 1)) / second in
    let left = t.nsec + (back * second - suc n) in
    record { sec = (t.sec -ℤ pos back) +ℤ pos (left / second); nsec = left % second }

-- The step of the loop, as a Duration.
unfoldable pub loop_step : ℤ → ℤ
loop_step effective_interval =
    let step = wrap64 (effective_interval *ℤ pos second) in
    if leb_ℤ step (pos 0) then pos second else step

-- The rest of the loop that skips missed slots: `t` until it is after `now`.
unfoldable pub skip_to_future : ℕ → Time → ℤ → Time → Option Time
skip_to_future zero now step t = none
skip_to_future (suc fuel) now step t =
    let later = skip_to_future fuel now step (add_time t step) in
    if after t now then some t else later

-- The loop that advances `next`.
unfoldable pub advance : ℕ → Time → ℤ → Time → Option Time
unfolding skip_to_future
advance fuel now step next = skip_to_future fuel now step (add_time next step)

-- The main loop: the slots at which the check is executed.
unfoldable pub executed_slots : ℕ → ℤ → Time → List Time → Option (List Time)
unfolding advance
executed_slots fuel step next [] = some []
executed_slots fuel step next (now ∷ readings) = elim (advance fuel now step next) [
  | none ↦ none
  | some next' ↦ elim (executed_slots fuel step next' readings) [
    | none ↦ none
    | some slots ↦ some (next ∷ slots)
  ]
]

-- scheduleLoop: whether the check is executed at once, and the slots at which it is executed then.
unfoldable pub schedule_loop : ℕ → Check → Bool → Time → List Time → Bool × Option (List Time)
schedule_loop fuel c run_immediately now readings =
    let effective_interval = effective_interval_seconds c in
    let phase = check_phase_seconds c effective_interval in
    (
      run_immediately,
      executed_slots fuel (loop_step effective_interval)
          (next_slot_after now phase effective_interval) readings,
    )
