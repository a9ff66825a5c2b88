-- ===== src/Runner/Reconcile/Stopped.antt =====
-- The goroutines of a run of Run: at most one for a check, and none after it.
use tenpm_uptime_monitor.Prelude.{ℕ, ◌≤◌}
use tenpm_uptime_monitor.Model.Check.{Check}
use tenpm_uptime_monitor.Runner.Reconcile.{Scheduled}
use tenpm_uptime_monitor.Runner.Reconcile.Balance.{running}

-- No check is scheduled twice.
abbrev Single : Scheduled → Type 0
Single s = (id : ℕ) → running id s ≤ 1
