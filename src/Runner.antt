-- ===== src/Runner.antt =====
-- monitor/runner.go: execute and the status transitions. Everything around an execution that the
-- runner does not decide is its World; an execution is one step of the runner.
pub mod Recording
pub mod StoredForm
pub mod Reconcile
pub mod Loop
use tenpm_uptime_monitor.Prelude.{
  ℕ, Bool, true, false, not, ◌&&◌, ◌||◌, Option, none, some, [], if◌then◌else◌, ◌==◌,
}
use tenpm_uptime_monitor.Prelude.Int.{ℤ, pos, leb_ℤ, eq_ℤ}
use tenpm_uptime_monitor.Prelude.Text.{Text, same}
use tenpm_uptime_monitor.Model.Check.{Check, Result, Time}
use tenpm_uptime_monitor.Model.Verdict.{invert_passed}
use tenpm_uptime_monitor.Model.Content.{truncate_content}
use tenpm_uptime_monitor.Store.Tables.{Db, Res, ok, err, Faults}
use tenpm_uptime_monitor.Store.Buffer.{buffer_result}
use tenpm_uptime_monitor.Gate.{Gate, verify}

-- DefaultRunnerConcurrency
abbrev pub default_runner_concurrency : ℤ
default_runner_concurrency = pos 20

-- The state that executions share: the gate, if there is one; the map lastStatus; whether a signal
-- waits in flushCh, which has room for one, if it is wired; and the database.
pub record Runner : Type 0 where
  pub gate : Option Gate
  pub last_status : ℕ → Option Bool
  pub flush_ch : Option Bool
  pub sem_capacity : ℤ
  pub db : Db

-- NewRunner, before flushCh is wired.
unfoldable pub new_runner : Db → Option Gate → ℤ → Runner
new_runner db gate max_concurrent = record {
  gate = gate;
  last_status = λ id. none;
  flush_ch = none;
  sem_capacity =
      if leb_ℤ max_concurrent (pos 0) then default_runner_concurrency else max_concurrent;
  db = db;
}

abbrev pub is_some_of : Bool → Option Bool → Bool
is_some_of b none = false
is_some_of b (some c) = if c then b else not b

-- checkStatusTransition: whether this is a transition, and the map after it.
unfoldable pub check_status_transition : ℕ → Bool → (ℕ → Option Bool) → Bool × (ℕ → Option Bool)
check_status_transition id success last_status = (
  not (is_some_of success (last_status id)),
  λ k. if k == id then some success else last_status k,
)

-- forgetStatus
unfoldable pub forget_status : ℕ → (ℕ → Option Bool) → ℕ → Option Bool
forget_status id last_status k = if k == id then none else last_status k

-- triggerFlush
unfoldable pub trigger_flush : Option Bool → Option Bool
trigger_flush none = none
trigger_flush (some pending) = some true

-- isTransportFailure
unfoldable pub is_transport_failure : Result → Bool
is_transport_failure r = not r.success && eq_ℤ r.http_status (pos 0) && same r.response_sample []

-- What happens around one execution: whether the semaphore is acquired before the context ends, what
-- the checker returns, what a probe would find and when, and what SQLite refuses.
pub record World : Type 0 where
  pub acquired : Bool
  pub checker : Check → Result
  pub reachable : Bool
  pub now : Time
  pub to_valid_utf8 : Text → Text
  pub faults : Faults

-- Whether a gate, if there is one, lets checks run.
unfoldable pub gate_online : Option Gate → Bool
gate_online none = true
gate_online (some g) = g.online

-- The condition that discards a result: whether it does, and the gate after it.
unfoldable pub discards : World → Result → Option Gate → Bool × Option Gate
discards w raw none = (false, none)
discards w raw (some g) =
    if is_transport_failure raw
    then (let (reachable, g') = verify w.reachable w.now g in (not reachable, some g'))
    else (false, some g)

-- The result that is buffered.
unfoldable pub buffered_form : World → Check → Result → Result
buffered_form w c raw =
    let (success, error) = invert_passed c raw.success raw.error in
    record raw {
      success = success;
      error = truncate_content w.to_valid_utf8 error c.result_detail_max_chars;
      response_sample =
          truncate_content w.to_valid_utf8 raw.response_sample c.result_detail_max_chars;
    }

-- execute from BufferResult on.
unfoldable pub record_result : World → Check → Result → Runner → Runner
unfolding check_status_transition
record_result w c buffered r =
    let (stored, db') = buffer_result w.faults buffered r.db in
    elim stored [
      | err e ↦ record r { db = db' }
      | ok _ ↦
          let (transition, last_status') =
            check_status_transition c.id buffered.success r.last_status in
          record r {
            db = db';
            last_status = last_status';
            flush_ch = if transition then trigger_flush r.flush_ch else r.flush_ch;
          }
    ]

-- execute
unfoldable pub execute : World → Check → Runner → Runner
unfolding gate_online discards buffered_form record_result
execute w c r =
    if not (gate_online r.gate)
    then r
    else if not w.acquired
    then r
    else let raw = w.checker c in
      let (discarded, gate') = discards w raw r.gate in
      if discarded
      then record r { gate = gate' }
      else record_result w c (buffered_form w c raw) (record r { gate = gate' })
