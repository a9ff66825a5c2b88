-- ===== src/Reporter.antt =====
-- monitor/reporter.go: reportOnce and Run. The server's replies and SQLite's refusals are sequences, one
-- place for each round of the loop; the loop takes fuel.
pub mod Drain
pub mod Run
use tenpm_uptime_monitor.Prelude.{
  ℕ, zero, suc, Bool, true, false, not, ◌&&◌, List, [], ◌∷◌, ◌++◌, map, length, ltb, if◌then◌else◌,
}
use tenpm_uptime_monitor.Model.Check.{Result, Time}
use tenpm_uptime_monitor.Store.Tables.{Db, StoreError, Res, ok, err, Faults}
use tenpm_uptime_monitor.Store.Buffer.{list_unsent, mark_sent, purge_sent_older_than}

-- reportBatchSize
abbrev pub report_batch_size : ℕ
report_batch_size = 500

pub data Outcome : Type 0 where
  drained : Outcome
  store_failed : StoreError → Outcome
  post_failed : Outcome
  out_of_fuel : Outcome

-- What the surroundings do in the n-th round: SQLite at ListUnsent and at MarkSent, and whether
-- PostResults returns no error for the results that it is given.
pub record Rounds : Type 0 where
  pub list_faults : ℕ → Faults
  pub posted : ℕ → List Result → Bool
  pub mark_faults : ℕ → Faults

-- How the call ended, the database that it left, and the batches that the server confirmed.
pub record Reported : Type 0 where
  pub outcome : Outcome
  pub db : Db
  pub confirmed : List (List (ℕ × Result))

abbrev pub is_empty {ℓ} : {A : Type ℓ} → List A → Bool
is_empty [] = true
is_empty (x ∷ xs) = false

-- The loop of reportOnce from its n-th round on.
unfoldable pub report_rounds : Rounds → ℕ → ℕ → Bool → Db → Reported
report_rounds env zero n first db = record { outcome = out_of_fuel; db = db; confirmed = [] }
report_rounds env (suc fuel) n first db =
    elim (list_unsent (env.list_faults n) report_batch_size db) [
      | err e ↦ record { outcome = store_failed e; db = db; confirmed = [] }
      | ok rows ↦
          if is_empty rows && not first
          then record { outcome = drained; db = db; confirmed = [] }
          else if not (env.posted n (map (λ e. e.1) rows))
          then record { outcome = post_failed; db = db; confirmed = [] }
          else let (marked, db') = mark_sent (env.mark_faults n) (map (λ e. e.0) rows) db in
            elim marked [
              | err e ↦ record { outcome = store_failed e; db = db'; confirmed = rows ∷ [] }
              | ok _ ↦
                  let rest = report_rounds env fuel (suc n) false db' in
                  if ltb (length rows) report_batch_size
                  then record { outcome = drained; db = db'; confirmed = rows ∷ [] }
                  else record rest { confirmed = rows ∷ rest.confirmed }
            ]
    ]

-- reportOnce
unfoldable pub report_once : Rounds → ℕ → Db → Reported
unfolding report_rounds
report_once env fuel db = report_rounds env fuel 0 true db

-- A turn of Run: what the report meets, what SQLite refuses at the purge, and the cutoff.
pub record Turn : Type 0 where
  pub rounds : Rounds
  pub purge_faults : Faults
  pub cutoff : Time

-- Run after a wake-up by the timer or by flushCh, whichever it is; errors are only logged.
unfoldable pub reporter_turn : ℕ → Turn → Db → Reported
unfolding report_once
reporter_turn fuel turn db =
    let reported = report_once turn.rounds fuel db in
    record reported { db = (purge_sent_older_than turn.purge_faults turn.cutoff reported.db).1 }

-- finalDrain
unfoldable pub final_drain : ℕ → Rounds → Db → Reported
unfolding report_once
final_drain fuel rounds db = report_once rounds fuel db

-- Run until the context ends: before each turn, and before the last drain, the database changes as
-- `meanwhile` says, which is what the agent's other loops do to it.
unfoldable pub reporter_run :
    ℕ → List ((Db → Db) × Turn) → (Db → Db) × Rounds → Db → List (List (ℕ × Result)) × Db
unfolding reporter_turn final_drain
reporter_run fuel [] (meanwhile, rounds) db =
    let last = final_drain fuel rounds (meanwhile db) in (last.confirmed, last.db)
reporter_run fuel ((meanwhile, turn) ∷ turns) end db =
    let this = reporter_turn fuel turn (meanwhile db) in
    let (confirmed, db') = reporter_run fuel turns end this.db in (this.confirmed ++ confirmed, db')
