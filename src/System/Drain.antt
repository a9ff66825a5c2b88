-- ===== src/System/Drain.antt =====
-- That the backlog can always be uploaded: steps of the reporter alone, from every reachable state in
-- which it rests.
use mathlib.Core.List.{flatten, append-nil}
use tenpm_uptime_monitor.Prelude.{
  ℕ, zero, suc, ◌<◌, ◌≡◌, refl, ap, ◌∙◌, sym, ◌++◌, Bool, true, false, List, [], length, arith,
}
use tenpm_uptime_monitor.Prelude.Int.{ℤ}
use tenpm_uptime_monitor.Model.Check.{Headers, Result}
use tenpm_uptime_monitor.Store.Tables.{Db}
use tenpm_uptime_monitor.Store.Headers.{Codec}
use tenpm_uptime_monitor.Store.Buffer.Backlog.{backlog}
use tenpm_uptime_monitor.Store.Valid.{IsValid}
use tenpm_uptime_monitor.Client.{Client, replied, post_results}
use tenpm_uptime_monitor.Reporter.{drained, report_once}
use tenpm_uptime_monitor.Reporter.Drain.{report_once-accounted, report_once-drained}
use tenpm_uptime_monitor.Runner.{Runner}
use tenpm_uptime_monitor.System.{System, reported_system, by_timer, report, Reach}
use tenpm_uptime_monitor.System.Threads.{
  resting, listing, posting, marking, purging, ended, ReportWorld,
}
use tenpm_uptime_monitor.System.Alone.Steps.{
  RoundWorld, Progress, go_on_reporting, rounds_alone, rounds_of, is_replied,
}
use tenpm_uptime_monitor.System.Alone.Reports.{rounds_alone-report_rounds}
use tenpm_uptime_monitor.System.Flush.{Steps, stay, more}
use tenpm_uptime_monitor.System.Valid.{Reach-IsValid}

-- The state with what the reporter has come to.
abbrev with_progress : System → Progress → System
with_progress s (phase, db, taken) = record s {
  runner = record s.runner { db = db };
  reporter = phase;
  confirmed = taken;
}

module _ (codec : Codec) (same_headers : Headers → Headers → Bool) (client : Client) where
  abbrev StepsTo : System → System → Type 0
  StepsTo = Steps codec same_headers client

  go_on-Steps :
      (w : ReportWorld) (s t : System) (p : Progress)
      → StepsTo s (with_progress t p)
      → StepsTo s (with_progress t (go_on_reporting client w p))
  unfolding go_on_reporting reported_system
  go_on-Steps w s t (resting, db, taken) path = path
  go_on-Steps w s t (listing last first, db, taken) path = more path (report w)
  go_on-Steps w s t (posting last rows, db, taken) path = more path (report w)
  go_on-Steps w s t (marking last rows, db, taken) path = more path (report w)
  go_on-Steps w s t (purging, db, taken) path = path
  go_on-Steps w s t (ended, db, taken) path = path

  rounds_alone-Steps :
      (ws : ℕ → RoundWorld) (fuel n : ℕ) (s t : System) (p : Progress)
      → StepsTo s (with_progress t p)
      → StepsTo s (with_progress t (rounds_alone client ws fuel n p))
  unfolding rounds_alone
  rounds_alone-Steps ws zero n s t p path = path
  rounds_alone-Steps ws (suc fuel) n s t p path = rounds_alone-Steps ws fuel (suc n) s t _ (
      go_on-Steps (ws n).at_mark s t _
        (go_on-Steps (ws n).at_post s t _ (go_on-Steps (ws n).at_list s t p path)))

-- SQLite refuses neither ListUnsent nor MarkSent, and the server takes every batch.
pub record Serves (client : Client) (ws : ℕ → RoundWorld) : Type 0 where
  pub lists : (n : ℕ) → (ws n).at_list.faults 0 ≡ false
  pub marks : (n : ℕ) → (ws n).at_mark.faults 0 ≡ false
  pub takes :
      (n : ℕ) (results : List Result)
      → (k : ℤ) × (post_results (ws n).at_post.server client results (ws n).at_post.interval_sec
          ≡ replied k)

once-drained :
    (client : Client) (ws : ℕ → RoundWorld) (fuel : ℕ) (db : Db)
    → Serves client ws
    → IsValid db
    → length (backlog db) < fuel
    → ((report_once (rounds_of client ws) fuel db).outcome ≡ drained)
      × (backlog (report_once (rounds_of client ws) fuel db).db ≡ [])
      × (flatten (report_once (rounds_of client ws) fuel db).confirmed ≡ backlog db)
unfolding rounds_of is_replied
once-drained client ws fuel db fine v lt =
    let (done, empty, called) =
      report_once-drained (rounds_of client ws) fuel db fine.lists
        (λ n results. let (k, took) = fine.takes n results in rw took refl) fine.marks v lt in
    let (in_time, accounted, capped) =
      report_once-accounted (rounds_of client ws) fuel db fine.marks v lt in
    (
      done,
      empty,
      sym (append-nil _)
          ∙ ap (λ l. flatten (report_once (rounds_of client ws) fuel db).confirmed ++ l) (sym empty)
          ∙ accounted,
    )

-- From every state that the agent reaches from a valid database, and in which the reporter rests, there
-- is a run after which the server has taken the whole backlog of that state, in its order, nothing is
-- left of it, and the executions are where they were, if SQLite refuses none of the reporter's
-- statements and the server takes what it posts.
pub Reach-can_drain :
    (codec : Codec) (same_headers : Headers → Headers → Bool) (client : Client) (r : Runner)
    (s : System) (ws : ℕ → RoundWorld)
    → IsValid r.db
    → Reach codec same_headers client r s
    → s.reporter ≡ resting
    → Serves client ws
    → (t : System) × Steps codec same_headers client s t
      × (t.confirmed ≡ s.confirmed ++ backlog s.runner.db)
      × (backlog t.runner.db ≡ [])
      × (t.reporter ≡ purging)
      × (t.executions ≡ s.executions)
unfolding report_once
Reach-can_drain codec same_headers client r s ws v reached rests fine =
    let fuel = suc (length (backlog s.runner.db)) in
    let (done, empty, taken) =
      once-drained client ws fuel s.runner.db fine
        (Reach-IsValid codec same_headers client v reached) (omega arith) in
    let left =
      rounds_alone-report_rounds client ws fuel 0 false true s.runner.db s.confirmed
        (λ stuck. ground (arith, done, stuck)) in
    let end = rounds_alone client ws fuel 0 (listing false true, s.runner.db, s.confirmed) in
    (
      with_progress s end,
      rounds_alone-Steps codec same_headers client ws fuel 0 s s
          (listing false true, s.runner.db, s.confirmed) (more stay (by_timer rests)),
      ap (λ p. p.2) left ∙ ap (◌++◌ s.confirmed) taken,
      ap (λ p. backlog p.1) left ∙ empty,
      ap (λ p. p.0) left,
      refl,
    )
