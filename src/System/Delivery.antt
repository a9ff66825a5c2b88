-- ===== src/System/Delivery.antt =====
-- What becomes of every row of results_buffer, however the goroutines of the agent interleave.
pub mod Statements
pub mod Reports
use mathlib.Core.List.{append-nil}
use mathlib.Core.Path.{subst}
use tenpm_uptime_monitor.Prelude.{
  ℕ, suc, ◌≡◌, refl, sym, ap, ◌∙◌, ◌⊎◌, inl, inr, Bool, true, false, not, ◌&&◌, List, [], ◌∷◌, ◌++◌,
  map, arith, take, drop, length, keep_if, Bool-cases, Option, none, some, Option-cases,
  if◌then◌else◌, ltb,
}
use tenpm_uptime_monitor.Prelude.Text.{text_dec}
use tenpm_uptime_monitor.Model.Check.{Check, Headers, Result, Time}
use tenpm_uptime_monitor.Store.Tables.{Buffered, Db, Res, ok, err, Res-cases, Faults}
use tenpm_uptime_monitor.Store.Headers.{Codec, encode_headers}
use tenpm_uptime_monitor.Store.Buffer.{insert_result}
use tenpm_uptime_monitor.Store.Delta.{apply_checks_delta}
use tenpm_uptime_monitor.Store.Import.{import_private_check}
use tenpm_uptime_monitor.Store.Mirror.Sync.{
  Atomic, committed, rolled_back, Synced, apply_checks_delta-Atomic,
}
use tenpm_uptime_monitor.Store.Valid.{IsValid}
use tenpm_uptime_monitor.Client.{Client}
use tenpm_uptime_monitor.Runner.{Runner, World}
use tenpm_uptime_monitor.System.{
  System, arrivals, with_db, executed_system, synced_system, Step, gate_tick, list_checks,
  reconcile_checks, enter, acquire, give_up, go_on, sync, by_timer, by_flush, at_end, report,
  import_check, Reach, start, later, reported_system, ticked_system, reconciled_system,
}
use tenpm_uptime_monitor.System.Threads.{
  Execution, running, resolving, inserting, recording, flushing, execution_step, Syncing, idle,
  asking, applying, syncer_step, Reporting, resting, listing, posting, marking, purging, ended,
}
use tenpm_uptime_monitor.System.Rows.{drop-length, drop-length-append}
use tenpm_uptime_monitor.System.Delivery.Statements.{
  Account, Account-initial, insert-Account, take-Account, IsEntry-append,
}
use tenpm_uptime_monitor.System.Delivery.Reports.{Holds, Books, report-Books}

-- What leaves the results and their counter as they are.
pub record SameResults (db db' : Db) : Type 0 where
  pub results : db'.results ≡ db.results
  pub seq : db'.results_seq ≡ db.results_seq

Atomic-SameResults :
    {codec : Codec} {faults : Faults} {checks : List Check} {server_time : Time} {db : Db}
    {out : Res (Unit {0}) × Db}
    → Atomic db (Synced codec faults checks server_time db) out
    → SameResults db out.1
Atomic-SameResults (committed h) = record { results = h.results; seq = h.results_seq }
Atomic-SameResults rolled_back = record { results = refl; seq = refl }

import-SameResults :
    (codec : Codec) (faults : Faults) (c : Check) (db : Db)
    → SameResults db (import_private_check codec faults c db).1
unfolding import_private_check
import-SameResults codec faults c db = elim (text_dec c.guid []) [
  | yes e ↦
      let same : (import_private_check codec faults c db).1 ≡ db = ground arith in
      rw same (record { results = refl; seq = refl })
  | no ne ↦ elim (Res-cases (encode_headers codec c.headers)) [
    | inr (x, enc) ↦
        let same : (import_private_check codec faults c db).1 ≡ db = ground arith in
        rw same (record { results = refl; seq = refl })
    | inl (h, enc) ↦ elim (Bool-cases (faults 0)) [
      | inl refused ↦ record { results = ground arith; seq = ground arith }
      | inr fine ↦ record { results = ground arith; seq = ground arith }
    ]
  ]
]

syncer-SameResults :
    (codec : Codec) (c : Client) (w : _) (phase : Syncing) (db : Db)
    → SameResults db (syncer_step codec c w phase db).1
unfolding syncer_step
syncer-SameResults codec c w idle db = record { results = refl; seq = refl }
syncer-SameResults codec c w (asking since) db = record { results = refl; seq = refl }
syncer-SameResults codec c w (applying since server_time checks) db =
    Atomic-SameResults (apply_checks_delta-Atomic codec w.write_faults checks server_time db)

Books-same :
    {initial stored : List Buffered} {db : Db} {confirmed : List (ℕ × Result)} {phase : Reporting}
    (db' : Db)
    → SameResults db db'
    → Books initial stored db confirmed phase
    → Books initial stored db' confirmed phase
Books-same {initial} {stored} {db} {confirmed} db' same b = record {
  account =
      subst (λ n. Account initial stored n db'.results confirmed) (sym same.seq)
        (subst (λ rows. Account initial stored db.results_seq rows confirmed) (sym same.results)
          b.account);
  holds = b.holds;
}

arrivals-same : (db db' : Db) → SameResults db db' → arrivals db db' ≡ []
arrivals-same db db' same = rw same.results (drop-length db.results)

module _ (initial stored : List Buffered) (confirmed : List (ℕ × Result)) (phase : Reporting) where
  -- The books of a call that may add rows.
  abbrev After : Db → Db → Type 0
  After db db' = Books initial (stored ++ arrivals db db') db' confirmed phase

  After-quiet : (db db' : Db) → db' ≡ db → Books initial stored db confirmed phase → After db db'
  After-quiet db db' e b =
      let none_new : stored ++ arrivals db db ≡ stored =
        ap (◌++◌ stored) (arrivals-same db db (record { results = refl; seq = refl }))
        ∙ append-nil stored in
      subst (After db) (sym e)
        (subst (λ rows. Books initial rows db confirmed phase) (sym none_new) b)

  Holds-append :
      (p : Reporting) (more : List Buffered)
      → Holds stored confirmed p
      → Holds (stored ++ more) confirmed p
  Holds-append resting more h = tt
  Holds-append (listing last first) more h = tt
  Holds-append (posting last rows) more h = λ e m. IsEntry-append stored more (h e m)
  Holds-append (marking last rows) more h = h
  Holds-append purging more h = tt
  Holds-append ended more h = tt

  After-insert :
      (id : ℕ) (b : Result) (db : Db)
      → Books initial stored db confirmed phase
      → After db (insert_result id b db)
  unfolding insert_result
  After-insert id b db books = rw (drop-length-append db.results) (record {
    account = insert-Account _ _ _ _ _ books.account _ refl refl;
    holds = Holds-append phase _ books.holds;
  })

  execution-After :
      (w : World) (e : Execution) (r : Runner)
      → Books initial stored r.db confirmed phase
      → After r.db (execution_step w e r).1.db
  unfolding execution_step
  execution-After w (running c) r b = After-quiet r.db r.db refl b
  execution-After w (resolving c res) r b = After-quiet r.db r.db refl b
  execution-After w (recording c res) r b = After-quiet r.db r.db refl b
  execution-After w flushing r b = After-quiet r.db r.db refl b
  execution-After w (inserting c res id) r b = elim (Bool-cases (w.faults 1)) [
    | inl refused ↦ After-quiet r.db _ (rw refused refl) b
    | inr fine ↦
        let same : (execution_step w (inserting c res id) r).1.db ≡ insert_result id res r.db =
          rw fine refl in
        subst (After r.db) (sym same) (After-insert id res r.db b)
  ]

module _ (codec : Codec) (same_headers : Headers → Headers → Bool) (client : Client)
    (initial : List Buffered) where
  abbrev Kept : System → Type 0
  Kept s = Books initial s.stored s.runner.db s.confirmed s.reporter

  Step-Kept : {s t : System} → Step codec same_headers client s t → Kept s → Kept t
  unfolding ticked_system executed_system reported_system synced_system reconciled_system
  Step-Kept (gate_tick reachable now) b = b
  Step-Kept (list_checks faults checks h e) b = b
  Step-Kept (reconcile_checks checks h) b = b
  Step-Kept (enter c m h) b = b
  Step-Kept (acquire c cs cs' h room) b = b
  Step-Kept (give_up c cs cs' h) b = b
  Step-Kept {s} (go_on w e es es' h) b =
      execution-After initial s.stored s.confirmed s.reporter w e s.runner b
  Step-Kept {s} (sync w) b = Books-same _ (syncer-SameResults codec client w s.syncer s.runner.db) b
  Step-Kept (by_timer h) b = record { account = b.account; holds = tt }
  Step-Kept (by_flush h pending) b = record { account = b.account; holds = tt }
  Step-Kept (at_end h) b = record { account = b.account; holds = tt }
  Step-Kept {s} (report w) b =
      report-Books initial s.stored s.confirmed s.runner.db client w b.account s.reporter b.holds
  Step-Kept {s} (import_check faults c) b =
      Books-same _ (import-SameResults codec faults c s.runner.db) b

  Reach-Kept :
      {r : Runner} {s : System}
      → r.db.results ≡ initial
      → IsValid r.db
      → Reach codec same_headers client r s
      → Kept s
  Reach-Kept {r} e v start =
      subst (λ rows. Books rows r.db.results r.db [] resting) e
        (record { account = Account-initial r.db.results r.db.results_seq v.keyed; holds = tt })
  Reach-Kept e v (later reached step) = Step-Kept step (Reach-Kept e v reached)

-- From a valid database, however the loops, the executions and imports interleave, and whatever SQLite
-- refuses, the server answers and the probes find: a row that was ever stored unsent is still in
-- results_buffer, unsent and unchanged, or the server took its result under its key; a row that stands
-- as sent did so at the start, or the server took it; and whatever the server took is the result of a
-- row that was stored.
pub Reach-Account :
    (codec : Codec) (same_headers : Headers → Headers → Bool) (client : Client) (r : Runner)
    (s : System)
    → IsValid r.db
    → Reach codec same_headers client r s
    → Account r.db.results s.stored s.runner.db.results_seq s.runner.db.results s.confirmed
Reach-Account codec same_headers client r s v reached =
    (Reach-Kept codec same_headers client r.db.results refl v reached).account
