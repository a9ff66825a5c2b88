-- ===== src/Reporter/Drain/Round.antt =====
-- A round of reportOnce, by what happens in it.
use tenpm_uptime_monitor.Prelude.{
  ℕ, suc, ◌≡◌, Bool, true, false, not, ◌&&◌, List, [], ◌∷◌, length, map, take, ltb, arith,
}
use tenpm_uptime_monitor.Model.Check.{Result}
use tenpm_uptime_monitor.Store.Tables.{Db, ok, err, Faults, db_fault}
use tenpm_uptime_monitor.Store.Buffer.{list_unsent, mark_sent}
use tenpm_uptime_monitor.Store.Buffer.Backlog.{backlog, ids_of}
use tenpm_uptime_monitor.Reporter.{
  report_batch_size, drained, store_failed, post_failed, Rounds, Reported, is_empty, report_rounds,
}

-- The batch of a round.
abbrev pub batch : Db → List (ℕ × Result)
batch db = take report_batch_size (backlog db)

list_unsent-batch :
    (faults : Faults) (db : Db)
    → faults 0 ≡ false
    → list_unsent faults report_batch_size db ≡ ok (batch db)
unfolding list_unsent
list_unsent-batch faults db fine = rw fine

list_unsent-fault :
    (faults : Faults) (db : Db)
    → faults 0 ≡ true
    → list_unsent faults report_batch_size db ≡ err db_fault
unfolding list_unsent
list_unsent-fault faults db bad = rw bad

-- One round, by what happens in it; `fuel` is what is left for the next.
module _ (env : Rounds) (fuel n : ℕ) (first : Bool) (db : Db) where
  abbrev pub this : Reported
  this = report_rounds env (suc fuel) n first db

  pub round_unlisted :
      env.list_faults n 0 ≡ true
      → this ≡ record { outcome = store_failed db_fault; db = db; confirmed = [] }
  unfolding report_rounds
  round_unlisted bad = ground (arith, list_unsent-fault (env.list_faults n) db bad)

  module _ (listed : env.list_faults n 0 ≡ false) where
    pub round_empty :
        is_empty (batch db) ≡ true
        → first ≡ false
        → this ≡ record { outcome = drained; db = db; confirmed = [] }
    unfolding report_rounds
    round_empty none later = ground (arith, list_unsent-batch (env.list_faults n) db listed)

    module _ (go_on : (is_empty (batch db) && not first) ≡ false) where
      pub round_unposted :
          env.posted n (map (λ e. e.1) (batch db)) ≡ false
          → this ≡ record { outcome = post_failed; db = db; confirmed = [] }
      unfolding report_rounds
      round_unposted bad = ground (arith, list_unsent-batch (env.list_faults n) db listed)

      module _ (posted : env.posted n (map (λ e. e.1) (batch db)) ≡ true) (db' : Db)
          (marked : mark_sent (env.mark_faults n) (ids_of (batch db)) db ≡ (ok tt, db')) where
        pub round_last :
            ltb (length (batch db)) report_batch_size ≡ true
            → this ≡ record { outcome = drained; db = db'; confirmed = batch db ∷ [] }
        unfolding report_rounds
        round_last short = ground (arith, list_unsent-batch (env.list_faults n) db listed)

        pub round_next :
            ltb (length (batch db)) report_batch_size ≡ false
            → this ≡ (
                let rest = report_rounds env fuel (suc n) false db' in
                record rest { confirmed = batch db ∷ rest.confirmed })
        unfolding report_rounds
        round_next full = ground (arith, list_unsent-batch (env.list_faults n) db listed)
