-- ===== src/Reporter/Drain.antt =====
-- The loop of reportOnce: it ends, it accounts for every result, and it drains the backlog when
-- nothing fails.
pub mod Round
use tenpm_uptime_monitor.Reporter.Drain.Round.{
  batch, round_unlisted, round_empty, round_unposted, round_last, round_next,
}
use mathlib.Core.List.{flatten, append_assoc, append-nil}
use tenpm_uptime_monitor.Prelude.{
  ℕ, zero, suc, ◌≤◌, ◌<◌, ◌≡◌, refl, ap, ◌∙◌, ◌≢◌, ◌⊎◌, inl, inr, Bool, true, false, not, ◌&&◌,
  List, [], ◌∷◌, ◌++◌, length, map, take, drop, ltb, ltb→lt, arith, Bool-cases, All,
  take-append-drop, drop_of_length-lt, length-drop-lt, length-take,
}
use tenpm_uptime_monitor.Model.Check.{Result}
use tenpm_uptime_monitor.Store.Tables.{Db, ok, err, Faults, db_fault}
use tenpm_uptime_monitor.Store.Buffer.{list_unsent, mark_sent}
use tenpm_uptime_monitor.Store.Buffer.Backlog.{backlog, ids_of, mark_sent-backlog}
use tenpm_uptime_monitor.Store.Valid.{IsValid}
use tenpm_uptime_monitor.Reporter.{
  report_batch_size, drained, store_failed, post_failed, out_of_fuel, Rounds, Reported, is_empty,
  report_rounds, report_once,
}

-- What the rounds from one on have done, when MarkSent is not refused.
record Accounted (env : Rounds) (first : Bool) (db : Db) (r : Reported) : Type 0 where
  accounted : flatten r.confirmed ++ backlog r.db ≡ backlog db
  ended : r.outcome ≢ out_of_fuel
  capped : All (λ b. length b ≤ report_batch_size) r.confirmed
  valid : IsValid r.db
  emptied : r.outcome ≡ drained → backlog r.db ≡ []
  fine :
      ((n : ℕ) → env.list_faults n 0 ≡ false)
      → ((n : ℕ) (results : List Result) → env.posted n results ≡ true)
      → (r.outcome ≡ drained) × (first ≡ true → r.confirmed ≢ [])

batch-le : (db : Db) → length (batch db) ≤ report_batch_size
batch-le db = omega (arith, length-take report_batch_size (backlog db))

backlog_of_empty : (db : Db) → is_empty (batch db) ≡ true → backlog db ≡ []
backlog_of_empty db h = empty_of_take (backlog db) h
  where
    empty_of_take : (xs : List (ℕ × Result)) → is_empty (take report_batch_size xs) ≡ true → xs ≡ []
    empty_of_take [] h = refl
    empty_of_take (x ∷ xs) h = cc

module _ (env : Rounds) (mark_fine : (n : ℕ) → env.mark_faults n 0 ≡ false) where
  stopped-Accounted :
      (n : ℕ) (first : Bool) (db : Db) (r : Reported)
      → r.db ≡ db
      → r.confirmed ≡ []
      → IsValid db
      → (((r.outcome ≡ store_failed db_fault) × (env.list_faults n 0 ≡ true))
          ⊎ ((r.outcome ≡ post_failed)
              × ((results : List Result) × (env.posted n results ≡ false))))
      → Accounted env first db r
  unfolding flatten
  stopped-Accounted n first db r same none v why = record {
    accounted = rw (none, same) refl;
    ended = λ e. ground arith;
    capped = rw none tt;
    valid = rw same v;
    emptied = λ e. absurd (ground arith);
    fine = λ lists posts. elim why [
      | inl (e, unlisted) ↦ absurd (ground (arith, lists n, unlisted))
      | inr (e, (results, unposted)) ↦ absurd (ground (arith, posts n results, unposted))
    ];
  }

  module _ (first : Bool) (db db' : Db) (rest : backlog db' ≡ drop report_batch_size (backlog db))
      (v' : IsValid db') where
    last-Accounted :
        ltb (length (batch db)) report_batch_size ≡ true
        → Accounted env first db (record { outcome = drained; db = db'; confirmed = batch db ∷ [] })
    unfolding flatten
    last-Accounted short =
        let empty : backlog db' ≡ [] =
          rest ∙ drop_of_length-lt report_batch_size (backlog db) (ltb→lt _ _ short) in
        record {
          accounted =
              rw (append-nil (batch db), rest) (take-append-drop report_batch_size (backlog db));
          ended = λ e. cc;
          capped = (batch-le db, tt);
          valid = v';
          emptied = λ _. empty;
          fine = λ lists posts. (refl, λ _ e. cc);
        }

    next-Accounted :
        (r : Reported)
        → Accounted env false db' r
        → Accounted env first db (record r { confirmed = batch db ∷ r.confirmed })
    unfolding flatten
    next-Accounted r a = record {
      accounted =
          append_assoc (batch db) (flatten r.confirmed) (backlog r.db)
          ∙ ap (◌++◌ (batch db)) (a.accounted ∙ rest)
          ∙ take-append-drop report_batch_size (backlog db);
      ended = a.ended;
      capped = (batch-le db, a.capped);
      valid = a.valid;
      emptied = a.emptied;
      fine = λ lists posts. ((a.fine lists posts).0, λ _ e. cc);
    }

  report_rounds-Accounted :
      (fuel n : ℕ) (first : Bool) (db : Db)
      → IsValid db
      → length (backlog db) < fuel
      → Accounted env first db (report_rounds env fuel n first db)
  unfolding flatten
  report_rounds-Accounted zero n first db v h = absurd (omega arith)
  report_rounds-Accounted (suc fuel) n first db v h = elim (Bool-cases (env.list_faults n 0)) [
    | inl bad ↦
        rw (round_unlisted env fuel n first db bad)
          (stopped-Accounted n first db _ refl refl v (inl (refl, bad)))
    | inr listed ↦ elim (Bool-cases (is_empty (batch db) && not first)) [
      | inl none ↦
          rw (round_empty env fuel n first db listed (ground arith) (ground arith)) (record {
            accounted = refl;
            ended = λ e. cc;
            capped = tt;
            valid = v;
            emptied = λ e. backlog_of_empty db (ground arith);
            fine = λ lists posts. (refl, λ e. absurd (ground arith));
          })
      | inr go_on ↦ elim (Bool-cases (env.posted n (map (λ e. e.1) (batch db)))) [
        | inr bad ↦
            rw (round_unposted env fuel n first db listed go_on bad)
              (stopped-Accounted n first db _ refl refl v (inr (refl, (_, bad))))
        | inl posted ↦
            let (db', marked, rest, v') =
              mark_sent-backlog (env.mark_faults n) report_batch_size db v (mark_fine n) in
            elim (Bool-cases (ltb (length (batch db)) report_batch_size)) [
              | inl short ↦
                  rw (round_last env fuel n first db listed go_on posted db' marked short)
                    (last-Accounted first db db' rest v' short)
              | inr full ↦
                  let fewer : length (backlog db') < length (backlog db) =
                    rw rest (
                      length-drop-lt report_batch_size (backlog db) (omega arith) (ground arith)) in
                  rw (round_next env fuel n first db listed go_on posted db' marked full) (
                    next-Accounted first db db' rest v' _
                      (report_rounds-Accounted fuel (suc n) false db' v' (omega arith)))
            ]
      ]
    ]
  ]

-- While MarkSent is not refused, reportOnce on a valid database ends with fuel above the length of
-- the backlog, whatever the server and the reads do; it sends at most 500 results at a time, and the
-- results that the server confirmed, in their order, followed by the backlog that is left, are the
-- backlog at the start: no result is lost, repeated or reordered.
pub report_once-accounted :
    (env : Rounds) (fuel : ℕ) (db : Db)
    → ((n : ℕ) → env.mark_faults n 0 ≡ false)
    → IsValid db
    → length (backlog db) < fuel
    → let r = report_once env fuel db in
      (r.outcome ≢ out_of_fuel)
      × (flatten r.confirmed ++ backlog r.db ≡ backlog db)
      × All (λ b. length b ≤ report_batch_size) r.confirmed
unfolding report_once
report_once-accounted env fuel db mark_fine v h =
    let a = report_rounds-Accounted env mark_fine fuel 0 true db v h in
    (a.ended, a.accounted, a.capped)

-- When neither SQLite nor the server refuses anything, reportOnce on a valid database, with fuel above
-- the length of the backlog, leaves no backlog, and it has called the server at least once, also with
-- nothing to report.
pub report_once-drained :
    (env : Rounds) (fuel : ℕ) (db : Db)
    → ((n : ℕ) → env.list_faults n 0 ≡ false)
    → ((n : ℕ) (results : List Result) → env.posted n results ≡ true)
    → ((n : ℕ) → env.mark_faults n 0 ≡ false)
    → IsValid db
    → length (backlog db) < fuel
    → let r = report_once env fuel db in
      (r.outcome ≡ drained) × (backlog r.db ≡ []) × (r.confirmed ≢ [])
unfolding report_once
report_once-drained env fuel db lists posts mark_fine v h =
    let a = report_rounds-Accounted env mark_fine fuel 0 true db v h in
    let (done, called) = a.fine lists posts in (done, a.emptied done, called refl)

-- What the loop of Run needs of one report.
pub report_once-IsValid :
    (env : Rounds) (fuel : ℕ) (db : Db)
    → ((n : ℕ) → env.mark_faults n 0 ≡ false)
    → IsValid db
    → length (backlog db) < fuel
    → IsValid (report_once env fuel db).db
unfolding report_once
report_once-IsValid env fuel db mark_fine v h =
    (report_rounds-Accounted env mark_fine fuel 0 true db v h).valid
