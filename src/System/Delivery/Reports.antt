-- ===== src/System/Delivery/Reports.antt =====
-- The steps of monitor/reporter.go keep the books of results_buffer.
use mathlib.Core.List.{Memᴰ}
use mathlib.Core.List.Memᴰ
use mathlib.Core.Path.{subst}
use tenpm_uptime_monitor.Prelude.{
  ℕ, ◌≡◌, refl, sym, inl, inr, Bool, true, false, not, ◌&&◌, List, [], ◌∷◌, ◌++◌, map, arith, take,
  length, keep_if, Bool-cases, if◌then◌else◌, ltb,
}
use tenpm_uptime_monitor.Prelude.Int.{ltb_ℤ}
use tenpm_uptime_monitor.Model.Check.{Result}
use tenpm_uptime_monitor.Store.Tables.{Buffered, Db, ok, Res-cases, Faults}
use tenpm_uptime_monitor.Store.Buffer.{
  list_unsent, unsent_joined, mark_sent, set_sent, purge_sent_older_than,
}
use tenpm_uptime_monitor.Client.{Client, Reply-cases, post_results}
use tenpm_uptime_monitor.Reporter.{report_batch_size, is_empty}
use tenpm_uptime_monitor.System.Threads.{
  Reporting, resting, listing, posting, marking, purging, ended, ReportWorld, after_report,
  reporter_step,
}
use tenpm_uptime_monitor.System.Rows.{IsEntry, Memᴰ-take}
use tenpm_uptime_monitor.System.Delivery.Statements.{
  Account, delete-Account, take-Account, mark-Account, listed-IsEntry,
}

-- What the reporter holds: before PostResults entries of stored rows, after it what the server took.
abbrev pub Holds : List Buffered → List (ℕ × Result) → Reporting → Type 0
Holds stored confirmed (posting last rows) = (e : ℕ × Result) → Memᴰ e rows → IsEntry stored e
Holds stored confirmed (marking last rows) = (e : ℕ × Result) → Memᴰ e rows → Memᴰ e confirmed
Holds stored confirmed resting = Unit
Holds stored confirmed (listing last first) = Unit
Holds stored confirmed purging = Unit
Holds stored confirmed ended = Unit

pub record Books (initial stored : List Buffered) (db : Db) (confirmed : List (ℕ × Result))
    (phase : Reporting) : Type 0 where
  pub account : Account initial stored db.results_seq db.results confirmed
  pub holds : Holds stored confirmed phase

list_unsent-rows :
    (faults : Faults) (db : Db) (rows : List (ℕ × Result))
    → list_unsent faults report_batch_size db ≡ ok rows
    → rows ≡ take report_batch_size (unsent_joined db.checks db.results)
unfolding list_unsent
list_unsent-rows faults db rows h = elim (Bool-cases (faults 0)) [
  | inl refused ↦ absurd (ground (arith, h, refused))
  | inr fine ↦ ground (arith, h, fine)
]

after_report-Holds :
    (stored : List Buffered) (confirmed : List (ℕ × Result)) (last : Bool)
    → Holds stored confirmed (after_report last)
after_report-Holds stored confirmed true = tt
after_report-Holds stored confirmed false = tt

next-Holds :
    (stored : List Buffered) (confirmed : List (ℕ × Result)) (last short : Bool)
    → Holds stored confirmed (if short then after_report last else listing last false)
next-Holds stored confirmed last true = after_report-Holds stored confirmed last
next-Holds stored confirmed last false = tt

module _ (initial stored : List Buffered) (confirmed : List (ℕ × Result)) (db : Db) where
  -- The books after a step of the reporter.
  abbrev Reported : Reporting × Db × List (ℕ × Result) → Type 0
  Reported (phase, db', taken) = Books initial stored db' (confirmed ++ taken) phase

  module _ (c : Client) (w : ReportWorld)
      (a : Account initial stored db.results_seq db.results confirmed) where
    over : (last : Bool) → Reported (after_report last, db, [])
    over last = record {
      account = take-Account _ _ _ _ _ a [] (λ e m. absurd (Memᴰ.not-nil m));
      holds = after_report-Holds stored (confirmed ++ []) last;
    }

    list-Books : (last first : Bool) → Reported (reporter_step c w (listing last first) db)
    unfolding reporter_step
    list-Books last first = elim (Res-cases (list_unsent w.faults report_batch_size db)) [
      | inr (e, h) ↦
          let same : reporter_step c w (listing last first) db ≡ (after_report last, db, []) =
            ground (arith, h) in
          subst Reported (sym same) (over last)
      | inl (rows, h) ↦ elim (Bool-cases (is_empty rows && not first)) [
        | inl empty ↦
            let same : reporter_step c w (listing last first) db ≡ (after_report last, db, []) =
              ground (arith, h, empty) in
            subst Reported (sym same) (over last)
        | inr some_rows ↦
            let same : reporter_step c w (listing last first) db ≡ (posting last rows, db, []) =
              ground (arith, h, some_rows) in
            subst Reported (sym same) (record {
              account = (over true).account;
              holds = λ e m. listed-IsEntry _ _ _ _ _ a db.checks (
                  Memᴰ-take report_batch_size _
                    (subst (Memᴰ e) (list_unsent-rows w.faults db rows h) m));
            })
      ]
    ]

    post-Books :
        (last : Bool) (rows : List (ℕ × Result))
        → Holds stored confirmed (posting last rows)
        → Reported (reporter_step c w (posting last rows) db)
    unfolding reporter_step
    post-Books last rows entries =
        elim (Reply-cases (post_results w.server c (map (λ e. e.1) rows) w.interval_sec)) [
          | inr (e, h) ↦
              let same : reporter_step c w (posting last rows) db ≡ (after_report last, db, []) =
                ground (arith, h) in
              subst Reported (sym same) (over last)
          | inl (n, h) ↦
              let same : reporter_step c w (posting last rows) db ≡ (marking last rows, db, rows) =
                ground (arith, h) in
              subst Reported (sym same) (record {
                account = take-Account _ _ _ _ _ a rows entries;
                holds = λ e m. Memᴰ.append_right confirmed m;
              })
        ]

    mark-Books :
        (last : Bool) (rows : List (ℕ × Result))
        → Holds stored confirmed (marking last rows)
        → Reported (reporter_step c w (marking last rows) db)
    unfolding reporter_step mark_sent
    mark-Books last [] taken = over last
    mark-Books last (e ∷ rows) taken = elim (Bool-cases (w.faults 0)) [
      | inl refused ↦
          let same : reporter_step c w (marking last (e ∷ rows)) db ≡ (after_report last, db, []) =
            ground (arith, refused) in
          subst Reported (sym same) (over last)
      | inr fine ↦
          let ids = map (λ e. e.0) (e ∷ rows) in
          let next : Reporting =
            if ltb (length (e ∷ rows)) report_batch_size
            then after_report last
            else listing last false in
          let same : reporter_step c w (marking last (e ∷ rows)) db
              ≡ (next, record db { results = set_sent ids db.results }, []) =
            ground (arith, fine) in
          subst Reported (sym same) (record {
            account =
                take-Account _ _ _ _ _ (mark-Account _ _ _ _ _ a (e ∷ rows) taken) []
                  (λ e m. absurd (Memᴰ.not-nil m));
            holds = next-Holds stored _ last (ltb (length (e ∷ rows)) report_batch_size);
          })
    ]

    purge-Books : Reported (reporter_step c w purging db)
    unfolding reporter_step purge_sent_older_than
    purge-Books = elim (Bool-cases (w.faults 0)) [
      | inl refused ↦
          let same : reporter_step c w purging db ≡ (resting, db, []) = ground (arith, refused) in
          subst Reported (sym same) (record { account = (over true).account; holds = tt })
      | inr fine ↦
          let p : Buffered → Bool = λ b. not (b.sent && ltb_ℤ b.ran_at w.cutoff.sec) in
          let same : reporter_step c w purging db
              ≡ (resting, record db { results = keep_if p db.results }, []) =
            ground (arith, fine) in
          subst Reported (sym same) (record {
            account =
                take-Account _ _ _ _ _ (delete-Account _ _ _ _ _ a p (λ b unsent. rw unsent refl))
                  [] (λ e m. absurd (Memᴰ.not-nil m));
            holds = tt;
          })
    ]

    pub report-Books :
        (phase : Reporting) → Holds stored confirmed phase → Reported (reporter_step c w phase db)
    unfolding reporter_step
    report-Books resting h = record { account = (over true).account; holds = tt }
    report-Books (listing last first) h = list-Books last first
    report-Books (posting last rows) h = post-Books last rows h
    report-Books (marking last rows) h = mark-Books last rows h
    report-Books purging h = purge-Books
    report-Books ended h = over true
