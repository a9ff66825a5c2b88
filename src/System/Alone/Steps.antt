-- ===== src/System/Alone/Steps.antt =====
-- The steps of the reporter in one reportOnce that nothing comes between, one after another.
use mathlib.Core.List.{append-nil}
use tenpm_uptime_monitor.Prelude.{
  ℕ, zero, suc, ◌≡◌, refl, sym, ap, ◌∙◌, Bool, true, false, List, [], ◌++◌,
}
use tenpm_uptime_monitor.Model.Check.{Result}
use tenpm_uptime_monitor.Store.Tables.{Db}
use tenpm_uptime_monitor.Client.{Client, Reply, replied, failed_call, post_results}
use tenpm_uptime_monitor.Reporter.{Rounds}
use tenpm_uptime_monitor.System.Threads.{
  Reporting, resting, listing, posting, marking, purging, ended, ReportWorld, after_report,
  reporter_step,
}

-- What the three steps of a round meet.
pub record RoundWorld : Type 0 where
  pub at_list : ReportWorld
  pub at_post : ReportWorld
  pub at_mark : ReportWorld

-- Where the reporter is, the database, and what the server took so far.
abbrev pub Progress : Type 0
Progress = Reporting × Db × List (ℕ × Result)

-- A step, if reportOnce is not over.
unfoldable pub go_on_reporting : Client → ReportWorld → Progress → Progress
go_on_reporting c w (listing last first, db, taken) =
    let (phase, db', more) = reporter_step c w (listing last first) db in
    (phase, db', taken ++ more)
go_on_reporting c w (posting last rows, db, taken) =
    let (phase, db', more) = reporter_step c w (posting last rows) db in (phase, db', taken ++ more)
go_on_reporting c w (marking last rows, db, taken) =
    let (phase, db', more) = reporter_step c w (marking last rows) db in (phase, db', taken ++ more)
go_on_reporting c w (resting, db, taken) = (resting, db, taken)
go_on_reporting c w (purging, db, taken) = (purging, db, taken)
go_on_reporting c w (ended, db, taken) = (ended, db, taken)

-- The rounds from the n-th on: three steps each, until reportOnce is over.
unfoldable pub rounds_alone : Client → (ℕ → RoundWorld) → ℕ → ℕ → Progress → Progress
rounds_alone c ws zero n p = p
rounds_alone c ws (suc fuel) n p = rounds_alone c ws fuel (suc n) (
    go_on_reporting c (ws n).at_mark
      (go_on_reporting c (ws n).at_post (go_on_reporting c (ws n).at_list p)))

unfoldable pub is_replied : {A : Type 0} → Reply A → Bool
is_replied (replied a) = true
is_replied (failed_call e) = false

-- The same surroundings, as reportOnce is given them.
unfoldable pub rounds_of : Client → (ℕ → RoundWorld) → Rounds
unfolding is_replied
rounds_of c ws = record {
  list_faults = λ n. (ws n).at_list.faults;
  posted = λ n results.
      is_replied (post_results (ws n).at_post.server c results (ws n).at_post.interval_sec);
  mark_faults = λ n. (ws n).at_mark.faults;
}

-- A report that is over stays so.
over-go_on :
    (c : Client) (w : ReportWorld) (last : Bool) (db : Db) (taken : List (ℕ × Result))
    → go_on_reporting c w (after_report last, db, taken) ≡ (after_report last, db, taken)
unfolding go_on_reporting
over-go_on c w true db taken = refl
over-go_on c w false db taken = refl

pub over-rounds :
    (c : Client) (ws : ℕ → RoundWorld) (fuel n : ℕ) (last : Bool) (db : Db)
    (taken : List (ℕ × Result))
    → rounds_alone c ws fuel n (after_report last, db, taken) ≡ (after_report last, db, taken)
unfolding rounds_alone
over-rounds c ws zero n last db taken = refl
over-rounds c ws (suc fuel) n last db taken =
    ap
      (λ p.
        rounds_alone c ws fuel (suc n)
          (go_on_reporting c (ws n).at_mark (go_on_reporting c (ws n).at_post p)))
      (over-go_on c (ws n).at_list last db taken)
    ∙ ap (λ p. rounds_alone c ws fuel (suc n) (go_on_reporting c (ws n).at_mark p))
        (over-go_on c (ws n).at_post last db taken)
    ∙ ap (rounds_alone c ws fuel (suc n)) (over-go_on c (ws n).at_mark last db taken)
    ∙ over-rounds c ws fuel (suc n) last db taken

-- A step by what reporter_step does.
module _ (c : Client) (w : ReportWorld) (db : Db) (taken : List (ℕ × Result)) where
  go_on-listing :
      (last first : Bool) (phase : Reporting)
      → reporter_step c w (listing last first) db ≡ (phase, db, [])
      → go_on_reporting c w (listing last first, db, taken) ≡ (phase, db, taken)
  unfolding go_on_reporting
  go_on-listing last first phase e =
      ap (λ s. (s.0, s.1, taken ++ s.2)) e ∙ ap (λ l. (phase, db, l)) (append-nil taken)

  go_on-posting :
      (last : Bool) (rows : List (ℕ × Result)) (phase : Reporting) (more : List (ℕ × Result))
      → reporter_step c w (posting last rows) db ≡ (phase, db, more)
      → go_on_reporting c w (posting last rows, db, taken) ≡ (phase, db, taken ++ more)
  unfolding go_on_reporting
  go_on-posting last rows phase more e = ap (λ s. (s.0, s.1, taken ++ s.2)) e

  go_on-marking :
      (last : Bool) (rows : List (ℕ × Result)) (phase : Reporting) (db' : Db)
      → reporter_step c w (marking last rows) db ≡ (phase, db', [])
      → go_on_reporting c w (marking last rows, db, taken) ≡ (phase, db', taken)
  unfolding go_on_reporting
  go_on-marking last rows phase db' e =
      ap (λ s. (s.0, s.1, taken ++ s.2)) e ∙ ap (λ l. (phase, db', l)) (append-nil taken)

module _ (c : Client) (ws : ℕ → RoundWorld) (fuel n : ℕ) (last first : Bool) (db : Db)
    (taken : List (ℕ × Result)) where
  abbrev pub Here : Progress
  Here = rounds_alone c ws (suc fuel) n (listing last first, db, taken)

  from_list :
      (phase : Reporting)
      → reporter_step c (ws n).at_list (listing last first) db ≡ (phase, db, [])
      → Here
        ≡ rounds_alone c ws fuel
            (suc n)
            (go_on_reporting c (ws n).at_mark (go_on_reporting c (ws n).at_post (phase, db, taken)))
  unfolding rounds_alone
  from_list phase e =
      ap
        (λ p.
          rounds_alone c ws fuel (suc n)
            (go_on_reporting c (ws n).at_mark (go_on_reporting c (ws n).at_post p)))
        (go_on-listing c (ws n).at_list db taken last first phase e)

  from_post :
      (rows more : List (ℕ × Result)) (phase : Reporting)
      → reporter_step c (ws n).at_list (listing last first) db ≡ (posting last rows, db, [])
      → reporter_step c (ws n).at_post (posting last rows) db ≡ (phase, db, more)
      → Here
        ≡ rounds_alone c ws fuel
            (suc n)
            (go_on_reporting c (ws n).at_mark (phase, db, taken ++ more))
  from_post rows more phase e e' =
      from_list (posting last rows) e
      ∙ ap (λ p. rounds_alone c ws fuel (suc n) (go_on_reporting c (ws n).at_mark p))
          (go_on-posting c (ws n).at_post db taken last rows phase more e')

  -- The report is over after ListUnsent, after PostResults or after MarkSent.
  pub over_at_list :
      reporter_step c (ws n).at_list (listing last first) db ≡ (after_report last, db, [])
      → Here ≡ (after_report last, db, taken ++ [])
  over_at_list e =
      from_list (after_report last) e
      ∙ ap (λ p. rounds_alone c ws fuel (suc n) (go_on_reporting c (ws n).at_mark p))
          (over-go_on c (ws n).at_post last db taken)
      ∙ ap (rounds_alone c ws fuel (suc n)) (over-go_on c (ws n).at_mark last db taken)
      ∙ over-rounds c ws fuel (suc n) last db taken
      ∙ ap (λ l. (after_report last, db, l)) (sym (append-nil taken))

  pub over_at_post :
      (rows : List (ℕ × Result))
      → reporter_step c (ws n).at_list (listing last first) db ≡ (posting last rows, db, [])
      → reporter_step c (ws n).at_post (posting last rows) db ≡ (after_report last, db, [])
      → Here ≡ (after_report last, db, taken ++ [])
  over_at_post rows e e' =
      from_post rows [] (after_report last) e e'
      ∙ ap (rounds_alone c ws fuel (suc n)) (over-go_on c (ws n).at_mark last db (taken ++ []))
      ∙ over-rounds c ws fuel (suc n) last db (taken ++ [])

  pub from_mark :
      (rows : List (ℕ × Result)) (phase : Reporting) (db' : Db)
      → reporter_step c (ws n).at_list (listing last first) db ≡ (posting last rows, db, [])
      → reporter_step c (ws n).at_post (posting last rows) db ≡ (marking last rows, db, rows)
      → reporter_step c (ws n).at_mark (marking last rows) db ≡ (phase, db', [])
      → Here ≡ rounds_alone c ws fuel (suc n) (phase, db', taken ++ rows)
  from_mark rows phase db' e e' e'' =
      from_post rows rows (marking last rows) e e'
      ∙ ap (rounds_alone c ws fuel (suc n))
          (go_on-marking c (ws n).at_mark db (taken ++ rows) last rows phase db' e'')
