-- ===== src/System/Alone/Reports.antt =====
-- The steps of the reporter in one reportOnce that nothing comes between do what it does.
use mathlib.Core.List.{flatten, append_assoc, append-nil}
use tenpm_uptime_monitor.Prelude.{
  ℕ, zero, suc, ◌≡◌, ◌≢◌, refl, sym, ap, ◌∙◌, Bool, true, false, not, ◌&&◌, List, [], ◌∷◌, ◌++◌,
  map, arith, length, ltb, Bool-cases, inl, inr,
}
use tenpm_uptime_monitor.Prelude.Int.{ℤ}
use tenpm_uptime_monitor.Model.Check.{Result}
use tenpm_uptime_monitor.Store.Tables.{Db, StoreError, ok, err, Res-cases}
use tenpm_uptime_monitor.Store.Buffer.{list_unsent, mark_sent}
use tenpm_uptime_monitor.Client.{Client, replied, Reply-cases, post_results}
use tenpm_uptime_monitor.Reporter.{
  report_batch_size, drained, store_failed, post_failed, out_of_fuel, Rounds, Reported, is_empty,
  report_rounds, report_once,
}
use tenpm_uptime_monitor.System.Threads.{listing, posting, marking, after_report, reporter_step}
use tenpm_uptime_monitor.System.Alone.Steps.{
  RoundWorld, Progress, rounds_alone, rounds_of, is_replied, over-rounds, over_at_list,
  over_at_post, from_mark,
}

-- What a report leaves, as the reporter holds it.
abbrev pub Left : Bool → List (ℕ × Result) → Reported → Progress
Left last taken r = (after_report last, r.db, taken ++ flatten r.confirmed)

module _ (c : Client) (ws : ℕ → RoundWorld) where
  abbrev Env : Rounds
  Env = rounds_of c ws

  -- The steps do what reportOnce does from its n-th round on, and from the next one on.
  abbrev Agrees : ℕ → ℕ → Bool → Bool → Db → List (ℕ × Result) → Type 0
  Agrees fuel n last first db taken =
      (report_rounds Env fuel n first db).outcome ≢ out_of_fuel
      → rounds_alone c ws fuel n (listing last first, db, taken)
        ≡ Left last taken (report_rounds Env fuel n first db)

  abbrev Later : ℕ → ℕ → Type 0
  Later fuel n =
      (last first : Bool) (db : Db) (taken : List (ℕ × Result))
      → Agrees fuel (suc n) last first db taken

  -- A round that marks its batch, by whether it was the last one.
  marked-report :
      (fuel n : ℕ) (last first : Bool) (db db' : Db) (taken rows : List (ℕ × Result))
      → Later fuel n
      → list_unsent (Env.list_faults n) report_batch_size db ≡ ok rows
      → (is_empty rows && not first) ≡ false
      → Env.posted n (map (λ e. e.1) rows) ≡ true
      → mark_sent (Env.mark_faults n) (map (λ e. e.0) rows) db ≡ (ok tt, db')
      → reporter_step c (ws n).at_list (listing last first) db ≡ (posting last rows, db, [])
      → reporter_step c (ws n).at_post (posting last rows) db ≡ (marking last rows, db, rows)
      → Agrees (suc fuel) n last first db taken
  unfolding reporter_step report_rounds rounds_of is_replied flatten
  marked-report fuel n last first db db' taken rows next e some_rows took marked e1 e2 ends =
      elim (Bool-cases (ltb (length rows) report_batch_size)) [
        | inl short ↦
            let here : report_rounds Env (suc fuel) n first db
                ≡ record { outcome = drained; db = db'; confirmed = rows ∷ [] } =
              ground (arith, e, some_rows, took, marked, short) in
            let e3 : reporter_step c (ws n).at_mark (marking last rows) db
                ≡ (after_report last, db', []) =
              ground (arith, marked, short) in
            from_mark c ws fuel n last first db taken rows (after_report last) db' e1 e2 e3
            ∙ over-rounds c ws fuel (suc n) last db' (taken ++ rows)
            ∙ ap (λ l. (after_report last, db', taken ++ l)) (sym (append-nil rows))
            ∙ ap (Left last taken) (sym here)
        | inr full ↦
            let rest = report_rounds Env fuel (suc n) false db' in
            let here : report_rounds Env (suc fuel) n first db
                ≡ record rest { confirmed = rows ∷ rest.confirmed } =
              ground (arith, e, some_rows, took, marked, full) in
            let e3 : reporter_step c (ws n).at_mark (marking last rows) db
                ≡ (listing last false, db', []) =
              ground (arith, marked, full) in
            from_mark c ws fuel n last first db taken rows (listing last false) db' e1 e2 e3
            ∙ next last false db' (taken ++ rows) (λ o. ends (ap (λ r. r.outcome) here ∙ o))
            ∙ ap (λ l. (after_report last, rest.db, l))
                (append_assoc taken rows (flatten rest.confirmed))
            ∙ ap (Left last taken) (sym here)
      ]

  -- A round whose batch MarkSent does not mark.
  unmarked-report :
      (fuel n : ℕ) (last first : Bool) (db db' : Db) (taken rows : List (ℕ × Result))
      (x : StoreError)
      → list_unsent (Env.list_faults n) report_batch_size db ≡ ok rows
      → (is_empty rows && not first) ≡ false
      → Env.posted n (map (λ e. e.1) rows) ≡ true
      → mark_sent (Env.mark_faults n) (map (λ e. e.0) rows) db ≡ (err x, db')
      → reporter_step c (ws n).at_list (listing last first) db ≡ (posting last rows, db, [])
      → reporter_step c (ws n).at_post (posting last rows) db ≡ (marking last rows, db, rows)
      → rounds_alone c ws (suc fuel) n (listing last first, db, taken)
        ≡ Left last taken (report_rounds Env (suc fuel) n first db)
  unfolding reporter_step report_rounds rounds_of is_replied flatten
  unmarked-report fuel n last first db db' taken rows x e some_rows took unmarked e1 e2 =
      let here : report_rounds Env (suc fuel) n first db
          ≡ record { outcome = store_failed x; db = db'; confirmed = rows ∷ [] } =
        ground (arith, e, some_rows, took, unmarked) in
      let e3 : reporter_step c (ws n).at_mark (marking last rows) db
          ≡ (after_report last, db', []) =
        ground (arith, unmarked) in
      from_mark c ws fuel n last first db taken rows (after_report last) db' e1 e2 e3
      ∙ over-rounds c ws fuel (suc n) last db' (taken ++ rows)
      ∙ ap (λ l. (after_report last, db', taken ++ l)) (sym (append-nil rows))
      ∙ ap (Left last taken) (sym here)

  -- A round whose batch the server took.
  taken-report :
      (fuel n : ℕ) (last first : Bool) (db : Db) (taken rows : List (ℕ × Result)) (k : ℤ)
      → Later fuel n
      → list_unsent (ws n).at_list.faults report_batch_size db ≡ ok rows
      → (is_empty rows && not first) ≡ false
      → post_results (ws n).at_post.server c (map (λ e. e.1) rows) (ws n).at_post.interval_sec
        ≡ replied k
      → reporter_step c (ws n).at_list (listing last first) db ≡ (posting last rows, db, [])
      → Agrees (suc fuel) n last first db taken
  unfolding reporter_step report_rounds rounds_of is_replied flatten
  taken-report fuel n last first db taken rows k next e some_rows e' e1 ends =
      let e2 : reporter_step c (ws n).at_post (posting last rows) db
          ≡ (marking last rows, db, rows) =
        ground (arith, e') in
      let took : Env.posted n (map (λ e. e.1) rows) ≡ true = rw e' refl in
      elim (Res-cases (mark_sent (ws n).at_mark.faults (map (λ e. e.0) rows) db).0) [
        | inr (x, e'') ↦
            unmarked-report fuel n last first db
              (mark_sent (ws n).at_mark.faults (map (λ e. e.0) rows) db).1 taken rows x e some_rows
              took (ap (λ r. (r, (mark_sent (ws n).at_mark.faults (map (λ e. e.0) rows) db).1)) e'')
              e1 e2
        | inl (t, e'') ↦
            marked-report fuel n last first db
              (mark_sent (ws n).at_mark.faults (map (λ e. e.0) rows) db).1 taken rows next e
              some_rows took
              (ap (λ r. (r, (mark_sent (ws n).at_mark.faults (map (λ e. e.0) rows) db).1)) e'') e1
              e2 ends
      ]

  pub rounds_alone-report_rounds :
      (fuel n : ℕ) (last first : Bool) (db : Db) (taken : List (ℕ × Result))
      → Agrees fuel n last first db taken
  unfolding reporter_step report_rounds rounds_of is_replied flatten
  rounds_alone-report_rounds zero n last first db taken ends = absurd (ends refl)
  rounds_alone-report_rounds (suc fuel) n last first db taken ends =
      elim (Res-cases (list_unsent (ws n).at_list.faults report_batch_size db)) [
        | inr (x, e) ↦
            let here : report_rounds Env (suc fuel) n first db
                ≡ record { outcome = store_failed x; db = db; confirmed = [] } =
              ground (arith, e) in
            over_at_list c ws fuel n last first db taken (ground (arith, e))
            ∙ ap (Left last taken) (sym here)
        | inl (rows, e) ↦ elim (Bool-cases (is_empty rows && not first)) [
          | inl empty ↦
              let here : report_rounds Env (suc fuel) n first db
                  ≡ record { outcome = drained; db = db; confirmed = [] } =
                ground (arith, e, empty) in
              over_at_list c ws fuel n last first db taken (ground (arith, e, empty))
              ∙ ap (Left last taken) (sym here)
          | inr some_rows ↦
              let e1 : reporter_step c (ws n).at_list (listing last first) db
                  ≡ (posting last rows, db, []) =
                ground (arith, e, some_rows) in
              elim (Reply-cases (
                post_results (ws n).at_post.server c (map (λ e. e.1) rows)
                  (ws n).at_post.interval_sec)) [
                    | inr (x, e') ↦
                        let here : report_rounds Env (suc fuel) n first db
                            ≡ record { outcome = post_failed; db = db; confirmed = [] } =
                          ground (arith, e, some_rows, e') in
                        over_at_post c ws fuel n last first db taken rows e1 (ground (arith, e'))
                        ∙ ap (Left last taken) (sym here)
                    | inl (k, e') ↦
                        taken-report fuel n last first db taken rows k
                          (λ l f d t. rounds_alone-report_rounds fuel (suc n) l f d t) e some_rows
                          e' e1 ends
                  ]
        ]
      ]

-- A reportOnce that comes to its end within the fuel and that nothing comes between leaves the same
-- database as the steps of the reporter, the server has taken the same batches, and the reporter goes
-- on to the purge, or to its end after the final drain.
pub rounds_alone-report_once :
    (c : Client) (ws : ℕ → RoundWorld) (fuel : ℕ) (last : Bool) (db : Db)
    → let r = report_once (rounds_of c ws) fuel db in
      r.outcome ≢ out_of_fuel
      → rounds_alone c ws fuel 0 (listing last true, db, [])
        ≡ (after_report last, r.db, flatten r.confirmed)
unfolding report_once
rounds_alone-report_once c ws fuel last db ends =
    rounds_alone-report_rounds c ws fuel 0 last true db [] ends
