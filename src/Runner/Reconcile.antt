-- ===== src/Runner/Reconcile.antt =====
-- monitor/runner.go: sameDefinition, reconcile and Run. The map of the scheduled checks is an association
-- list; the goroutines that a call cancels and starts are a list of actions.
pub mod Balance
pub mod Current
pub mod Definition
pub mod Stopped
use tenpm_uptime_monitor.Prelude.{
  ℕ, Bool, true, false, not, ◌&&◌, ◌||◌, Option, none, some, List, [], ◌∷◌, ◌++◌, if◌then◌else◌,
  ◌==◌,
}
use tenpm_uptime_monitor.Prelude.Int.{eq_ℤ}
use tenpm_uptime_monitor.Prelude.Text.{same}
use tenpm_uptime_monitor.Model.Check.{Check, Headers}
use tenpm_uptime_monitor.Store.Tables.{Res, ok, err}
use tenpm_uptime_monitor.Runner.{is_some_of, forget_status}

abbrev pub same_bool : Bool → Bool → Bool
same_bool a b = is_some_of a (some b)

-- sameDefinition: reflect.DeepEqual without UpdatedAt. Its test on the maps Headers is a parameter.
unfoldable pub same_definition : (Headers → Headers → Bool) → Check → Check → Bool
same_definition same_headers a b =
    (a.id == b.id && same a.guid b.guid && same a.name b.name && same a.url b.url)
    && (same a.match_string b.match_string && same a.match_mode b.match_mode)
    && (same a.post_data b.post_data && same_headers a.headers b.headers)
    && (same_bool a.disable_redirects b.disable_redirects && same a.status_code_op b.status_code_op)
    && (eq_ℤ a.status_code_value b.status_code_value
        && same_bool a.insecure_skip_verify b.insecure_skip_verify)
    && (same_bool a.invert_result b.invert_result && eq_ℤ a.interval_sec b.interval_sec)
    && (eq_ℤ a.timeout_sec b.timeout_sec && eq_ℤ a.max_response_time_ms b.max_response_time_ms)
    && (eq_ℤ a.cert_expiry_warn_days b.cert_expiry_warn_days
        && eq_ℤ a.down_interval_sec b.down_interval_sec)
    && (eq_ℤ a.resend_interval_sec b.resend_interval_sec
        && eq_ℤ a.result_detail_max_chars b.result_detail_max_chars)
    && (same_bool a.enabled b.enabled && same_bool a.deleted b.deleted)
    && (same_bool a.restricted_derived b.restricted_derived
        && same_bool a.restricted_optin b.restricted_optin)
    && (same_bool a.restricted b.restricted && same_bool a.private_definition b.private_definition)
    && (same_bool a.admin_enabled b.admin_enabled
        && same_bool a.show_on_status_page b.show_on_status_page)
    && (eq_ℤ a.monitor_count b.monitor_count && eq_ℤ a.monitor_rank b.monitor_rank)

-- scheduled: the keys, and the definitions that the goroutines were started with.
abbrev pub Scheduled : Type 0
Scheduled = List (ℕ × Check)

unfoldable pub lookup : ℕ → Scheduled → Option Check
lookup id [] = none
lookup id ((k, c) ∷ rest) = if k == id then some c else lookup id rest

unfoldable pub insert : ℕ → Check → Scheduled → Scheduled
insert id c [] = (id, c) ∷ []
insert id c ((k, d) ∷ rest) = if k == id then (k, c) ∷ rest else (k, d) ∷ insert id c rest

-- A goroutine is cancelled, or started, with whether it runs the check at once.
pub data Action : Type 0 where
  cancelled : Check → Action
  started : Check → Bool → Action

module _ (same_headers : Headers → Headers → Bool) where
  -- A round of the loop over the enabled checks.
  unfoldable pub visit : Check → Scheduled → List Action × Scheduled
  visit c scheduled = elim (lookup c.id scheduled) [
    | none ↦ (started c true ∷ [], insert c.id c scheduled)
    | some old ↦
        if same_definition same_headers old c
        then ([], scheduled)
        else (cancelled old ∷ started c false ∷ [], insert c.id c scheduled)
  ]

  unfoldable pub visit_all : List Check → Scheduled → List Action × Scheduled
  visit_all [] scheduled = ([], scheduled)
  visit_all (c ∷ cs) scheduled =
      let (acts, mid) = visit c scheduled in
      let (rest, last) = visit_all cs mid in (acts ++ rest, last)

-- seen
unfoldable pub seen : ℕ → List Check → Bool
seen id [] = false
seen id (c ∷ cs) = c.id == id || seen id cs

-- The loop over the scheduled checks: those that were not seen are cancelled and forgotten.
unfoldable pub sweep :
    List Check → Scheduled → (ℕ → Option Bool) → List Action × Scheduled × (ℕ → Option Bool)
sweep checks [] last_status = ([], [], last_status)
sweep checks ((k, c) ∷ rest) last_status =
    let (acts, kept, last_status') = sweep checks rest last_status in
    if seen k checks
    then (acts, (k, c) ∷ kept, last_status')
    else (cancelled c ∷ acts, kept, forget_status k last_status')

-- reconcile, from what ListEnabledChecks returns.
unfoldable pub reconcile :
    (Headers → Headers → Bool)
    → Res (List Check)
    → Scheduled
    → (ℕ → Option Bool)
    → List Action × Scheduled × (ℕ → Option Bool)
unfolding visit_all sweep
reconcile same_headers (err e) scheduled last_status = ([], scheduled, last_status)
reconcile same_headers (ok checks) scheduled last_status =
    let (acts, visited) = visit_all same_headers checks scheduled in
    let (swept, kept, last_status') = sweep checks visited last_status in
    (acts ++ swept, kept, last_status')

-- The reconciliations of Run, by what ListEnabledChecks returns at each.
unfoldable pub reconcile_rounds :
    (Headers → Headers → Bool)
    → List (Res (List Check))
    → Scheduled
    → (ℕ → Option Bool)
    → List Action × Scheduled × (ℕ → Option Bool)
unfolding reconcile
reconcile_rounds same_headers [] scheduled last_status = ([], scheduled, last_status)
reconcile_rounds same_headers (listed ∷ rest) scheduled last_status =
    let (acts, mid, last_status') = reconcile same_headers listed scheduled last_status in
    let (more, last, last_status'') = reconcile_rounds same_headers rest mid last_status' in
    (acts ++ more, last, last_status'')

-- What Run defers: every goroutine that is left is cancelled.
unfoldable pub cancel_all : Scheduled → List Action
cancel_all [] = []
cancel_all ((k, c) ∷ rest) = cancelled c ∷ cancel_all rest

-- Run, from its first reconciliation to the end of the context.
unfoldable pub runner_run :
    (Headers → Headers → Bool)
    → Res (List Check)
    → List (Res (List Check))
    → (ℕ → Option Bool)
    → List Action × (ℕ → Option Bool)
unfolding reconcile_rounds cancel_all
runner_run same_headers first ticks last_status =
    let (acts, scheduled, last_status') =
      reconcile_rounds same_headers (first ∷ ticks) [] last_status in
    (acts ++ cancel_all scheduled, last_status')
