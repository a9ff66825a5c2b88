-- ===== src/Agent/Enrolment.antt =====
-- How enrollWithRetry ends.
use tenpm_uptime_monitor.Prelude.{true, ℕ, ◌≡◌, refl, ap, ◌⊎◌, inl, inr, arith, Bool-cases}
use tenpm_uptime_monitor.Prelude.Text.{Text}
use tenpm_uptime_monitor.Agent.{is_refusal}
use tenpm_uptime_monitor.Store.Tables.{Db}
use tenpm_uptime_monitor.Client.{
  Client, ClientError, Reply, replied, failed_call, new_client_with_proxy, enroll,
}
use tenpm_uptime_monitor.Retry.{succeeded, gave_up, Ended, ended_well, ended_badly, cancelled}
use tenpm_uptime_monitor.Retry.Waits.{Runs, success, failure, stop, again}
use tenpm_uptime_monitor.Agent.{Config, AgentWorld, enroll_fields, enroll_attempt, after_enroll}

after_enroll-succeeded :
    (r : Reply (Text × Text)) (both : Text × Text)
    → after_enroll r ≡ succeeded both
    → r ≡ replied both
unfolding after_enroll
after_enroll-succeeded (replied x) both h = ground (arith, h)
after_enroll-succeeded (failed_call e) both h = elim (Bool-cases (is_refusal e)) [
  | inl yes_refusal ↦ absurd (ground (arith, h, yes_refusal))
  | inr no_refusal ↦ absurd (ground (arith, h, no_refusal))
]

after_enroll-gave_up :
    (r : Reply (Text × Text)) (e : ClientError)
    → after_enroll r ≡ gave_up e
    → (r ≡ failed_call e) × (is_refusal e ≡ true)
unfolding after_enroll
after_enroll-gave_up (replied x) e h = absurd (ground (arith, h))
after_enroll-gave_up (failed_call d) e h = elim (Bool-cases (is_refusal d)) [
  | inl refusal ↦
      let same : d ≡ e = ground (arith, h, refusal) in (ap failed_call same, rw (← same) refusal)
  | inr transient ↦ absurd (ground (arith, h, transient))
]

module _ (cfg : Config) (w : AgentWorld) where
  abbrev unkeyed : Client
  unkeyed = new_client_with_proxy cfg.server_url cfg.proxy_url

  abbrev pub Tried : Text → Ended (Text × Text) ClientError → Type 0
  Tried reclaim ended =
      ((n : ℕ) × (both : Text × Text) × (ended ≡ ended_well both)
        × (enroll (w.enroll_servers n) unkeyed cfg.enrollment_token (enroll_fields cfg reclaim)
            ≡ replied both))
      ⊎ (((n : ℕ) × (e : ClientError) × (ended ≡ ended_badly e)
            × (enroll (w.enroll_servers n) unkeyed cfg.enrollment_token (enroll_fields cfg reclaim)
                ≡ failed_call e)
            × (is_refusal e ≡ true))
          ⊎ ((n : ℕ) × (ended ≡ cancelled) × (w.enroll_stopped n ≡ true)))

  pub Runs-Tried :
      (reclaim : Text) {n waits : ℕ} {db db' : Db} {ended : Ended (Text × Text) ClientError}
      → Runs
          (enroll_attempt w.enroll_servers unkeyed cfg reclaim)
          w.enroll_stopped
          n
          db
          ended
          db'
          waits
      → Tried reclaim ended
  unfolding enroll_attempt
  Runs-Tried reclaim {n = n} (success {x = both} e) =
      inl (n, both, refl, after_enroll-succeeded _ both (ap (λ p. p.0) e))
  Runs-Tried reclaim {n = n} (failure {e = x} e) =
      let (made, refusal) = after_enroll-gave_up _ x (ap (λ p. p.0) e) in
      inr (inl (n, x, refl, made, refusal))
  Runs-Tried reclaim {n = n} (stop e now) = inr (inr (n, refl, now))
  Runs-Tried reclaim (again e on runs) = Runs-Tried reclaim runs
