-- ===== src/Checker/Verdicts.antt =====
-- When a run passes: the verdicts that the checkers share.
pub mod Http
pub mod Sockets
use tenpm_uptime_monitor.Prelude.{
  ◌≡◌, ◌≢◌, refl, ◌↔◌, ◌⊎◌, inl, inr, true, false, Option, none, some, List, [], ◌∷◌, arith, All,
  Bool-cases,
}
use tenpm_uptime_monitor.Prelude.Int.{ℤ, pos, ◌≤ℤ◌}
use tenpm_uptime_monitor.Prelude.Text.{Text, text_dec}
use tenpm_uptime_monitor.Model.Check.{Check, Result}
use tenpm_uptime_monitor.Model.Verdict.{response_time_exceeded, cert_expiry_exceeded}
use tenpm_uptime_monitor.Model.Verdict.Rules.{◌<ℤ◌, thresholds_iff}
use tenpm_uptime_monitor.Checker.{judged}

-- A run passes its verdicts exactly if none of them has a message.
pub judged-success :
    (r : Result) (ms : List Text)
    → r.success ≡ false
    → ((judged r ms).success ≡ true) ↔ All (λ m. m ≡ []) ms
unfolding judged
judged-success r [] f = (λ h. tt, λ h. refl)
judged-success r (m ∷ ms) f = elim (text_dec m []) [
  | yes e ↦
      let (there, back) = judged-success r ms f in
      (λ h. (e, there (ground arith)), λ h. ground (arith, back h.1))
  | no ne ↦ (λ h. absurd (ground arith), λ h. absurd (ne h.0))
]

-- The latency keeps to the check's limit, if it has one.
abbrev pub InTime : Check → ℤ → Type 0
InTime c latency_ms = (c.max_response_time_ms ≤ℤ pos 0) ⊎ (latency_ms ≤ℤ c.max_response_time_ms)

-- More days are left than the check's warning asks for, if it has one.
abbrev pub Lasts : Check → ℤ → Type 0
Lasts c days = (c.cert_expiry_warn_days ≤ℤ pos 0) ⊎ (c.cert_expiry_warn_days <ℤ days)

pub InTime-iff :
    (c : Check) (latency_ms : ℤ) → (response_time_exceeded c latency_ms ≡ []) ↔ InTime c latency_ms
InTime-iff c latency_ms = (thresholds_iff c latency_ms latency_ms).0

pub Lasts-iff : (c : Check) (days : ℤ) → (cert_expiry_exceeded c days ≡ []) ↔ Lasts c days
Lasts-iff c days = (thresholds_iff c days days).1
