-- ===== src/Model/Verdict/Rules.antt =====
-- What the verdict methods of model/model.go decide, without the messages.
use tenpm_uptime_monitor.Prelude.{◌≡◌, ◌≢◌, ◌↔◌, ◌⊎◌, inl, inr, [], ◌+◌, ◌<◌, arith, Bool-cases}
use tenpm_uptime_monitor.Prelude.Int.{ℤ, pos, ◌≤ℤ◌, pos_part, neg_part}
use tenpm_uptime_monitor.Prelude.Text.{Text, text_dec, contains}
use tenpm_uptime_monitor.Prelude.Text.Occurs.{Occurs, contains-Occurs}
use tenpm_uptime_monitor.Model.Check.{
  Check, match_not_contains, status_code_equals, status_code_less_than, status_code_greater_than,
}
use tenpm_uptime_monitor.Model.Verdict.{
  match_content, status_code_acceptable, response_time_exceeded, cert_expiry_exceeded,
}

infix 50 ◌<ℤ◌
abbrev pub ◌<ℤ◌ : ℤ → ℤ → Type 0
a <ℤ b = pos_part a + neg_part b < pos_part b + neg_part a

-- The content satisfies the match rule.
pub data Matches (c : Check) (content : Text) : Type 0 where
  no_rule : c.match_string ≡ [] → Matches c content
  present : c.match_mode ≢ match_not_contains → Occurs c.match_string content → Matches c content
  absent : c.match_mode ≡ match_not_contains → ¬ Occurs c.match_string content → Matches c content

match_content_sound :
    (c : Check) (content : Text) → match_content c content ≡ [] → Matches c content
unfolding match_content
match_content_sound c content h = elim (text_dec c.match_string []) [
  | yes e ↦ Matches.no_rule e
  | no ne ↦ elim (Bool-cases (contains content c.match_string)) [
    | inl found ↦
        Matches.present (λ m. absurd (ground arith))
          ((contains-Occurs content c.match_string).0 found)
    | inr missing ↦
        Matches.absent (ground arith)
          (λ o. absurd (ground (arith, (contains-Occurs content c.match_string).1 o)))
  ]
]

match_content_complete :
    (c : Check) (content : Text) → Matches c content → match_content c content ≡ []
unfolding match_content
match_content_complete c content (Matches.no_rule e) = ground arith
match_content_complete c content (Matches.present m o) =
    ground (arith, (contains-Occurs content c.match_string).1 o)
match_content_complete c content (Matches.absent m o) =
    elim (Bool-cases (contains content c.match_string)) [
      | inl found ↦ absurd (o ((contains-Occurs content c.match_string).0 found))
      | inr missing ↦ ground arith
    ]

-- MatchContent reports no error exactly on the contents that satisfy the match rule: no match
-- string is set, or it occurs and the mode is not "not_contains", or it does not occur and the mode
-- is "not_contains".
pub match_content-Matches :
    (c : Check) (content : Text) → (match_content c content ≡ []) ↔ Matches c content
match_content-Matches c content = (match_content_sound c content, match_content_complete c content)

-- The status satisfies the status-code rule.
pub data Accepts (c : Check) (status : ℤ) : Type 0 where
  built_in : c.status_code_op ≡ [] → status <ℤ pos 400 → Accepts c status
  equal : c.status_code_op ≡ status_code_equals → status ≡ c.status_code_value → Accepts c status
  less : c.status_code_op ≡ status_code_less_than → status <ℤ c.status_code_value → Accepts c status
  greater :
      c.status_code_op ≡ status_code_greater_than → c.status_code_value <ℤ status → Accepts c status

status_sound :
    (quote : Text → Text) (c : Check) (status : ℤ)
    → status_code_acceptable quote c status ≡ []
    → Accepts c status
unfolding status_code_acceptable
status_sound quote c status h = elim (text_dec c.status_code_op []) [
  | yes e ↦ Accepts.built_in e (ground arith)
  | no n0 ↦ elim (text_dec c.status_code_op status_code_equals) [
    | yes e ↦ Accepts.equal e (ground arith)
    | no n1 ↦ elim (text_dec c.status_code_op status_code_less_than) [
      | yes e ↦ Accepts.less e (ground arith)
      | no n2 ↦ elim (text_dec c.status_code_op status_code_greater_than) [
        | yes e ↦ Accepts.greater e (ground arith)
        | no n3 ↦ absurd (ground arith)
      ]
    ]
  ]
]

status_complete :
    (quote : Text → Text) (c : Check) (status : ℤ)
    → Accepts c status
    → status_code_acceptable quote c status ≡ []
unfolding status_code_acceptable
status_complete quote c status (Accepts.built_in e h) = ground arith
status_complete quote c status (Accepts.equal e h) = ground arith
status_complete quote c status (Accepts.less e h) = ground arith
status_complete quote c status (Accepts.greater e h) = ground arith

-- StatusCodeAcceptable reports no error exactly when the status satisfies the rule: below 400 if no
-- operator is set, and otherwise equal to, below or above the check's value as the operator says.
-- An operator that is none of the three fails every status.
pub status_code_acceptable-Accepts :
    (quote : Text → Text) (c : Check) (status : ℤ)
    → (status_code_acceptable quote c status ≡ []) ↔ Accepts c status
status_code_acceptable-Accepts quote c status =
    (status_sound quote c status, status_complete quote c status)

-- ResponseTimeExceeded and CertExpiryExceeded report no error exactly when no threshold is set, or
-- the latency is at most the threshold, or more days are left than the threshold asks for.
pub thresholds_iff :
    (c : Check) (latency_ms days_remaining : ℤ)
    → ((response_time_exceeded c latency_ms ≡ [])
        ↔ ((c.max_response_time_ms ≤ℤ pos 0) ⊎ (latency_ms ≤ℤ c.max_response_time_ms)))
      × ((cert_expiry_exceeded c days_remaining ≡ [])
          ↔ ((c.cert_expiry_warn_days ≤ℤ pos 0) ⊎ (c.cert_expiry_warn_days <ℤ days_remaining)))
unfolding response_time_exceeded cert_expiry_exceeded
thresholds_iff c latency_ms days_remaining =
    ((λ h. ground arith, λ h. ground arith), (λ h. ground arith, λ h. ground arith))
