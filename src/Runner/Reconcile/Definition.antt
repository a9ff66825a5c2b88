-- ===== src/Runner/Reconcile/Definition.antt =====
-- sameDefinition of monitor/runner.go: what the definitions that it does not tell apart share.
use tenpm_uptime_monitor.Prelude.{
  ℕ, ◌≡◌, refl, Bool, true, false, ◌&&◌, ◌==◌, List, [], ◌∷◌, map, All, All-map, arith,
}
use tenpm_uptime_monitor.Prelude.Int.{ℤ, eq_ℤ, eq_of_parts}
use tenpm_uptime_monitor.Prelude.Text.{same, same-true}
use tenpm_uptime_monitor.Model.Check.{Check, Headers}
use tenpm_uptime_monitor.Runner.Reconcile.{same_bool, same_definition}

-- The definitions have the same fields but for UpdatedAt, and their headers pass the test on maps.
pub record SameDefinition (same_headers : Headers → Headers → Bool) (a b : Check) : Type 0 where
  pub id : a.id ≡ b.id
  pub guid : a.guid ≡ b.guid
  pub name : a.name ≡ b.name
  pub url : a.url ≡ b.url
  pub match_string : a.match_string ≡ b.match_string
  pub match_mode : a.match_mode ≡ b.match_mode
  pub post_data : a.post_data ≡ b.post_data
  pub disable_redirects : a.disable_redirects ≡ b.disable_redirects
  pub status_code_op : a.status_code_op ≡ b.status_code_op
  pub status_code_value : a.status_code_value ≡ b.status_code_value
  pub insecure_skip_verify : a.insecure_skip_verify ≡ b.insecure_skip_verify
  pub invert_result : a.invert_result ≡ b.invert_result
  pub interval_sec : a.interval_sec ≡ b.interval_sec
  pub timeout_sec : a.timeout_sec ≡ b.timeout_sec
  pub max_response_time_ms : a.max_response_time_ms ≡ b.max_response_time_ms
  pub cert_expiry_warn_days : a.cert_expiry_warn_days ≡ b.cert_expiry_warn_days
  pub down_interval_sec : a.down_interval_sec ≡ b.down_interval_sec
  pub resend_interval_sec : a.resend_interval_sec ≡ b.resend_interval_sec
  pub result_detail_max_chars : a.result_detail_max_chars ≡ b.result_detail_max_chars
  pub enabled : a.enabled ≡ b.enabled
  pub deleted : a.deleted ≡ b.deleted
  pub restricted_derived : a.restricted_derived ≡ b.restricted_derived
  pub restricted_optin : a.restricted_optin ≡ b.restricted_optin
  pub restricted : a.restricted ≡ b.restricted
  pub private_definition : a.private_definition ≡ b.private_definition
  pub admin_enabled : a.admin_enabled ≡ b.admin_enabled
  pub show_on_status_page : a.show_on_status_page ≡ b.show_on_status_page
  pub monitor_count : a.monitor_count ≡ b.monitor_count
  pub monitor_rank : a.monitor_rank ≡ b.monitor_rank
  pub headers : same_headers a.headers b.headers ≡ true

eq_ℤ-true : (a b : ℤ) → eq_ℤ a b ≡ true → a ≡ b
eq_ℤ-true a b h = eq_of_parts a b (ground (arith, h))

same_bool-true : (a b : Bool) → same_bool a b ≡ true → a ≡ b
same_bool-true true true h = refl
same_bool-true true false h = absurd (ground arith)
same_bool-true false true h = absurd (ground arith)
same_bool-true false false h = refl

eq_ℕ-true : (a b : ℕ) → (a == b) ≡ true → a ≡ b
eq_ℕ-true a b h = ground (arith, h)

-- A conjunction from the left, and its members.
abbrev conj_from : Bool → List Bool → Bool
conj_from b [] = b
conj_from b (c ∷ cs) = conj_from (b && c) cs

abbrev conj : List Bool → Bool
conj [] = true
conj (b ∷ bs) = conj_from b bs

conj_from-true :
    (b : Bool) (cs : List Bool) → conj_from b cs ≡ true → (b ≡ true) × All (λ c. c ≡ true) cs
conj_from-true b [] h = (h, tt)
conj_from-true b (c ∷ cs) h =
    let (first, rest) = conj_from-true (b && c) cs h in
    (ground (arith, first), (ground (arith, first), rest))

conj-true : (bs : List Bool) → conj bs ≡ true → All (λ b. b ≡ true) bs
conj-true [] h = tt
conj-true (b ∷ bs) h = conj_from-true b bs h

All-conj : (gs : List (List Bool)) → All (λ b. b ≡ true) (map conj gs) → All (λ g. conj g ≡ true) gs
All-conj [] h = tt
All-conj (g ∷ gs) h = (h.0, All-conj gs h.1)

module _ (same_headers : Headers → Headers → Bool) (a b : Check) where
  abbrev groups : List (List Bool)
  groups =
      ((a.id == b.id) ∷ same a.guid b.guid ∷ same a.name b.name ∷ same a.url b.url ∷ [])
      ∷ (same a.match_string b.match_string ∷ same a.match_mode b.match_mode ∷ [])
      ∷ (same a.post_data b.post_data ∷ same_headers a.headers b.headers ∷ [])
      ∷ (same_bool a.disable_redirects b.disable_redirects
          ∷ same a.status_code_op b.status_code_op
          ∷ [])
      ∷ (eq_ℤ a.status_code_value b.status_code_value
          ∷ same_bool a.insecure_skip_verify b.insecure_skip_verify
          ∷ [])
      ∷ (same_bool a.invert_result b.invert_result ∷ eq_ℤ a.interval_sec b.interval_sec ∷ [])
      ∷ (eq_ℤ a.timeout_sec b.timeout_sec ∷ eq_ℤ a.max_response_time_ms b.max_response_time_ms ∷ [])
      ∷ (eq_ℤ a.cert_expiry_warn_days b.cert_expiry_warn_days
          ∷ eq_ℤ a.down_interval_sec b.down_interval_sec
          ∷ [])
      ∷ (eq_ℤ a.resend_interval_sec b.resend_interval_sec
          ∷ eq_ℤ a.result_detail_max_chars b.result_detail_max_chars
          ∷ [])
      ∷ (same_bool a.enabled b.enabled ∷ same_bool a.deleted b.deleted ∷ [])
      ∷ (same_bool a.restricted_derived b.restricted_derived
          ∷ same_bool a.restricted_optin b.restricted_optin
          ∷ [])
      ∷ (same_bool a.restricted b.restricted
          ∷ same_bool a.private_definition b.private_definition
          ∷ [])
      ∷ (same_bool a.admin_enabled b.admin_enabled
          ∷ same_bool a.show_on_status_page b.show_on_status_page
          ∷ [])
      ∷ (eq_ℤ a.monitor_count b.monitor_count ∷ eq_ℤ a.monitor_rank b.monitor_rank ∷ [])
      ∷ []

  tests : same_definition same_headers a b ≡ true → All (λ g. All (λ t. t ≡ true) g) groups
  unfolding same_definition
  tests h = All-map groups conj-true (All-conj groups (conj-true (map conj groups) h))

  pub same_definition-SameDefinition :
      same_definition same_headers a b ≡ true → SameDefinition same_headers a b
  same_definition-SameDefinition h =
      let t = tests h in
      record {
        id = eq_ℕ-true a.id b.id t.0.0;
        guid = same-true a.guid b.guid t.0.1.0;
        name = same-true a.name b.name t.0.1.1.0;
        url = same-true a.url b.url t.0.1.1.1.0;
        match_string = same-true a.match_string b.match_string t.1.0.0;
        match_mode = same-true a.match_mode b.match_mode t.1.0.1.0;
        post_data = same-true a.post_data b.post_data t.1.1.0.0;
        headers = t.1.1.0.1.0;
        disable_redirects = same_bool-true a.disable_redirects b.disable_redirects t.1.1.1.0.0;
        status_code_op = same-true a.status_code_op b.status_code_op t.1.1.1.0.1.0;
        status_code_value = eq_ℤ-true a.status_code_value b.status_code_value t.1.1.1.1.0.0;
        insecure_skip_verify =
            same_bool-true a.insecure_skip_verify b.insecure_skip_verify t.1.1.1.1.0.1.0;
        invert_result = same_bool-true a.invert_result b.invert_result t.1.1.1.1.1.0.0;
        interval_sec = eq_ℤ-true a.interval_sec b.interval_sec t.1.1.1.1.1.0.1.0;
        timeout_sec = eq_ℤ-true a.timeout_sec b.timeout_sec t.1.1.1.1.1.1.0.0;
        max_response_time_ms =
            eq_ℤ-true a.max_response_time_ms b.max_response_time_ms t.1.1.1.1.1.1.0.1.0;
        cert_expiry_warn_days =
            eq_ℤ-true a.cert_expiry_warn_days b.cert_expiry_warn_days t.1.1.1.1.1.1.1.0.0;
        down_interval_sec = eq_ℤ-true a.down_interval_sec b.down_interval_sec t.1.1.1.1.1.1.1.0.1.0;
        resend_interval_sec =
            eq_ℤ-true a.resend_interval_sec b.resend_interval_sec t.1.1.1.1.1.1.1.1.0.0;
        result_detail_max_chars =
            eq_ℤ-true a.result_detail_max_chars b.result_detail_max_chars t.1.1.1.1.1.1.1.1.0.1.0;
        enabled = same_bool-true a.enabled b.enabled t.1.1.1.1.1.1.1.1.1.0.0;
        deleted = same_bool-true a.deleted b.deleted t.1.1.1.1.1.1.1.1.1.0.1.0;
        restricted_derived =
            same_bool-true a.restricted_derived b.restricted_derived t.1.1.1.1.1.1.1.1.1.1.0.0;
        restricted_optin =
            same_bool-true a.restricted_optin b.restricted_optin t.1.1.1.1.1.1.1.1.1.1.0.1.0;
        restricted = same_bool-true a.restricted b.restricted t.1.1.1.1.1.1.1.1.1.1.1.0.0;
        private_definition =
            same_bool-true a.private_definition b.private_definition t.1.1.1.1.1.1.1.1.1.1.1.0.1.0;
        admin_enabled =
            same_bool-true a.admin_enabled b.admin_enabled t.1.1.1.1.1.1.1.1.1.1.1.1.0.0;
        show_on_status_page =
            same_bool-true a.show_on_status_page b.show_on_status_page
              t.1.1.1.1.1.1.1.1.1.1.1.1.0.1.0;
        monitor_count = eq_ℤ-true a.monitor_count b.monitor_count t.1.1.1.1.1.1.1.1.1.1.1.1.1.0.0;
        monitor_rank = eq_ℤ-true a.monitor_rank b.monitor_rank t.1.1.1.1.1.1.1.1.1.1.1.1.1.0.1.0;
      }
