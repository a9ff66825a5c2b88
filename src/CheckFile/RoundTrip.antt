-- ===== src/CheckFile/RoundTrip.antt =====
-- An export that is imported again, by another agent or by this one.
use tenpm_uptime_monitor.Prelude.{
  ℕ, ◌≡◌, ◌≢◌, refl, ap, ◌∙◌, true, false, some, [], ◌∷◌, arith, ◌⊎◌, inl, inr,
}
use mathlib.Core.Path.{subst}
use tenpm_uptime_monitor.Prelude.Int.{ℤ, pos, ◌≤ℤ◌}
use tenpm_uptime_monitor.Prelude.Text.{same_of_ne, Text, same}
use tenpm_uptime_monitor.Model.Check.{Check, zero_time, match_contains}
use tenpm_uptime_monitor.Store.Tables.{Row, Db, ok, Res-cases, Faults, find_guid}
use tenpm_uptime_monitor.Store.Headers.{
  Codec, encode_headers, decode_headers, decode_headers-encode,
}
use tenpm_uptime_monitor.Store.Import.{import_private_check}
use tenpm_uptime_monitor.Store.Import.Content.{Floored, Defines, import_private_check-Defines}
use tenpm_uptime_monitor.Store.Query.{scan_check}
use tenpm_uptime_monitor.CheckFile.{
  CheckExport, check_export_of, Json, File, parsed, read_definitions,
}
use tenpm_uptime_monitor.Command.Files.{run_import_private_check, some_unnamed, import_checks}

-- The check that encoding/json reads back from an export: the fields that the export has no key for
-- are zero.
unfoldable pub check_of_export : CheckExport → Check
check_of_export e = record {
  id = 0;
  guid = e.guid;
  name = e.name;
  url = e.url;
  match_string = e.match_string;
  match_mode = e.match_mode;
  post_data = e.post_data;
  headers = e.headers;
  disable_redirects = e.disable_redirects;
  status_code_op = e.status_code_op;
  status_code_value = e.status_code_value;
  insecure_skip_verify = e.insecure_skip_verify;
  invert_result = e.invert_result;
  interval_sec = e.interval_sec;
  timeout_sec = e.timeout_sec;
  max_response_time_ms = e.max_response_time_ms;
  cert_expiry_warn_days = pos 0;
  down_interval_sec = pos 0;
  resend_interval_sec = pos 0;
  result_detail_max_chars = e.result_detail_max_chars;
  enabled = e.enabled;
  updated_at = zero_time;
  deleted = false;
  restricted_derived = false;
  restricted_optin = false;
  restricted = false;
  private_definition = false;
  admin_enabled = false;
  show_on_status_page = false;
  monitor_count = pos 0;
  monitor_rank = pos 0;
}

-- A check as the server accepts it.
pub record Accepted (c : Check) : Type 0 where
  pub match_mode : c.match_mode ≢ []
  pub timeout_sec : pos 0 ≤ℤ c.timeout_sec
  pub max_response_time_ms : pos 0 ≤ℤ c.max_response_time_ms

Floored-eq : (x y : ℤ) → Floored x y → pos 0 ≤ℤ x → y ≡ x
Floored-eq x y (inl (le, e)) h = e
Floored-eq x y (inr (lt, e)) h = absurd (omega (arith, lt, h))

kept_mode :
    (c : Check) (r : Row)
    → c.match_mode ≢ []
    → ((c.match_mode ≡ []) × (r.match_mode ≡ match_contains))
      ⊎ ((c.match_mode ≢ []) × (r.match_mode ≡ c.match_mode))
    → r.match_mode ≡ c.match_mode
kept_mode c r n (inl (e, m)) = absurd (n e)
kept_mode c r n (inr (e, m)) = m

-- What an import restores of a check: everything that makes its verdict, but for the certificate's
-- threshold, which becomes 0.
pub record Restored (c c' : Check) : Type 0 where
  pub url : c'.url ≡ c.url
  pub match_string : c'.match_string ≡ c.match_string
  pub match_mode : c'.match_mode ≡ c.match_mode
  pub post_data : c'.post_data ≡ c.post_data
  pub headers : c'.headers ≡ c.headers
  pub disable_redirects : c'.disable_redirects ≡ c.disable_redirects
  pub status_code_op : c'.status_code_op ≡ c.status_code_op
  pub status_code_value : c'.status_code_value ≡ c.status_code_value
  pub insecure_skip_verify : c'.insecure_skip_verify ≡ c.insecure_skip_verify
  pub invert_result : c'.invert_result ≡ c.invert_result
  pub timeout_sec : c'.timeout_sec ≡ c.timeout_sec
  pub max_response_time_ms : c'.max_response_time_ms ≡ c.max_response_time_ms
  pub cert_expiry_warn_days : c'.cert_expiry_warn_days ≡ pos 0

module _ (codec : Codec) where
  -- A row with the definition of an export scans to a check that restores the exported one.
  scan_check-Restored :
      (c : Check) (r : Row)
      → Accepted c
      → Defines codec (check_of_export (check_export_of c)) r
      → decode_headers codec r.headers ≡ ok c.headers
      → (c' : Check) × (scan_check codec r ≡ ok c') × Restored c c'
  unfolding scan_check check_of_export check_export_of
  scan_check-Restored c r accepted d h = elim (Res-cases (scan_check codec r)) [
    | inl (c', e) ↦
        let mode : c'.match_mode ≡ r.match_mode = ground (arith, e, h) in
        let limit : c'.timeout_sec ≡ r.timeout_sec = ground (arith, e, h) in
        let slowest : c'.max_response_time_ms ≡ r.max_response_time_ms = ground (arith, e, h) in
        let warn : c'.cert_expiry_warn_days ≡ r.cert_expiry_warn_days = ground (arith, e, h) in
        (
          c',
          e,
          record {
            url = ground (arith, e, h, d.url);
            match_string = ground (arith, e, h, d.match_string);
            match_mode = mode ∙ kept_mode c r accepted.match_mode d.match_mode;
            post_data = ground (arith, e, h, d.post_data);
            headers = ground (arith, e, h);
            disable_redirects = ground (arith, e, h, d.disable_redirects);
            status_code_op = ground (arith, e, h, d.status_code_op);
            status_code_value = ground (arith, e, h, d.status_code_value);
            insecure_skip_verify = ground (arith, e, h, d.insecure_skip_verify);
            invert_result = ground (arith, e, h, d.invert_result);
            timeout_sec =
                limit ∙ Floored-eq c.timeout_sec r.timeout_sec d.timeout_sec accepted.timeout_sec;
            max_response_time_ms =
                slowest
                ∙ Floored-eq c.max_response_time_ms r.max_response_time_ms d.max_response_time_ms
                    accepted.max_response_time_ms;
            cert_expiry_warn_days =
                warn
                ∙ Floored-eq (pos 0) r.cert_expiry_warn_days d.cert_expiry_warn_days (omega arith);
          },
        )
    | inr (x, e) ↦ absurd (ground (arith, e, h))
  ]

  imports_fine :
      (faults : Faults) (c : Check) (db : Db) (raw : Text)
      → same c.guid [] ≡ false
      → encode_headers codec c.headers ≡ ok raw
      → faults 0 ≡ false
      → (import_private_check codec faults c db).0 ≡ ok tt
  unfolding import_private_check
  imports_fine faults c db raw guid enc fine = rw (import_private_check, guid, enc, fine) refl

  import_one :
      (json : Json) (faults : ℕ → Faults) (file : File) (c : Check) (db : Db)
      → read_definitions json file ≡ parsed (c ∷ [])
      → same c.guid [] ≡ false
      → (import_private_check codec (faults 0) c db).0 ≡ ok tt
      → run_import_private_check json codec faults (some file) true db
        ≡ (0, (import_private_check codec (faults 0) c db).1)
  unfolding run_import_private_check some_unnamed import_checks
  import_one json faults file c db read named done =
      rw (run_import_private_check, read, named, import_checks, done) refl

  -- The one check of a file, exported from an agent whose database holds it as the server accepts it, is
  -- imported by an agent, whether it knows the check or not, if SQLite refuses nothing and the JSON
  -- codec reads back its own output: the command exits with 0, and the check that is then listed has the
  -- whole definition of the exported one, but for the certificate's threshold, which is lost.
  pub run_import_private_check-Restored :
      (json : Json) (faults : ℕ → Faults) (file : File) (c : Check) (db : Db) (raw : Text)
      → read_definitions json file ≡ parsed (check_of_export (check_export_of c) ∷ [])
      → c.guid ≢ []
      → Accepted c
      → encode_headers codec c.headers ≡ ok raw
      → ((s : Text)
          → codec.marshal c.headers ≡ some s
          → (s ≢ []) × (codec.unmarshal s ≡ some c.headers))
      → faults 0 0 ≡ false
      → let (code, db') = run_import_private_check json codec faults (some file) true db in
        (code ≡ 0)
        × (r : Row) × (find_guid c.guid db'.checks ≡ some r)
        × (c' : Check) × (scan_check codec r ≡ ok c')
        × Restored c c'
  unfolding check_of_export check_export_of
  run_import_private_check-Restored json faults file c db raw read guid accepted enc law fine =
      let e : Check = check_of_export (check_export_of c) in
      let named : same c.guid [] ≡ false = same_of_ne c.guid [] guid in
      let db' : Db = (import_private_check codec (faults 0) e db).1 in
      let done : (import_private_check codec (faults 0) e db).0 ≡ ok tt =
        imports_fine (faults 0) e db raw named enc fine in
      let (r, found, defines, leaves, others, rest) =
        import_private_check-Defines codec (faults 0) e db db' (ap (λ d. (d, db')) done) in
      let same_headers : raw ≡ r.headers = ground (arith, enc, defines.headers) in
      let (c', scanned, restored) = scan_check-Restored c r accepted defines (
        subst (λ h. decode_headers codec h ≡ ok c.headers) same_headers
          (decode_headers-encode codec c.headers raw enc law)) in
      rw (import_one json faults file e db read named done) (refl, r, found, c', scanned, restored)
