-- ===== src/Tests/Commands.antt =====
-- The commands on small files.
use tenpm_uptime_monitor.Prelude.{◌≡◌, ◌≢◌, refl, Option, true, false, none, some, [], ◌∷◌, arith}
use tenpm_uptime_monitor.Prelude.Int.{pos}
use tenpm_uptime_monitor.Prelude.Text.{
  Text, bytes, text_dec, trim_space, trim_left, to_lower, has_prefix,
}
use tenpm_uptime_monitor.Model.Check.{Check}
use tenpm_uptime_monitor.Store.Tables.{Row, ok, find_guid}
use tenpm_uptime_monitor.Store.Headers.{encode_headers}
use tenpm_uptime_monitor.Store.Query.{scan_check}
use tenpm_uptime_monitor.CheckFile.{
  Json, File, contents, parsed, check_export_of, read_definitions, parse_check_definitions,
}
use tenpm_uptime_monitor.CheckFile.RoundTrip.{
  check_of_export, Restored, run_import_private_check-Restored,
}
use tenpm_uptime_monitor.Command.{ProxyUrl, proxied, parse_proxy_url}
use tenpm_uptime_monitor.Command.Files.{run_import_private_check}
use tenpm_uptime_monitor.Command.Flags.{
  Flags, daemon, config_of, mode_of, lacks_required, chosen_mode, after_policy,
}
use tenpm_uptime_monitor.Command.Modes.{AsAsked, mode_of-AsAsked}
use tenpm_uptime_monitor.Egress.{policy_strict, parse_policy}
use tenpm_uptime_monitor.Agent.{Config}
use tenpm_uptime_monitor.Tests.Samples.{sample_check, one_header, no_faults, sample_db}

abbrev sample_flags : Flags
sample_flags = record {
  show_version = false;
  server_url = bytes "https://s.org";
  enrollment_token = bytes "token";
  monitor_id = [];
  monitor_name = bytes "edge";
  region = bytes "apac";
  country = bytes "AU";
  city = bytes "Sydney";
  sync_interval_sec = pos 45;
  report_interval_sec = pos 45;
  probe_targets = [];
  max_concurrent_checks = pos 20;
  egress_policy = bytes "Strict";
  proxy_url_flag = bytes "http://p";
  test_check = [];
  import_private_check = [];
  list_checks = false;
  export_private_checks = false;
}

abbrev proxy : ProxyUrl
proxy = record { scheme = bytes "http"; host = bytes "p"; text = bytes "http://p" }

abbrev parse : Text → Option ProxyUrl
parse s = some proxy

abbrev sample_config : Config
sample_config = config_of sample_flags policy_strict (proxied proxy)

starts : mode_of (λ s. s) parse sample_flags ≡ daemon sample_config
unfolding mode_of after_policy chosen_mode parse_proxy_url lacks_required parse_policy trim_space
    trim_left to_lower text_dec
starts = refl

mode_of-AsAsked_example : AsAsked parse sample_flags sample_config
mode_of-AsAsked_example = mode_of-AsAsked (λ s. s) parse sample_flags sample_config starts

-- A check of this agent, and its export in a file.
abbrev exported : Check
exported = record sample_check { headers = (bytes "K", bytes "v") ∷ [] }

abbrev json : Json
json = record {
  decode_check = λ s. some (check_of_export (check_export_of exported));
  decode_checks = λ s. none;
}

abbrev file : File
file = contents (bytes "{}")

read : read_definitions json file ≡ parsed (check_of_export (check_export_of exported) ∷ [])
unfolding read_definitions parse_check_definitions trim_space trim_left has_prefix text_dec
read = refl

encoded : encode_headers one_header exported.headers ≡ ok (1 ∷ bytes "Kv")
unfolding encode_headers
encoded = refl

reads_back :
    (s : Text)
    → one_header.marshal exported.headers ≡ some s
    → (s ≢ []) × (one_header.unmarshal s ≡ some exported.headers)
reads_back s e = let same : 1 ∷ bytes "Kv" ≡ s = ground (arith, e) in rw (← same) ((λ n. cc), refl)

run_import_private_check-Restored_example :
    let (code, db') =
      run_import_private_check json one_header (λ n. no_faults) (some file) true sample_db in
    (code ≡ 0)
    × (r : Row) × (find_guid exported.guid db'.checks ≡ some r)
    × (c' : Check) × (scan_check one_header r ≡ ok c')
    × Restored exported c'
run_import_private_check-Restored_example =
    run_import_private_check-Restored one_header json (λ n. no_faults) file exported sample_db
      (1 ∷ bytes "Kv") read (λ e. cc)
      (record {
        match_mode = λ e. cc;
        timeout_sec = omega arith;
        max_response_time_ms = omega arith;
      })
      encoded reads_back refl
