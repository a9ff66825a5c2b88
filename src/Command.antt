-- ===== src/Command.antt =====
-- cmd/monitor/main.go, internal/migrate's outcome included, and monitor/proxy.go: the modes of the
-- program and their exit codes. The environment, strconv.Atoi and url.Parse are parameters, as is
-- whether the database can be opened and migrated.
pub mod Files
pub mod Flags
pub mod Main
pub mod Modes
use tenpm_uptime_monitor.Prelude.{
  ℕ, suc, Bool, true, false, not, ◌&&◌, ◌||◌, Option, none, some, List, [], ◌∷◌, map, ltb, ◌==◌,
  if◌then◌else◌,
}
use tenpm_uptime_monitor.Prelude.Int.{ℤ, pos, leb_ℤ, ◌*ℤ◌}
use tenpm_uptime_monitor.Prelude.Text.{Text, bytes, same, trim_space}
use tenpm_uptime_monitor.Model.Check.{Check, Result}
use tenpm_uptime_monitor.Store.Tables.{Db, StoreError, Res, ok, err, Faults}
use tenpm_uptime_monitor.Store.Headers.{Codec}
use tenpm_uptime_monitor.Store.Import.{import_private_check}
use tenpm_uptime_monitor.Store.Query.{list_all_checks, list_private_checks}
use tenpm_uptime_monitor.Egress.{Policy, parse_policy}
use tenpm_uptime_monitor.Schedule.Words.{wrap64}
use tenpm_uptime_monitor.Agent.{Config}
use tenpm_uptime_monitor.CheckFile.{
  Json, File, Parsed, parsed, unusable, CheckExport, check_export_of, read_definitions,
}
use tenpm_uptime_monitor.CheckFile.Report.{
  Tested, failures, not_tested, Line, test_checks_from_json,
}

-- The parts of strings.Split(s, ",").
unfoldable pub split_commas : Text → List Text
split_commas [] = [] ∷ []
split_commas (c ∷ s) = let parts = split_commas s in if c == b',' then [] ∷ parts else grown c parts
  where
    grown : ℕ → List Text → List Text
    grown c [] = (c ∷ []) ∷ []
    grown c (p ∷ ps) = (c ∷ p) ∷ ps

-- The loop of splitCSV.
unfoldable pub trimmed_parts : List Text → List Text
trimmed_parts [] = []
trimmed_parts (p ∷ ps) =
    let part = trim_space p in
    let rest = trimmed_parts ps in if same part [] then rest else part ∷ rest

-- splitCSV
unfoldable pub split_csv : Text → List Text
unfolding split_commas trimmed_parts
split_csv s = trimmed_parts (split_commas s)

-- envOr, by os.Getenv.
unfoldable pub env_or : (Text → Text) → Text → Text → Text
env_or env key fallback = let v = env key in if same v [] then fallback else v

-- envInt, by os.Getenv and strconv.Atoi.
unfoldable pub env_int : (Text → Text) → (Text → Option ℤ) → Text → ℤ → ℤ
env_int env atoi key fallback =
    let v = env key in
    if same v [] then fallback else elim (atoi v) [ none ↦ fallback | some n ↦ n ]

-- What url.Parse makes of a text.
pub record ProxyUrl : Type 0 where
  pub scheme : Text
  pub host : Text
  pub text : Text

pub data Proxy : Type 0 where
  no_proxy : Proxy
  proxied : ProxyUrl → Proxy
  invalid_proxy : Proxy

-- ParseProxyURL
unfoldable pub parse_proxy_url : (Text → Option ProxyUrl) → Text → Proxy
parse_proxy_url parse raw =
    let s = trim_space raw in
    if same s [] then no_proxy else elim (parse s) [
      | none ↦ invalid_proxy
      | some u ↦
          if not (
            same u.scheme (bytes "http")
            || (same u.scheme (bytes "https") || same u.scheme (bytes "socks5")))
          then invalid_proxy
          else if same u.host []
          then invalid_proxy
          else proxied u
    ]
