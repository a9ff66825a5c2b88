-- ===== src/Store/Mirror/Server.antt =====
-- ApplyChecksDelta: the server's last word on a check.
use mathlib.Core.List.{foldl}
use tenpm_uptime_monitor.Prelude.{
  ◌≡◌, refl, ◌∙◌, ◌≢◌, false, Option, none, some, List, [], ◌∷◌, ◌++◌, arith, All,
}
use tenpm_uptime_monitor.Prelude.Text.{Text}
use tenpm_uptime_monitor.Model.Check.{Check, Time}
use tenpm_uptime_monitor.Store.Tables.{Row, Db, ok, Faults}
use tenpm_uptime_monitor.Store.Headers.{Codec}
use tenpm_uptime_monitor.Store.Delta.{merge_synced, synced_row, apply_checks_delta}
use tenpm_uptime_monitor.Store.Mirror.Sync.{
  entry, encoded, synced_entry, apply_checks_delta-synced_entry,
}

-- What the row holds of a check that the server sent: its metadata, and if it carries a URL also
-- its whole definition, whatever was imported here.
pub record Follows (codec : Codec) (c : Check) (r : Row) : Type 0 where
  pub name : r.name ≡ c.name
  pub interval_sec : r.interval_sec ≡ c.interval_sec
  pub enabled : r.enabled ≡ c.enabled
  pub result_detail_max_chars : r.result_detail_max_chars ≡ c.result_detail_max_chars
  pub monitor_count : r.monitor_count ≡ c.monitor_count
  pub monitor_rank : r.monitor_rank ≡ c.monitor_rank
  pub url : c.url ≢ [] → r.url ≡ c.url
  pub match_string : c.url ≢ [] → r.match_string ≡ c.match_string
  pub match_mode : c.url ≢ [] → r.match_mode ≡ c.match_mode
  pub post_data : c.url ≢ [] → r.post_data ≡ c.post_data
  pub headers : c.url ≢ [] → r.headers ≡ encoded codec c
  pub disable_redirects : c.url ≢ [] → r.disable_redirects ≡ c.disable_redirects
  pub status_code_op : c.url ≢ [] → r.status_code_op ≡ c.status_code_op
  pub status_code_value : c.url ≢ [] → r.status_code_value ≡ c.status_code_value
  pub insecure_skip_verify : c.url ≢ [] → r.insecure_skip_verify ≡ c.insecure_skip_verify
  pub timeout_sec : c.url ≢ [] → r.timeout_sec ≡ c.timeout_sec
  pub max_response_time_ms : c.url ≢ [] → r.max_response_time_ms ≡ c.max_response_time_ms
  pub cert_expiry_warn_days : c.url ≢ [] → r.cert_expiry_warn_days ≡ c.cert_expiry_warn_days
  pub invert_result : c.url ≢ [] → r.invert_result ≡ c.invert_result
  pub locally_defined : c.url ≢ [] → r.locally_defined ≡ false

synced_row-Follows : (codec : Codec) (c : Check) → Follows codec c (synced_row c (encoded codec c))
unfolding synced_row
synced_row-Follows codec c = ground arith

merge_synced-Follows :
    (codec : Codec) (c : Check) (r : Row)
    → Follows codec c (merge_synced r (synced_row c (encoded codec c)))
unfolding merge_synced synced_row
merge_synced-Follows codec c r = ground arith

synced_entry-Follows :
    (codec : Codec) (g : Text) (e : Option Row) (c : Check)
    → c.guid ≡ g
    → c.deleted ≡ false
    → (r : Row) × (synced_entry codec g e c ≡ some r) × Follows codec c r
unfolding synced_entry
synced_entry-Follows codec g none c same kept =
    (synced_row c (encoded codec c), ground arith, synced_row-Follows codec c)
synced_entry-Follows codec g (some r) c same kept =
    (merge_synced r (synced_row c (encoded codec c)), ground arith, merge_synced-Follows codec c r)

foldl-synced_entry_ne :
    (codec : Codec) (g : Text) (e : Option Row) (cs : List Check)
    → All (λ c. c.guid ≢ g) cs
    → foldl (synced_entry codec g) e cs ≡ e
unfolding synced_entry
foldl-synced_entry_ne codec g e [] h = refl
foldl-synced_entry_ne codec g e (c ∷ cs) h =
    let skipped : synced_entry codec g e c ≡ e = ground (arith, h.0) in
    rw skipped (foldl-synced_entry_ne codec g e cs h.1)

foldl-synced_entry-Follows :
    (codec : Codec) (g : Text) (e : Option Row) (before after : List Check) (c : Check)
    → c.guid ≡ g
    → c.deleted ≡ false
    → All (λ d. d.guid ≢ g) after
    → (r : Row) × (foldl (synced_entry codec g) e (before ++ c ∷ after) ≡ some r)
      × Follows codec c r
foldl-synced_entry-Follows codec g e [] after c same kept later =
    let (r, found, follows) = synced_entry-Follows codec g e c same kept in
    (r, foldl-synced_entry_ne codec g (synced_entry codec g e c) after later ∙ found, follows)
foldl-synced_entry-Follows codec g e (b ∷ before) after c same kept later =
    foldl-synced_entry-Follows codec g (synced_entry codec g e b) before after c same kept later

-- After a sync that succeeded, the row of a check is what the last entry of the delta about its guid
-- says, if that does not delete it: the metadata always, and the whole definition, with the headers
-- as encoded, when the entry carries a URL, in which case the row is no longer marked as defined here.
pub apply_checks_delta-Follows :
    (codec : Codec) (faults : Faults) (before after : List Check) (c : Check) (server_time : Time)
    (db db' : Db)
    → apply_checks_delta codec faults (before ++ c ∷ after) server_time db ≡ (ok tt, db')
    → c.deleted ≡ false
    → All (λ d. d.guid ≢ c.guid) after
    → (r : Row) × (entry c.guid db'.checks ≡ some r) × Follows codec c r
apply_checks_delta-Follows codec faults before after c server_time db db' h kept later =
    let (r, found, follows) =
      foldl-synced_entry-Follows codec c.guid (entry c.guid db.checks) before after c refl kept
        later in
    (
      r,
      apply_checks_delta-synced_entry codec faults c.guid (before ++ c ∷ after) server_time db db' h
          ∙ found,
      follows,
    )
