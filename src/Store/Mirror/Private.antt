-- ===== src/Store/Mirror/Private.antt =====
-- The content guard of ApplyChecksDelta: which columns of a check a sync may change.
use mathlib.Core.List.{foldl}
use tenpm_uptime_monitor.Prelude.{
  ◌≡◌, refl, false, some, List, [], ◌∷◌, arith, All, Option-cases, inl, inr,
}
use tenpm_uptime_monitor.Prelude.Text.{Text, text_dec}
use tenpm_uptime_monitor.Model.Check.{Check, Time}
use tenpm_uptime_monitor.Store.Tables.{Row, Db, ok, Faults, find_guid}
use tenpm_uptime_monitor.Store.Headers.{Codec}
use tenpm_uptime_monitor.Store.Delta.{merge_synced, synced_row, apply_checks_delta}
use tenpm_uptime_monitor.Store.Mirror.Sync.{
  unkeyed, entry, encoded, synced_entry, apply_checks_delta-synced_entry,
}

-- Two rows hold the same definition of what is checked and how the outcome is judged.
pub record SameContent (r r' : Row) : Type 0 where
  pub url : r'.url ≡ r.url
  pub match_string : r'.match_string ≡ r.match_string
  pub match_mode : r'.match_mode ≡ r.match_mode
  pub post_data : r'.post_data ≡ r.post_data
  pub headers : r'.headers ≡ r.headers
  pub disable_redirects : r'.disable_redirects ≡ r.disable_redirects
  pub status_code_op : r'.status_code_op ≡ r.status_code_op
  pub status_code_value : r'.status_code_value ≡ r.status_code_value
  pub insecure_skip_verify : r'.insecure_skip_verify ≡ r.insecure_skip_verify
  pub timeout_sec : r'.timeout_sec ≡ r.timeout_sec
  pub max_response_time_ms : r'.max_response_time_ms ≡ r.max_response_time_ms
  pub cert_expiry_warn_days : r'.cert_expiry_warn_days ≡ r.cert_expiry_warn_days
  pub invert_result : r'.invert_result ≡ r.invert_result
  pub locally_defined : r'.locally_defined ≡ r.locally_defined

pub SameContent-refl : (r : Row) → SameContent r r
SameContent-refl r = ground arith

pub SameContent-trans : (a b c : Row) → SameContent a b → SameContent b c → SameContent a c
SameContent-trans a b c h k = ground arith

merge_synced-SameContent : (r x : Row) → x.url ≡ [] → SameContent r (merge_synced r x)
unfolding merge_synced
merge_synced-SameContent r x e = ground arith

-- An entry of a delta that, if it is about the guid, neither deletes it nor carries a URL.
abbrev pub LeavesContent : Text → Check → Type 0
LeavesContent g c = c.guid ≡ g → (c.deleted ≡ false) × (c.url ≡ [])

synced_entry-SameContent :
    (codec : Codec) (g : Text) (r : Row) (c : Check)
    → LeavesContent g c
    → (r' : Row) × (synced_entry codec g (some r) c ≡ some r') × SameContent r r'
unfolding synced_entry
synced_entry-SameContent codec g r c h = elim (text_dec c.guid g) [
  | yes e ↦
      let x : Row = synced_row c (encoded codec c) in
      (
        merge_synced r x,
        ground (arith, h e),
        merge_synced-SameContent r x (unfold synced_row in (h e).1),
      )
  | no ne ↦ (r, ground arith, SameContent-refl r)
]

foldl-SameContent :
    (codec : Codec) (g : Text) (r : Row) (cs : List Check)
    → All (LeavesContent g) cs
    → (r' : Row) × (foldl (synced_entry codec g) (some r) cs ≡ some r') × SameContent r r'
foldl-SameContent codec g r [] h = (r, refl, SameContent-refl r)
foldl-SameContent codec g r (c ∷ cs) h =
    let (mid, e, kept) = synced_entry-SameContent codec g r c h.0 in
    let (last, e', kept') = foldl-SameContent codec g mid cs h.1 in
    (last, rw e e', SameContent-trans r mid last kept kept')

-- A check that no entry of a delta deletes and of which none carries a URL keeps its definition through
-- the sync, and with it the mark that it is defined here: nothing that was imported for a private
-- check is blanked or replaced.
pub private_content_kept :
    (codec : Codec) (faults : Faults) (g : Text) (checks : List Check) (server_time : Time)
    (db db' : Db) (r : Row)
    → apply_checks_delta codec faults checks server_time db ≡ (ok tt, db')
    → find_guid g db.checks ≡ some r
    → All (LeavesContent g) checks
    → (r' : Row) × (find_guid g db'.checks ≡ some r') × SameContent r r'
private_content_kept codec faults g checks server_time db db' r h found leaves =
    let (last, e, kept) = foldl-SameContent codec g (unkeyed r) checks leaves in
    let synced : entry g db'.checks ≡ some last =
      ground
        (arith, apply_checks_delta-synced_entry codec faults g checks server_time db db' h, e) in
    elim (Option-cases (find_guid g db'.checks)) [
      | inl missing ↦ absurd (ground arith)
      | inr (r', f) ↦ (r', f, ground arith)
    ]
