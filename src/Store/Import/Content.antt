-- ===== src/Store/Import/Content.antt =====
-- ImportPrivateCheck: what an import sets, and what it leaves to the server.
use tenpm_uptime_monitor.Prelude.{
  ℕ, ◌≡◌, refl, ◌≢◌, ◌⊎◌, true, Option, none, some, List, [], arith, Option-cases, inl, inr,
}
use tenpm_uptime_monitor.Prelude.Int.{ℤ, pos, negsuc, ◌≤ℤ◌}
use tenpm_uptime_monitor.Prelude.Text.{Text}
use tenpm_uptime_monitor.Model.Check.{Check, match_contains}
use tenpm_uptime_monitor.Store.Tables.{Row, Db, ok, Res-cases, Faults, find_guid, next_id}
use tenpm_uptime_monitor.Store.Headers.{Codec, encode_headers}
use tenpm_uptime_monitor.Store.Delta.{upsert}
use tenpm_uptime_monitor.Store.Mirror.{find_guid-upsert_self, find_guid-upsert_ne}
use tenpm_uptime_monitor.Store.Import.{imported_row, merge_imported, import_private_check}

-- y is x, or 0 if x is negative.
abbrev pub Floored : ℤ → ℤ → Type 0
Floored x y = ((pos 0 ≤ℤ x) × (y ≡ x)) ⊎ ((x ≤ℤ negsuc 0) × (y ≡ pos 0))

-- The row holds the definition in the file, and is marked as defined here.
pub record Defines (codec : Codec) (c : Check) (r : Row) : Type 0 where
  pub url : r.url ≡ c.url
  pub match_string : r.match_string ≡ c.match_string
  pub match_mode :
      ((c.match_mode ≡ []) × (r.match_mode ≡ match_contains))
      ⊎ ((c.match_mode ≢ []) × (r.match_mode ≡ c.match_mode))
  pub post_data : r.post_data ≡ c.post_data
  pub disable_redirects : r.disable_redirects ≡ c.disable_redirects
  pub status_code_op : r.status_code_op ≡ c.status_code_op
  pub status_code_value : r.status_code_value ≡ c.status_code_value
  pub insecure_skip_verify : r.insecure_skip_verify ≡ c.insecure_skip_verify
  pub invert_result : r.invert_result ≡ c.invert_result
  pub headers : encode_headers codec c.headers ≡ ok r.headers
  pub timeout_sec : Floored c.timeout_sec r.timeout_sec
  pub max_response_time_ms : Floored c.max_response_time_ms r.max_response_time_ms
  pub cert_expiry_warn_days : Floored c.cert_expiry_warn_days r.cert_expiry_warn_days
  pub locally_defined : r.locally_defined ≡ true

-- What the server sets, and an import of a known check leaves alone.
pub record SameMetadata (r r' : Row) : Type 0 where
  pub id : r'.id ≡ r.id
  pub name : r'.name ≡ r.name
  pub interval_sec : r'.interval_sec ≡ r.interval_sec
  pub enabled : r'.enabled ≡ r.enabled
  pub result_detail_max_chars : r'.result_detail_max_chars ≡ r.result_detail_max_chars
  pub monitor_count : r'.monitor_count ≡ r.monitor_count
  pub monitor_rank : r'.monitor_rank ≡ r.monitor_rank

-- The row that an import leaves for its guid, by what stood there before: the metadata of a known
-- check stay, and those of a new one come from the file, with an interval that is not 0.
abbrev pub Leaves : Check → Option Row → Row → Type 0
Leaves c none r' =
    (r'.name ≡ c.name)
    × (r'.enabled ≡ c.enabled)
    × (r'.interval_sec ≢ pos 0)
    × Floored c.result_detail_max_chars r'.result_detail_max_chars
Leaves c (some r) r' = SameMetadata r r'

module _ (codec : Codec) where
  imported_row-Defines :
      (c : Check) (h : Text) (k : ℕ)
      → encode_headers codec c.headers ≡ ok h
      → let r = record (imported_row c h) { id = k } in Defines codec c r × Leaves c none r
  unfolding imported_row
  imported_row-Defines c h k e = (ground (arith, e), ground arith)

  merge_imported-Defines :
      (c : Check) (h : Text) (r : Row)
      → encode_headers codec c.headers ≡ ok h
      → let r' = merge_imported r (imported_row c h) in Defines codec c r' × Leaves c (some r) r'
  unfolding imported_row merge_imported
  merge_imported-Defines c h r e = (ground (arith, e), ground arith)

merge_imported-guid : (r x : Row) → (merge_imported r x).guid ≡ r.guid
unfolding merge_imported
merge_imported-guid r x = refl

imported_row-guid : (c : Check) (h : Text) → (imported_row c h).guid ≡ c.guid
unfolding imported_row
imported_row-guid c h = refl

module _ (codec : Codec) (c : Check) (h : Text) (rows : List Row) where
  abbrev after : List Row
  after = upsert merge_imported (imported_row c h) rows

  upserted-Defines :
      encode_headers codec c.headers ≡ ok h
      → (r' : Row) × (find_guid c.guid after ≡ some r')
        × Defines codec c r'
        × Leaves c (find_guid c.guid rows) r'
  unfolding imported_row
  upserted-Defines e =
      let x = imported_row c h in
      let self = find_guid-upsert_self merge_imported merge_imported-guid x rows in
      elim (Option-cases (find_guid c.guid rows)) [
        | inl f ↦
            let (defines, leaves) = imported_row-Defines codec c h (next_id rows) e in
            (record x { id = next_id rows }, rw f at self, defines, rw f leaves)
        | inr (r, f) ↦
            let (defines, leaves) = merge_imported-Defines codec c h r e in
            (merge_imported r x, rw f at self, defines, rw f leaves)
      ]

  upserted_ne : (g : Text) → c.guid ≢ g → find_guid g after ≡ find_guid g rows
  upserted_ne g ne =
      find_guid-upsert_ne merge_imported merge_imported-guid g (imported_row c h) rows
        (rw (imported_row-guid c h) ne)

module _ (codec : Codec) (faults : Faults) (c : Check) (db db' : Db)
    (imported : import_private_check codec faults c db ≡ (ok tt, db')) where
  -- A successful import upserts the row of the file, and touches no other table.
  import_private_check_cases :
      (h : Text) × (encode_headers codec c.headers ≡ ok h)
      × (db' ≡ record db { checks = upsert merge_imported (imported_row c h) db.checks })
  unfolding import_private_check
  import_private_check_cases = elim (Res-cases (encode_headers codec c.headers)) [
    | inl (h, e) ↦ (h, e, ground (arith, e))
    | inr (x, e) ↦ absurd (ground (arith, e))
  ]

  -- After a successful import the check's row holds the definition in the file, with negative
  -- thresholds raised to 0, and is marked as defined here; a check that was known keeps its
  -- metadata, and a new one gets those of the file and an interval that is not 0. Every other check,
  -- the results and the watermark stay as they were.
  pub import_private_check-Defines :
      (r' : Row) × (find_guid c.guid db'.checks ≡ some r')
      × Defines codec c r'
      × Leaves c (find_guid c.guid db.checks) r'
      × (db' ≡ record db { checks = db'.checks })
      × ((g : Text) → c.guid ≢ g → find_guid g db'.checks ≡ find_guid g db.checks)
  import_private_check-Defines =
      let (h, e, same_db) = import_private_check_cases in
      let (r', found, defines, leaves) = upserted-Defines codec c h db.checks e in
      rw same_db (r', found, defines, leaves, refl, upserted_ne codec c h db.checks)
