-- ===== src/Store/Valid.antt =====
-- Every operation of monitor/store.go keeps the invariant of the database.
pub mod Keys
pub mod Results
pub use tenpm_uptime_monitor.Store.Valid.Keys.{
  Keyed, IsValid, Keyed-append, Keyed-set_sent, Keyed-keep_if,
}
use tenpm_uptime_monitor.Store.Valid.Results.{
  buffer-IsValid, mark-IsValid, purge-IsValid, identify-IsValid,
}
use tenpm_uptime_monitor.Prelude.{
  ℕ, suc, ◌≤◌, ◌<◌, ◌≡◌, refl, Bool, some, List, [], ◌∷◌, ◌++◌, arith, keep_if, Bool-cases,
  Option-cases, inl, inr,
}
use tenpm_uptime_monitor.Prelude.Text.{Text, text_dec}
use tenpm_uptime_monitor.Model.Check.{Check, Time, Result}
use tenpm_uptime_monitor.Store.Tables.{
  Row, Buffered, Db, Res, ok, err, Res-cases, Faults, find_guid,
}
use tenpm_uptime_monitor.Store.Headers.{Codec, encode_headers}
use tenpm_uptime_monitor.Store.Delta.{
  merge_synced, upsert, delete_guid, synced_row, apply_check, apply_checks, transaction,
  apply_checks_delta, settle,
}
use tenpm_uptime_monitor.Store.Import.{imported_row, merge_imported, import_private_check}
use tenpm_uptime_monitor.Store.Buffer.{
  insert_result, buffer_result, set_sent, mark_sent, purge_sent_older_than,
}
use tenpm_uptime_monitor.Store.Query.{set_identity}
use tenpm_uptime_monitor.Store.Mirror.Distinct.{Distinct, upsert-Distinct, delete-Distinct}

-- A call of a transaction that settles keeps what its success would have.
settle-IsValid :
    (db : Db) (r : Res Db)
    → IsValid db
    → ((db' : Db) → r ≡ ok db' → IsValid db')
    → IsValid (settle db r).1
settle-IsValid db (ok db') v h = h db' refl
settle-IsValid db (err e) v h = v

module _ (codec : Codec) (faults : Faults) where
  apply_check-Distinct :
      (n : ℕ) (c : Check) (rows : List Row) {rows' : List Row}
      → Distinct rows
      → apply_check codec faults n c rows ≡ ok rows'
      → Distinct rows'
  unfolding apply_check
  apply_check-Distinct n c rows {rows'} d h = elim (Bool-cases c.deleted) [
    | inl gone ↦
        let e : delete_guid c.guid rows ≡ rows' = ground arith in
        rw (← e) (delete-Distinct c.guid rows d)
    | inr kept ↦ elim (Res-cases (encode_headers codec c.headers)) [
      | inl (headers, enc) ↦
          let e : upsert merge_synced (synced_row c headers) rows ≡ rows' = ground arith in
          rw (← e) (
            upsert-Distinct merge_synced (λ r x. unfold merge_synced in refl)
              (λ r x. unfold merge_synced in refl) (synced_row c headers) rows d)
      | inr (x, enc) ↦ absurd (ground arith)
    ]
  ]

  apply_checks-Distinct :
      (n : ℕ) (cs : List Check) (rows : List Row) {rows' : List Row}
      → Distinct rows
      → apply_checks codec faults n cs rows ≡ ok rows'
      → Distinct rows'
  unfolding apply_checks
  apply_checks-Distinct n [] rows {rows'} d h = let e : rows ≡ rows' = ground arith in rw (← e) d
  apply_checks-Distinct n (c ∷ cs) rows d h = elim (Res-cases (apply_check codec faults n c rows)) [
    | inl (mid, e) ↦
        apply_checks-Distinct (suc n) cs mid (apply_check-Distinct n c rows d e) (rw e at h)
    | inr (x, e) ↦ absurd (ground arith)
  ]

-- The calls that write to the database.
pub data Call : Type 0 where
  sync : List Check → Time → Call
  import_check : Check → Call
  buffer : Result → Call
  mark : List ℕ → Call
  purge : Time → Call
  identify : Text → Text → Call

module _ (codec : Codec) where
  -- The database after a call, whether it succeeded or not.
  pub after_call : Faults → Call → Db → Db
  after_call faults (sync checks server_time) db =
      (apply_checks_delta codec faults checks server_time db).1
  after_call faults (import_check c) db = (import_private_check codec faults c db).1
  after_call faults (buffer r) db = (buffer_result faults r db).1
  after_call faults (mark ids) db = (mark_sent faults ids db).1
  after_call faults (purge cutoff) db = (purge_sent_older_than faults cutoff db).1
  after_call faults (identify monitor_id api_key) db = (set_identity faults monitor_id api_key db).1

  module _ (faults : Faults) (db : Db) (v : IsValid db) where
    pub sync-IsValid :
        (checks : List Check) (server_time : Time)
        → IsValid (apply_checks_delta codec faults checks server_time db).1
    unfolding apply_checks_delta transaction
    sync-IsValid checks server_time =
        settle-IsValid db (transaction codec faults checks server_time db) v λ db' e.
          elim (Res-cases (apply_checks codec faults 3 checks db.checks)) [
            | inl (rows, r) ↦
                let d = apply_checks-Distinct codec faults 3 checks db.checks v.distinct r in
                let same : db' ≡ record db { checks = rows; last_synced_at = some server_time } =
                  ground arith in
                rw same (record { distinct = d; keyed = v.keyed })
            | inr (x, r) ↦ absurd (ground arith)
          ]

    pub import-IsValid : (c : Check) → IsValid (import_private_check codec faults c db).1
    import-IsValid c = elim (text_dec c.guid []) [
      | yes e ↦
          let same : (import_private_check codec faults c db).1 ≡ db =
            unfold import_private_check in ground arith in
          rw same v
      | no ne ↦ elim (Res-cases (encode_headers codec c.headers)) [
        | inl (h, enc) ↦ elim (Bool-cases (faults 0)) [
          | inl refused ↦
              let same : (import_private_check codec faults c db).1 ≡ db =
                unfold import_private_check in ground arith in
              rw same v
          | inr fine ↦
              let same : (import_private_check codec faults c db).1
                  ≡ record db { checks = upsert merge_imported (imported_row c h) db.checks } =
                unfold import_private_check in ground arith in
              rw same (record {
                distinct =
                    upsert-Distinct merge_imported (λ r x. unfold merge_imported in refl)
                      (λ r x. unfold merge_imported in refl) (imported_row c h) db.checks
                      v.distinct;
                keyed = v.keyed;
              })
        ]
        | inr (x, enc) ↦
            let same : (import_private_check codec faults c db).1 ≡ db =
              unfold import_private_check in ground arith in
            rw same v
      ]
    ]

  -- Every call that writes keeps the invariant, whichever of its statements fails: no guid and no
  -- key stands twice in a table, and the keys of the results buffer rise up to at most the counter
  -- that AUTOINCREMENT keeps.
  pub after_call-IsValid :
      (faults : Faults) (call : Call) (db : Db) → IsValid db → IsValid (after_call faults call db)
  unfolding after_call
  after_call-IsValid faults (sync checks server_time) db v =
      sync-IsValid faults db v checks server_time
  after_call-IsValid faults (import_check c) db v = import-IsValid faults db v c
  after_call-IsValid faults (buffer r) db v = buffer-IsValid faults db v r
  after_call-IsValid faults (mark ids) db v = mark-IsValid faults db v ids
  after_call-IsValid faults (purge cutoff) db v = purge-IsValid faults db v cutoff
  after_call-IsValid faults (identify monitor_id api_key) db v =
      identify-IsValid faults db v monitor_id api_key
