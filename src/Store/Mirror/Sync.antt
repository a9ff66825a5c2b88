-- ===== src/Store/Mirror/Sync.antt =====
-- ApplyChecksDelta: what a sync does to the mirror of one guid, and to the database when it fails.
use mathlib.Core.List.{foldl}
use mathlib.Core.Option
use tenpm_uptime_monitor.Prelude.{
  ℕ, suc, ◌≡◌, refl, true, false, Option, none, some, List, [], ◌∷◌, arith, if◌then◌else◌,
  Option-cases, Bool-cases, inl, inr, ◌⊎◌,
}
use tenpm_uptime_monitor.Prelude.Text.{Text, same, text_dec}
use tenpm_uptime_monitor.Model.Check.{Check, Time}
use tenpm_uptime_monitor.Store.Tables.{
  Row, Db, Res, ok, err, Res-cases, StoreError, Faults, find_guid,
}
use tenpm_uptime_monitor.Store.Headers.{Codec, encode_headers}
use tenpm_uptime_monitor.Store.Delta.{
  merge_synced, upsert, delete_guid, synced_row, apply_check, apply_checks, transaction,
  apply_checks_delta,
}
use tenpm_uptime_monitor.Store.Mirror.{find_guid-upsert_self, find_guid-upsert_ne, find_guid-delete}

-- Either the call succeeds, or the database is as it was.
pub data Atomic (db : Db) (P : Db → Type 0) : Res (Unit {0}) × Db → Type 0 where
  committed : {db' : Db} → P db' → Atomic db P (ok tt, db')
  rolled_back : {e : StoreError} → Atomic db P (err e, db)

-- What a successful sync leaves: the loop's table, the server's time as the watermark, and the other
-- tables as they were.
pub record Synced (codec : Codec) (faults : Faults) (checks : List Check) (server_time : Time)
    (db db' : Db) : Type 0 where
  pub rows : apply_checks codec faults 3 checks db.checks ≡ ok db'.checks
  pub watermark : db'.last_synced_at ≡ some server_time
  pub identity : db'.identity ≡ db.identity
  pub results : db'.results ≡ db.results
  pub results_seq : db'.results_seq ≡ db.results_seq

module _ (codec : Codec) (faults : Faults) where
  transaction-Synced :
      (checks : List Check) (server_time : Time) (db : Db) {db' : Db}
      → transaction codec faults checks server_time db ≡ ok db'
      → Synced codec faults checks server_time db db'
  unfolding transaction
  transaction-Synced checks server_time db {db'} h = ground arith

  -- ApplyChecksDelta either succeeds, with the whole delta applied to the mirror and the watermark
  -- at the server's time, or fails and leaves the database as it was, whichever statement fails.
  pub apply_checks_delta-Atomic :
      (checks : List Check) (server_time : Time) (db : Db)
      → Atomic db
          (Synced codec faults checks server_time db)
          (apply_checks_delta codec faults checks server_time db)
  unfolding apply_checks_delta
  apply_checks_delta-Atomic checks server_time db =
      elim (Res-cases (transaction codec faults checks server_time db)) [
        | inl (db', e) ↦ rw e (committed (transaction-Synced checks server_time db e))
        | inr (x, e) ↦ rw e rolled_back
      ]

merge_synced-guid : (r x : Row) → (merge_synced r x).guid ≡ r.guid
unfolding merge_synced
merge_synced-guid r x = refl

synced_row-guid : (c : Check) (h : Text) → (synced_row c h).guid ≡ c.guid
unfolding synced_row
synced_row-guid c h = refl

-- A row without its key, which SQLite chooses.
abbrev pub unkeyed : Row → Row
unkeyed r = record r { id = 0 }

-- The mirror of one guid, as a client of the table reads it.
abbrev pub entry : Text → List Row → Option Row
entry g rows = Option.map unkeyed (find_guid g rows)

abbrev pub encoded : Codec → Check → Text
encoded codec c = elim (encode_headers codec c.headers) [ ok h ↦ h | err _ ↦ [] ]

-- What one entry of a delta asks of the mirror of a guid: nothing if it is about another guid;
-- else to drop it, or to seed it from the server, or to merge what the server sent into it.
unfoldable pub synced_entry : Codec → Text → Option Row → Check → Option Row
synced_entry codec g e c =
    if same c.guid g
    then (if c.deleted then none else elim e [
      | none ↦ some (synced_row c (encoded codec c))
      | some r ↦ some (merge_synced r (synced_row c (encoded codec c)))
    ])
    else e

module _ (codec : Codec) (faults : Faults) where
  entry-upsert :
      (g : Text) (x : Row) (rows : List Row)
      → x.id ≡ 0
      → entry g (upsert merge_synced x rows) ≡ (
          if same x.guid g
          then elim (entry g rows) [ none ↦ some x | some r ↦ some (merge_synced r x) ]
          else entry g rows)
  unfolding merge_synced
  entry-upsert g x rows z = elim (text_dec x.guid g) [
    | yes e ↦ elim (Option-cases (find_guid x.guid rows)) [
      | inl f ↦ ground (arith, z, f, find_guid-upsert_self merge_synced merge_synced-guid x rows)
      | inr (r, f) ↦ ground (arith, f, find_guid-upsert_self merge_synced merge_synced-guid x rows)
    ]
    | no ne ↦ ground (arith, find_guid-upsert_ne merge_synced merge_synced-guid g x rows ne)
  ]

  -- A round of the loop that succeeds has deleted or upserted.
  pub apply_check_cases :
      (n : ℕ) (c : Check) (rows rows' : List Row)
      → apply_check codec faults n c rows ≡ ok rows'
      → ((c.deleted ≡ true) × (rows' ≡ delete_guid c.guid rows))
        ⊎ ((c.deleted ≡ false)
            × (rows' ≡ upsert merge_synced (synced_row c (encoded codec c)) rows))
  unfolding apply_check
  apply_check_cases n c rows rows' h = elim (Bool-cases c.deleted) [
    | inl gone ↦ inl (gone, ground arith)
    | inr kept ↦ elim (Res-cases (encode_headers codec c.headers)) [
      | inl (headers, e) ↦ inr (kept, ground (arith, e))
      | inr (x, e) ↦ absurd (ground (arith, e))
    ]
  ]

  entry-apply_check :
      (n : ℕ) (g : Text) (c : Check) (rows rows' : List Row)
      → apply_check codec faults n c rows ≡ ok rows'
      → entry g rows' ≡ synced_entry codec g (entry g rows) c
  unfolding synced_entry synced_row
  entry-apply_check n g c rows rows' h = elim (apply_check_cases n c rows rows' h) [
    | inl (gone, e) ↦ ground (arith, e, find_guid-delete g c.guid rows)
    | inr (kept, e) ↦
        ground (arith, kept, e, entry-upsert g (synced_row c (encoded codec c)) rows refl)
  ]

  entry-apply_checks :
      (n : ℕ) (g : Text) (cs : List Check) (rows rows' : List Row)
      → apply_checks codec faults n cs rows ≡ ok rows'
      → entry g rows' ≡ foldl (synced_entry codec g) (entry g rows) cs
  unfolding apply_checks
  entry-apply_checks n g [] rows rows' h = ground arith
  entry-apply_checks n g (c ∷ cs) rows rows' h =
      elim (Res-cases (apply_check codec faults n c rows)) [
        | inl (mid, e) ↦
            rw (← entry-apply_check n g c rows mid e)
              (entry-apply_checks (suc n) g cs mid rows' (ground (arith, e)))
        | inr (x, e) ↦ absurd (ground (arith, e))
      ]

  pub apply_checks_delta-rows :
      (checks : List Check) (server_time : Time) (db db' : Db)
      → apply_checks_delta codec faults checks server_time db ≡ (ok tt, db')
      → apply_checks codec faults 3 checks db.checks ≡ ok db'.checks
  unfolding apply_checks_delta
  apply_checks_delta-rows checks server_time db db' h =
      elim (Res-cases (transaction codec faults checks server_time db)) [
        | inl (after, e) ↦
            let same_db : after ≡ db' = ground (arith, e) in
            rw (← same_db) (transaction-Synced codec faults checks server_time db e).rows
        | inr (x, e) ↦ absurd (ground (arith, e))
      ]

  pub apply_checks_delta-results :
      (checks : List Check) (server_time : Time) (db db' : Db)
      → apply_checks_delta codec faults checks server_time db ≡ (ok tt, db')
      → db'.results ≡ db.results
  unfolding apply_checks_delta
  apply_checks_delta-results checks server_time db db' h =
      elim (Res-cases (transaction codec faults checks server_time db)) [
        | inl (after, e) ↦
            let same_db : after ≡ db' = ground (arith, e) in
            rw (← same_db) (transaction-Synced codec faults checks server_time db e).results
        | inr (x, e) ↦ absurd (ground (arith, e))
      ]

  -- After a sync that succeeded, the mirror of every guid is that of before the sync, changed by the
  -- entries of the delta in their order: the table implements a map from guids.
  pub apply_checks_delta-synced_entry :
      (g : Text) (checks : List Check) (server_time : Time) (db db' : Db)
      → apply_checks_delta codec faults checks server_time db ≡ (ok tt, db')
      → entry g db'.checks ≡ foldl (synced_entry codec g) (entry g db.checks) checks
  apply_checks_delta-synced_entry g checks server_time db db' h =
      entry-apply_checks 3 g checks db.checks db'.checks
        (apply_checks_delta-rows checks server_time db db' h)
