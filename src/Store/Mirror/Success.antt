-- ===== src/Store/Mirror/Success.antt =====
-- ApplyChecksDelta: when it succeeds.
use tenpm_uptime_monitor.Prelude.{
  ℕ, suc, ◌+◌, ◌≡◌, refl, false, some, List, [], ◌∷◌, All, Bool-cases, inl, inr, length,
}
use tenpm_uptime_monitor.Prelude.Text.{Text}
use tenpm_uptime_monitor.Model.Check.{Check, Time}
use tenpm_uptime_monitor.Store.Tables.{Row, Db, ok, Faults}
use tenpm_uptime_monitor.Store.Headers.{Codec, encode_headers}
use tenpm_uptime_monitor.Store.Delta.{
  delete_guid, upsert, merge_synced, synced_row, apply_check, apply_checks, transaction,
  apply_checks_delta,
}

-- The headers of the check can be encoded.
abbrev pub Encodable : Codec → Check → Type 0
Encodable codec c = (h : Text) × (encode_headers codec c.headers ≡ ok h)

module _ (codec : Codec) (faults : Faults) (fine : (n : ℕ) → faults n ≡ false) where
  apply_check-succeeds :
      (n : ℕ) (c : Check) (rows : List Row)
      → Encodable codec c
      → (rows' : List Row) × (apply_check codec faults n c rows ≡ ok rows')
  unfolding apply_check
  apply_check-succeeds n c rows (h, e) = elim (Bool-cases c.deleted) [
    | inl gone ↦ (delete_guid c.guid rows, rw (gone, fine n) refl)
    | inr kept ↦ (upsert merge_synced (synced_row c h) rows, rw (kept, e, fine n) refl)
  ]

  apply_checks-succeeds :
      (n : ℕ) (cs : List Check) (rows : List Row)
      → All (Encodable codec) cs
      → (rows' : List Row) × (apply_checks codec faults n cs rows ≡ ok rows')
  unfolding apply_checks
  apply_checks-succeeds n [] rows h = (rows, refl)
  apply_checks-succeeds n (c ∷ cs) rows h =
      let (mid, e) = apply_check-succeeds n c rows h.0 in
      let (last, e') = apply_checks-succeeds (suc n) cs mid h.1 in (last, rw e e')

  transaction-succeeds :
      (checks : List Check) (server_time : Time) (db : Db)
      → All (Encodable codec) checks
      → (db' : Db) × (transaction codec faults checks server_time db ≡ ok db')
  unfolding transaction
  transaction-succeeds checks server_time db h =
      let (rows, e) = apply_checks-succeeds 3 checks db.checks h in
      (
        record db { checks = rows; last_synced_at = some server_time },
        rw (fine 0, fine 1, fine 2, e, fine (3 + length checks), fine (4 + length checks)) refl,
      )

-- When SQLite refuses nothing and the headers of every check of the delta can be encoded,
-- ApplyChecksDelta succeeds.
pub apply_checks_delta-succeeds :
    (codec : Codec) (faults : Faults) (checks : List Check) (server_time : Time) (db : Db)
    → ((n : ℕ) → faults n ≡ false)
    → All (Encodable codec) checks
    → (db' : Db) × (apply_checks_delta codec faults checks server_time db ≡ (ok tt, db'))
unfolding apply_checks_delta
apply_checks_delta-succeeds codec faults checks server_time db fine h =
    let (db', e) = transaction-succeeds codec faults fine checks server_time db h in
    (db', rw e refl)
