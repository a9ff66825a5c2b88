-- ===== src/Store/Valid/Results.antt =====
-- The calls of monitor/store.go on results_buffer and identity keep the invariant of the database.
use tenpm_uptime_monitor.Prelude.{refl, [], ◌∷◌, ℕ, List, Bool-cases, Option-cases, inl, inr}
use tenpm_uptime_monitor.Prelude.Text.{Text}
use tenpm_uptime_monitor.Model.Check.{Result, Time}
use tenpm_uptime_monitor.Store.Tables.{Db, Faults, find_guid}
use tenpm_uptime_monitor.Store.Buffer.{
  insert_result, buffer_result, mark_sent, purge_sent_older_than,
}
use tenpm_uptime_monitor.Store.Query.{set_identity}
use tenpm_uptime_monitor.Store.Valid.Keys.{IsValid, Keyed-append, Keyed-set_sent, Keyed-keep_if}

module _ (faults : Faults) (db : Db) (v : IsValid db) where
  pub insert-IsValid : (check_id : ℕ) (r : Result) → IsValid (insert_result check_id r db)
  unfolding insert_result
  insert-IsValid check_id r = record {
    distinct = v.distinct;
    keyed = Keyed-append 0 db.results_seq db.results _ refl v.keyed;
  }

  pub buffer-IsValid : (r : Result) → IsValid (buffer_result faults r db).1
  unfolding buffer_result
  buffer-IsValid r = elim (Bool-cases (faults 0)) [
    | inl refused ↦ rw refused v
    | inr fine ↦ elim (Option-cases (find_guid r.check_guid db.checks)) [
      | inl missing ↦ rw (fine, missing) v
      | inr (row, found) ↦ elim (Bool-cases (faults 1)) [
        | inl refused ↦ rw (fine, found, refused) v
        | inr fine' ↦ rw (fine, found, fine') (insert-IsValid row.id r)
      ]
    ]
  ]

  pub mark-IsValid : (ids : List ℕ) → IsValid (mark_sent faults ids db).1
  unfolding mark_sent
  mark-IsValid [] = v
  mark-IsValid (i ∷ ids) = elim (Bool-cases (faults 0)) [
    | inl refused ↦ rw refused v
    | inr fine ↦ rw fine (record {
      distinct = v.distinct;
      keyed = Keyed-set_sent 0 db.results_seq (i ∷ ids) db.results v.keyed;
    })
  ]

  pub purge-IsValid : (cutoff : Time) → IsValid (purge_sent_older_than faults cutoff db).1
  unfolding purge_sent_older_than
  purge-IsValid cutoff = elim (Bool-cases (faults 0)) [
    | inl refused ↦ rw refused v
    | inr fine ↦ rw fine (record {
      distinct = v.distinct;
      keyed = Keyed-keep_if _ 0 db.results_seq db.results v.keyed;
    })
  ]

  pub identify-IsValid :
      (monitor_id api_key : Text) → IsValid (set_identity faults monitor_id api_key db).1
  unfolding set_identity
  identify-IsValid monitor_id api_key = elim (Bool-cases (faults 0)) [
    | inl refused ↦ rw refused v
    | inr fine ↦ rw fine (record { distinct = v.distinct; keyed = v.keyed })
  ]
