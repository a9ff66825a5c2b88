-- ===== src/Tests/Sync.antt =====
-- The sync and the import on the sample database.
use mathlib.Core.List.{foldl}
use tenpm_uptime_monitor.Prelude.{◌≡◌, ◌≢◌, refl, some, List, [], ◌∷◌, arith}
use tenpm_uptime_monitor.Prelude.Text.{Text, bytes, text_dec}
use tenpm_uptime_monitor.Model.Check.{Check, unix_epoch}
use tenpm_uptime_monitor.Store.Tables.{Row, Db, ok, find_guid}
use tenpm_uptime_monitor.Store.Headers.{encode_headers}
use tenpm_uptime_monitor.Store.Delta.{
  merge_synced, update_guid, upsert, synced_row, apply_check, apply_checks, transaction,
  apply_checks_delta,
}
use tenpm_uptime_monitor.Store.Import.{import_private_check}
use tenpm_uptime_monitor.Store.Import.Content.{Defines, Leaves, import_private_check-Defines}
use tenpm_uptime_monitor.Store.Mirror.Sync.{entry, synced_entry, apply_checks_delta-synced_entry}
use tenpm_uptime_monitor.Store.Mirror.Private.{SameContent, private_content_kept}
use tenpm_uptime_monitor.Store.Valid.{IsValid, Call, after_call, after_call-IsValid}
use tenpm_uptime_monitor.Tests.Samples.{
  sample_check, private_check, one_header, no_faults, row_b, sample_db, sample_db-IsValid,
}

-- A delta that redefines check a and renames check b without sending its definition.
abbrev delta : List Check
delta = sample_check ∷ private_check ∷ []

abbrev synced_db : Db
synced_db = (apply_checks_delta one_header no_faults delta unix_epoch sample_db).1

synced : apply_checks_delta one_header no_faults delta unix_epoch sample_db ≡ (ok tt, synced_db)
unfolding apply_checks_delta transaction apply_checks apply_check encode_headers upsert update_guid
    find_guid text_dec merge_synced synced_row
synced = refl

apply_checks_delta-synced_entry_example :
    entry (bytes "a") synced_db.checks
    ≡ foldl (synced_entry one_header (bytes "a")) (entry (bytes "a") sample_db.checks) delta
apply_checks_delta-synced_entry_example =
    apply_checks_delta-synced_entry one_header no_faults (bytes "a") delta unix_epoch sample_db
      synced_db synced

found_b : find_guid (bytes "b") sample_db.checks ≡ some row_b
unfolding find_guid text_dec
found_b = refl

private_content_kept_example :
    (r' : Row) × (find_guid (bytes "b") synced_db.checks ≡ some r') × SameContent row_b r'
private_content_kept_example =
    private_content_kept one_header no_faults (bytes "b") delta unix_epoch sample_db synced_db row_b
      synced found_b ((λ e. absurd (ground arith)), ((λ e. (refl, refl)), tt))

-- A new check of the import file.
abbrev new_check : Check
new_check = record sample_check { guid = bytes "c"; headers = (bytes "k", bytes "v") ∷ [] }

abbrev imported_db : Db
imported_db = (import_private_check one_header no_faults new_check sample_db).1

imported : import_private_check one_header no_faults new_check sample_db ≡ (ok tt, imported_db)
unfolding import_private_check encode_headers text_dec
imported = refl

import_private_check-Defines_example :
    (r' : Row) × (find_guid (bytes "c") imported_db.checks ≡ some r')
    × Defines one_header new_check r'
    × Leaves new_check (find_guid (bytes "c") sample_db.checks) r'
    × (imported_db ≡ record sample_db { checks = imported_db.checks })
    × ((g : Text) → bytes "c" ≢ g → find_guid g imported_db.checks ≡ find_guid g sample_db.checks)
import_private_check-Defines_example =
    import_private_check-Defines one_header no_faults new_check sample_db imported_db imported

after_call-IsValid_example :
    IsValid (after_call one_header no_faults (Call.sync delta unix_epoch) sample_db)
after_call-IsValid_example =
    after_call-IsValid one_header no_faults (Call.sync delta unix_epoch) sample_db sample_db-IsValid
