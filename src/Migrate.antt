-- ===== src/Migrate.antt =====
-- internal/migrate/migrate.go: Apply. The scripts that SQLite runs are a parameter, and so is what the
-- embedded directory lists; a transaction that is not committed changes nothing.
pub mod Once
use tenpm_uptime_monitor.Prelude.{
  Bool, true, false, not, ◌||◌, Option, none, some, List, [], ◌∷◌, ◌++◌, map, if◌then◌else◌,
  keep_if,
}
use tenpm_uptime_monitor.Prelude.Text.{Text, same}
use tenpm_uptime_monitor.Prelude.Text.Sort.{sort_texts}

-- The calls of Apply that can fail, in their order. The first two stand before the loop.
pub data Stage : Type 0 where
  creating : Stage
  listing : Stage
  checking : Text → Stage
  reading : Text → Stage
  beginning : Text → Stage
  executing : Text → Stage
  recording : Text → Stage
  committing : Text → Stage

-- What Apply meets: which calls fail besides a script, the entries of the directory with whether each
-- is one itself, and what a file's script makes of the database, if it does not fail.
pub record Scripts (S : Type 0) : Type 0 where
  pub fails : Stage → Bool
  pub entries : List (Text × Bool)
  pub execute : Text → S → Option S

-- The database and the versions in schema_migrations.
pub record Migrated (S : Type 0) : Type 0 where
  pub schema : S
  pub versions : List Text

-- SELECT COUNT(*) FROM schema_migrations WHERE version = ?, as whether it is above 0.
unfoldable pub recorded : Text → List Text → Bool
recorded name [] = false
recorded name (v ∷ vs) = same v name || recorded name vs

-- The transaction of a file: the call that failed, if one did, and what it leaves.
unfoldable pub run_script : {S : Type 0} → Scripts S → Text → Migrated S → Option Stage × Migrated S
run_script w name m =
    if w.fails (reading name)
    then (some (reading name), m)
    else if w.fails (beginning name)
    then (some (beginning name), m)
    else elim (w.execute name m.schema) [
      | none ↦ (some (executing name), m)
      | some schema' ↦
          if w.fails (recording name)
          then (some (recording name), m)
          else if w.fails (committing name)
          then (some (committing name), m)
          else (none, record { schema = schema'; versions = m.versions ++ name ∷ [] })
    ]

-- A round of the loop.
unfoldable pub apply_file : {S : Type 0} → Scripts S → Text → Migrated S → Option Stage × Migrated S
unfolding recorded run_script
apply_file w name m =
    if w.fails (checking name)
    then (some (checking name), m)
    else if recorded name m.versions
    then (none, m)
    else run_script w name m

-- The loop over the names.
unfoldable pub apply_files :
    {S : Type 0} → Scripts S → List Text → Migrated S → Option Stage × Migrated S
unfolding apply_file
apply_files w [] m = (none, m)
apply_files w (name ∷ names) m =
    let (failure, m') = apply_file w name m in
    let rest = apply_files w names m' in
    elim failure [ some stage ↦ (some stage, m') | none ↦ rest ]

-- The names of the files, sorted.
unfoldable pub file_names : List (Text × Bool) → List Text
unfolding sort_texts
file_names entries = sort_texts (map (λ e. e.0) (keep_if (λ e. not e.1) entries))

-- Apply
unfoldable pub apply : {S : Type 0} → Scripts S → Migrated S → Option Stage × Migrated S
unfolding file_names apply_files
apply w m =
    if w.fails creating
    then (some creating, m)
    else if w.fails listing
    then (some listing, m)
    else apply_files w (file_names w.entries) m
