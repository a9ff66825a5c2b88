-- ===== src/Tests/Migrations.antt =====
-- Apply on two scripts and a directory.
use mathlib.Core.List.{Permᴰ}
use tenpm_uptime_monitor.Prelude.{ℕ, ◌+◌, refl, true, false, not, some, List, [], ◌∷◌, keep_if, map}
use tenpm_uptime_monitor.Prelude.Text.{Text, text_before, bytes, text_dec}
use tenpm_uptime_monitor.Prelude.Text.Sort.{Sorted, sort_texts}
use tenpm_uptime_monitor.Migrate.{Scripts, Migrated, recorded, file_names, apply}
use tenpm_uptime_monitor.Migrate.Once.{NoneTwice, Advanced, apply-Advanced}

-- A script adds one to a number, and nothing fails.
abbrev scripts : Scripts ℕ
scripts = record {
  fails = λ stage. false;
  entries = (bytes "2.sql", false) ∷ (bytes "old", true) ∷ (bytes "1.sql", false) ∷ [];
  execute = λ name n. some (n + 1);
}

-- The first script has run before.
abbrev migrated : Migrated ℕ
migrated = record { schema = 1; versions = bytes "1.sql" ∷ [] }

none_twice : NoneTwice (file_names scripts.entries)
unfolding file_names sort_texts text_before recorded text_dec
none_twice = (refl, (refl, tt))

apply-Advanced_example :
    let (failure, m') = apply scripts migrated in
    (names : List Text) × Sorted names
    × Permᴰ names (map (λ e. e.0) (keep_if (λ e. not e.1) scripts.entries))
    × Advanced scripts names migrated failure m'
apply-Advanced_example = apply-Advanced scripts migrated none_twice
