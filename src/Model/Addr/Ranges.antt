-- ===== src/Model/Addr/Ranges.antt =====
-- Address ranges as pairs of a first address and a length, and membership in a table of them.
use tenpm_uptime_monitor.Prelude.{ℕ, ◌+◌, ◌≤◌, ◌<◌, ◌⊎◌, List, [], ◌∷◌}

-- The address lies in one of the ranges.
abbrev pub InRanges : List (ℕ × ℕ) → ℕ → Type 0
InRanges [] n = ⊥
InRanges ((first, size) ∷ rest) n = (first ≤ n) × (n < first + size) ⊎ InRanges rest n
