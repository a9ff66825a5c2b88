-- ===== src/Runner/Reconcile/Current.antt =====
-- What reconcile leaves scheduled.
use tenpm_uptime_monitor.Prelude.{ℕ, ◌≡◌, ◌≢◌, ◌⊎◌, Bool, Option, none, some, List, [], ◌∷◌, All}
use tenpm_uptime_monitor.Model.Check.{Check, Headers}
use tenpm_uptime_monitor.Runner.Reconcile.{Scheduled, lookup}
use tenpm_uptime_monitor.Runner.Reconcile.Definition.{SameDefinition}

-- The keys of the checks are distinct, as a primary key is.
abbrev pub DistinctIds : List Check → Type 0
DistinctIds [] = Unit {0}
DistinctIds (c ∷ cs) = All (λ d. d.id ≢ c.id) cs × DistinctIds cs

module _ (same_headers : Headers → Headers → Bool) where
  -- The check runs under its own definition, or one that differs from it at most in UpdatedAt and in
  -- headers that pass the test on maps.
  abbrev pub Current : Scheduled → Check → Type 0
  Current s c = (d : Check) × (lookup c.id s ≡ some d) × ((d ≡ c) ⊎ SameDefinition same_headers d c)

-- What a reconciliation with the enabled checks leaves.
pub record Reconciled (same_headers : Headers → Headers → Bool) (checks : List Check)
    (s : Scheduled) (ls : ℕ → Option Bool) (s' : Scheduled) (ls' : ℕ → Option Bool) : Type 0 where
  pub current : All (Current same_headers s') checks
  pub removed : (id : ℕ) → All (λ c. c.id ≢ id) checks → lookup id s' ≡ none
  pub status_kept : All (λ c. ls' c.id ≡ ls c.id) checks
  pub forgotten : (id : ℕ) → All (λ c. c.id ≢ id) checks → lookup id s ≢ none → ls' id ≡ none
