-- ===== src/Checker/Registry.antt =====
-- monitor/registry.go: RegisterChecker and registeredCheckers. A panic is a value.
use tenpm_uptime_monitor.Prelude.{
  ℕ, Bool, true, false, not, ◌&&◌, ◌||◌, Option, none, some, List, [], ◌∷◌, ◌++◌, map, leb, ◌==◌,
  if◌then◌else◌,
}
use tenpm_uptime_monitor.Prelude.Text.{Text, bytes, same}
use tenpm_uptime_monitor.Model.Check.{Check, Result}
use tenpm_uptime_monitor.Egress.{Policy, policy_open, policy_strict}

-- Checker and CheckerFactory, for a check type of another program.
abbrev pub Custom : Type 0
Custom = Check → Result

abbrev pub Factory : Type 0
Factory = Policy → Custom

abbrev pub Registry : Type 0
Registry = List (Text × Factory)

-- builtinSchemes
unfoldable pub is_builtin : Text → Bool
is_builtin s =
    same s (bytes "http") || same s (bytes "https") || same s (bytes "tcp") || same s (bytes "tls")

-- The two classes of schemeRE.
abbrev pub is_lower : ℕ → Bool
is_lower c = leb b'a' c && leb c b'z'

abbrev pub is_scheme_rest : ℕ → Bool
is_scheme_rest c = is_lower c || leb b'0' c && leb c b'9' || c == b'+' || c == b'.' || c == b'-'

unfoldable pub all_scheme_rest : Text → Bool
all_scheme_rest [] = true
all_scheme_rest (c ∷ s) = is_scheme_rest c && all_scheme_rest s

-- schemeRE.MatchString
unfoldable pub valid_scheme : Text → Bool
unfolding all_scheme_rest
valid_scheme [] = false
valid_scheme (c ∷ s) = is_lower c && all_scheme_rest s

-- The lookup in a map from schemes.
unfoldable pub find_scheme {ℓ} : {A : Type ℓ} → Text → List (Text × A) → Option A
find_scheme s [] = none
find_scheme s ((k, a) ∷ rest) = if same k s then some a else find_scheme s rest

pub data Registered : Type 0 where
  panicked : Text → Registered
  registered : Registry → Registered

-- RegisterChecker; `quote` is the verb %q, and a nil factory is `none`.
unfoldable pub register_checker : (Text → Text) → Text → Option Factory → Registry → Registered
register_checker quote scheme factory registry =
    if not (valid_scheme scheme)
    then panicked (
        bytes "monitor: RegisterChecker: invalid scheme "
        ++ (quote scheme ++ bytes " (want lowercase letters, digits, +, - and .)"))
    else if is_builtin scheme
    then panicked (
        bytes "monitor: RegisterChecker: scheme "
        ++ (quote scheme ++ bytes " is built in and cannot be replaced"))
    else elim factory [
      | none ↦ panicked (bytes "monitor: RegisterChecker: nil factory for scheme " ++ quote scheme)
      | some f ↦ elim (find_scheme scheme registry) [
        | some old ↦ panicked (
            bytes "monitor: RegisterChecker: scheme "
            ++ (quote scheme ++ bytes " is already registered"))
        | none ↦ registered ((scheme, f) ∷ registry)
      ]
    ]

-- registeredCheckers
unfoldable pub registered_checkers : Policy → Registry → List (Text × Custom)
registered_checkers policy_strict registry = []
registered_checkers policy_open registry = map (λ e. (e.0, e.1 policy_open)) registry
