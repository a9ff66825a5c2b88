-- ===== src/Prelude/Text.antt =====
-- Go strings as lists of bytes, with the functions of package strings that the agent calls.
pub mod Occurs
pub mod Sort
use Prim.Native.Char.{code}
use Prim.Native.Nat.{ℕ, zero, suc, ◌+◌, ◌-◌, ◌/◌, ◌%◌}
use Prim.Native.String.{String}
use mathlib.Core.Bool.{Bool, true, false, ◌&&◌, ◌||◌}
use mathlib.Core.Path.{◌≡◌}
use mathlib.Core.Logic.{◌≢◌}
use native.Mathlib.Omega.{arith}
use mathlib.Core.List.{List, [], ◌∷◌, ◌++◌, map, reverse}
use tenpm_uptime_monitor.Prelude.Int.{ℤ, pos, negsuc}
use tenpm_uptime_monitor.Prelude.Tests.{ltb, leb, ◌==◌, if◌then◌else◌}
unfoldable use native.Mathlib.Decide.{ℕ_discrete}

abbrev pub Text : Type 0
Text = List ℕ

-- The bytes of an ASCII literal.
abbrev pub bytes : String → Text
bytes String.[] = []
bytes (String.◌∷◌ c s) = code c ∷ bytes s

unfoldable pub text_dec : Discrete Text
unfolding ℕ_discrete
text_dec = hlevel ℕ_discrete

-- `a == b` on strings.
abbrev pub same : Text → Text → Bool
same a b = elim (text_dec a b) [ yes _ ↦ true | no _ ↦ false ]

pub same-true : (a b : Text) → same a b ≡ true → a ≡ b
same-true a b h = elim (text_dec a b) [ yes e ↦ e | no n ↦ absurd (ground (arith, h, n)) ]

pub same-false : (a b : Text) → same a b ≡ false → a ≢ b
same-false a b h = elim (text_dec a b) [ yes e ↦ absurd (ground (arith, h, e)) | no n ↦ n ]

pub same_of_ne : (a b : Text) → a ≢ b → same a b ≡ false
same_of_ne a b n = elim (text_dec a b) [ yes e ↦ absurd (n e) | no m ↦ ground (arith, m) ]

-- strings.HasPrefix
unfoldable pub has_prefix : Text → Text → Bool
has_prefix s [] = true
has_prefix [] (p ∷ ps) = false
has_prefix (c ∷ s) (p ∷ ps) = c == p && has_prefix s ps

-- strings.Contains: the needle starts at some position.
unfoldable pub contains : Text → Text → Bool
unfolding has_prefix
contains [] needle = has_prefix [] needle
contains (c ∷ s) needle = has_prefix (c ∷ s) needle || contains s needle

-- strings.HasSuffix
unfoldable pub has_suffix : Text → Text → Bool
unfolding has_prefix
has_suffix s suffix = has_prefix (reverse s) (reverse suffix)

-- ASCII white space, as strings.TrimSpace removes it.
abbrev pub is_space : ℕ → Bool
is_space c = (leb 9 c && leb c 13) || c == 32

unfoldable pub trim_left : Text → Text
trim_left [] = []
trim_left (c ∷ s) = elim (is_space c) [ true ↦ trim_left s | false ↦ c ∷ s ]

unfoldable pub trim_space : Text → Text
unfolding trim_left
trim_space s = reverse (trim_left (reverse (trim_left s)))

-- strings.ToLower, on ASCII letters.
unfoldable pub to_lower : Text → Text
to_lower = map (λ c. if leb b'A' c && leb c b'Z' then c + 32 else c)

-- The digits of a number, the most significant first. A number has no more digits than its value
-- plus one, which is the fuel that `show_ℕ` gives.
digits_onto : ℕ → ℕ → Text → Text
digits_onto zero n acc = acc
digits_onto (suc f) n acc =
    let more = digits_onto f (n / 10) ((48 + n % 10) ∷ acc) in
    if ltb n 10 then (48 + n) ∷ acc else more

-- The verb %d of package fmt.
unfoldable pub show_ℕ : ℕ → Text
unfolding digits_onto
show_ℕ n = digits_onto (suc n) n []

unfoldable pub show_ℤ : ℤ → Text
unfolding show_ℕ
show_ℤ (pos n) = show_ℕ n
show_ℤ (negsuc n) = b'-' ∷ show_ℕ (suc n)

-- Byte by byte, a prefix first: the order of sort.Strings, and of SQLite's BINARY collation.
unfoldable pub text_before : Text → Text → Bool
text_before [] s = true
text_before (c ∷ s) [] = false
text_before (c ∷ s) (d ∷ t) = ltb c d || (c == d && text_before s t)
