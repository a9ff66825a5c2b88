-- ===== src/Model/Restricted/Hosts.antt =====
-- RestrictedURL: what is known of a URL that may be handed to a shared monitor.
use mathlib.Core.List.{reverse, reverse-append}
use tenpm_uptime_monitor.Prelude.{
  ◌≡◌, ◌≢◌, ◌⊎◌, inl, inr, true, false, Option, none, some, List, [], ◌∷◌, ◌++◌, arith,
  Option-cases, All,
}
use tenpm_uptime_monitor.Prelude.Text.{Text, bytes, has_suffix, trim_space, to_lower}
use tenpm_uptime_monitor.Prelude.Text.Occurs.{has_prefix-append}
use tenpm_uptime_monitor.Model.Addr.{Addr}
use tenpm_uptime_monitor.Model.Restricted.{
  Url, Net, allowed_scheme, internal_host_suffixes, restricted_addr, trim_dot, has_internal_suffix,
  restricted_literal, restricted_parsed, restricted_url,
}
use tenpm_uptime_monitor.Model.Restricted.Table.{IsInternal, Unzoned, restricted_addr-IsInternal}

-- The host that RestrictedURL judges: lower case, without a final dot.
pub host_name : Url → Text
host_name u = to_lower (trim_dot u.hostname)

-- What the rule promises of a URL that it does not restrict.
pub record IsPublic (net : Net) (u : Url) : Type 0 where
  pub scheme :
      (u.scheme ≡ bytes "http")
      ⊎ (u.scheme ≡ bytes "https")
      ⊎ (u.scheme ≡ bytes "tcp")
      ⊎ (u.scheme ≡ bytes "tls")
  pub named : host_name u ≢ []
  pub not_local : host_name u ≢ bytes "localhost"
  pub no_suffix :
      All (λ suffix. (before : Text) → host_name u ≢ before ++ suffix) internal_host_suffixes
  pub no_internal_literal :
      (a : Addr) → net.parse_addr (host_name u) ≡ some a → Unzoned a → ¬ IsInternal a

has_suffix-append : (before suffix : Text) → has_suffix (before ++ suffix) suffix ≡ true
unfolding has_suffix
has_suffix-append before suffix =
    rw (reverse-append before suffix) (has_prefix-append (reverse suffix) (reverse before))

no_suffix_of_false :
    (host : Text) (suffixes : List Text)
    → has_internal_suffix suffixes host ≡ false
    → All (λ suffix. (before : Text) → host ≢ before ++ suffix) suffixes
unfolding has_internal_suffix
no_suffix_of_false host [] h = tt
no_suffix_of_false host (s ∷ ss) h = (
  (λ before e.
      let found : has_suffix host s ≡ true = rw e (has_suffix-append before s) in
      absurd (ground arith)),
  no_suffix_of_false host ss (ground arith),
)

restricted_literal-false :
    (net : Net) (literal : Option Addr)
    → (restricted_literal net literal).0 ≡ false
    → (a : Addr) → literal ≡ some a
    → (restricted_addr net a).0 ≡ false
unfolding restricted_literal
restricted_literal-false net none h a e = cc
restricted_literal-false net (some b) h a e = ground arith

restricted_parsed-IsPublic :
    (net : Net) (u : Url) → (restricted_parsed net (some u)).0 ≡ false → IsPublic net u
unfolding restricted_parsed allowed_scheme host_name
restricted_parsed-IsPublic net u h = record {
  scheme = ground arith;
  named = ground arith;
  not_local = ground arith;
  no_suffix = no_suffix_of_false (host_name u) internal_host_suffixes (ground arith);
  no_internal_literal = λ a e z internal.
      let literal : (restricted_literal net (net.parse_addr (host_name u))).0 ≡ false =
        ground arith in
      let accepted : (restricted_addr net a).0 ≡ false =
        restricted_literal-false net (net.parse_addr (host_name u)) literal a e in
      let refused : (restricted_addr net a).0 ≡ true =
        (restricted_addr-IsInternal net a z).1 internal in
      absurd (ground arith);
}

-- A URL that RestrictedURL does not restrict parses, after white space is trimmed; its scheme is
-- one of the four; and its host, in lower case and without a final dot, is neither empty nor
-- "localhost", ends in no internal suffix, and spells out no internal address without a zone.
pub restricted_url-IsPublic :
    (net : Net) (raw : Text)
    → (restricted_url net raw).0 ≡ false
    → (u : Url) × (net.parse_url (trim_space raw) ≡ some u) × IsPublic net u
unfolding restricted_url
restricted_url-IsPublic net raw h = elim (Option-cases (net.parse_url (trim_space raw))) [
  | inl failed ↦ absurd (unfold restricted_parsed in ground arith)
  | inr (u, parsed) ↦ (u, parsed, restricted_parsed-IsPublic net u (rw parsed at h))
]
