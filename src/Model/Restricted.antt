-- ===== src/Model/Restricted.antt =====
-- model/restricted.go: the rule on internal targets, RestrictedAddr and RestrictedURL. The parser
-- of URLs, the parser of addresses and Addr.String belong to Go's library and are parameters.
pub mod Table
pub mod Hosts
use tenpm_uptime_monitor.Prelude.{
  ℕ, Bool, true, false, ◌||◌, Option, none, some, List, [], ◌∷◌, ◌++◌, not, if◌then◌else◌,
}
use tenpm_uptime_monitor.Prelude.Text.{Text, bytes, same, has_suffix, trim_space, to_lower}
use tenpm_uptime_monitor.Model.Addr.{
  Addr, Prefix, ip4, ip6, unmap, is_valid, is_loopback, is_private, is_link_local_unicast,
  is_multicast, is_link_local_multicast, is_interface_local_multicast, is_unspecified,
  prefix_contains,
}

-- url.URL, with the parts that its methods Hostname and Port compute.
pub record Url : Type 0 where
  pub scheme : Text
  pub host : Text
  pub hostname : Text
  pub port : Text

pub record Net : Type 0 where
  -- url.Parse; `none` is a parse error.
  pub parse_url : Text → Option Url
  -- netip.ParseAddr; `none` is a parse error.
  pub parse_addr : Text → Option Addr
  -- Addr.String
  pub addr_string : Addr → Text

-- allowedSchemes
unfoldable pub allowed_scheme : Text → Bool
allowed_scheme s =
    same s (bytes "http") || same s (bytes "https") || same s (bytes "tcp") || same s (bytes "tls")

-- internalHostSuffixes
abbrev pub internal_host_suffixes : List Text
internal_host_suffixes =
    bytes ".local" ∷ bytes ".internal" ∷ bytes ".localdomain" ∷ bytes ".home.arpa" ∷ []

-- reservedRanges
abbrev pub reserved_ranges : List Prefix
reserved_ranges =
    record { family = ip4; leading = 0x191; host_bits = 22; text = bytes "100.64.0.0/10" }
    ∷ record { family = ip4; leading = 0xc00000; host_bits = 8; text = bytes "192.0.0.0/24" }
    ∷ record { family = ip4; leading = 0xc00002; host_bits = 8; text = bytes "192.0.2.0/24" }
    ∷ record { family = ip4; leading = 0x6309; host_bits = 17; text = bytes "198.18.0.0/15" }
    ∷ record { family = ip4; leading = 0xc63364; host_bits = 8; text = bytes "198.51.100.0/24" }
    ∷ record { family = ip4; leading = 0xcb0071; host_bits = 8; text = bytes "203.0.113.0/24" }
    ∷ record { family = ip4; leading = 0xf; host_bits = 28; text = bytes "240.0.0.0/4" }
    ∷ record {
      family = ip6;
      leading = 0x64ff9b0000000000000000;
      host_bits = 32;
      text = bytes "64:ff9b::/96";
    }
    ∷ record { family = ip6; leading = 0x2002; host_bits = 112; text = bytes "2002::/16" }
    ∷ []

-- The loop over reservedRanges at the end of RestrictedAddr.
in_reserved_range : Net → List Prefix → Addr → Bool × Text
in_reserved_range net [] a = (false, [])
in_reserved_range net (r ∷ rs) a =
    if prefix_contains r a
    then (true, net.addr_string a ++ (bytes " is in reserved range " ++ r.text))
    else in_reserved_range net rs a

-- RestrictedAddr after its first line, the call of Unmap.
restricted_unmapped : Net → Addr → Bool × Text
unfolding in_reserved_range
restricted_unmapped net a =
    if not (is_valid a)
    then (true, bytes "unparseable address")
    else if is_loopback a
    then (true, net.addr_string a ++ bytes " is loopback")
    else if is_private a
    then (true, net.addr_string a ++ bytes " is a private address")
    else if is_link_local_unicast a
    then (true, net.addr_string a ++ bytes " is link-local")
    else if is_link_local_multicast a || is_multicast a || is_interface_local_multicast a
    then (true, net.addr_string a ++ bytes " is multicast")
    else if is_unspecified a
    then (true, net.addr_string a ++ bytes " is unspecified")
    else in_reserved_range net reserved_ranges a

-- RestrictedAddr: whether the address is internal, and why.
unfoldable pub restricted_addr : Net → Addr → Bool × Text
unfolding restricted_unmapped
restricted_addr net a = restricted_unmapped net (unmap a)

-- strings.TrimSuffix(s, ".")
trim_dot : Text → Text
trim_dot [] = []
trim_dot (c ∷ []) = elim (same (c ∷ []) (bytes ".")) [ true ↦ [] | false ↦ c ∷ [] ]
trim_dot (c ∷ d ∷ s) = c ∷ trim_dot (d ∷ s)

-- The loop over internalHostSuffixes.
has_internal_suffix : List Text → Text → Bool
has_internal_suffix [] host = false
has_internal_suffix (s ∷ ss) host = has_suffix host s || has_internal_suffix ss host

-- The end of RestrictedURL: an address that the host spells out is judged now.
restricted_literal : Net → Option Addr → Bool × Text
restricted_literal net none = (false, [])
restricted_literal net (some a) =
    let (internal, why) = restricted_addr net a in if internal then (true, why) else (false, [])

-- RestrictedURL, from the lower-case host without its final dot on.
restricted_host : Net → Text → Bool × Text
unfolding has_internal_suffix restricted_literal
restricted_host net host =
    if same host []
    then (true, bytes "the URL has no host")
    else if same host (bytes "localhost")
    then (true, bytes "localhost means a different machine on every monitor")
    else if has_internal_suffix internal_host_suffixes host
    then (true, host ++ bytes " is an internal name that only resolves inside your own network")
    else restricted_literal net (net.parse_addr host)

-- RestrictedURL, on the result of url.Parse.
restricted_parsed : Net → Option Url → Bool × Text
unfolding restricted_host trim_dot
restricted_parsed net none = (true, bytes "the URL could not be parsed")
restricted_parsed net (some u) =
    if not (allowed_scheme u.scheme)
    then (if same u.scheme []
        then (true, bytes "the URL has no scheme, and only http, https, tcp and tls are allowed")
        else (true, bytes "scheme " ++ (u.scheme ++ bytes " is not http, https, tcp, or tls")))
    else restricted_host net (to_lower (trim_dot u.hostname))

-- RestrictedURL: whether the URL may only run on its own organisation's monitors, and why.
unfoldable pub restricted_url : Net → Text → Bool × Text
unfolding restricted_parsed
restricted_url net raw = restricted_parsed net (net.parse_url (trim_space raw))
