-- ===== src/Tests/Targets.antt =====
-- The rule on internal targets and the dial, on literal addresses.
use tenpm_uptime_monitor.Prelude.{
  All, ◌≡◌, ◌↔◌, refl, true, false, none, some, [], ◌∷◌, ◌+◌, arith, ◌==◌, if◌then◌else◌,
}
use tenpm_uptime_monitor.Prelude.Text.{
  Text, bytes, text_dec, trim_space, trim_left, to_lower, has_suffix, has_prefix,
}
use tenpm_uptime_monitor.Model.Addr.{Addr, invalid, v4, v6}
use tenpm_uptime_monitor.Model.Restricted.{
  Url, Net, restricted_addr, restricted_url, allowed_scheme,
}
use tenpm_uptime_monitor.Model.Restricted.Table.{
  IsInternal, nat64, restricted_addr-IsInternal, zoned_nat64_accepted,
}
use tenpm_uptime_monitor.Model.Restricted.Hosts.{IsPublic}
use tenpm_uptime_monitor.Model.Dial.{
  Dialer, addresses, Connect, conn, connect_error, pinned_dial_context,
}
use tenpm_uptime_monitor.Egress.{policy_strict, check_url, check_addr, pinned_dialer}
use tenpm_uptime_monitor.Egress.Rules.{strict_egress}
use tenpm_uptime_monitor.Model.Dial.Safety.{Outcome, pinned_dial_context-Outcome}

abbrev pub public_url : Url
public_url = record {
  scheme = bytes "https";
  host = bytes "E.org";
  hostname = bytes "E.org";
  port = [];
}

-- A network on which every text parses as the same URL, and no host is a literal address.
abbrev pub small_net : Net
small_net = record {
  parse_url = λ raw. some public_url;
  parse_addr = λ host. none;
  addr_string = λ a. [];
}

restricted_addr-IsInternal_example :
    ((restricted_addr small_net (v4 0x0a000001)).0 ≡ true) ↔ IsInternal (v4 0x0a000001)
restricted_addr-IsInternal_example = restricted_addr-IsInternal small_net (v4 0x0a000001) tt

zoned_nat64_accepted_example :
    ((restricted_addr small_net (v6 (nat64 + 0x0a000001) [])).0 ≡ true)
    × ((restricted_addr small_net (v6 (nat64 + 0x0a000001) (bytes "eth0"))).0 ≡ false)
zoned_nat64_accepted_example =
    zoned_nat64_accepted small_net 0x0a000001 (bytes "eth0") (omega arith) (λ e. cc)

-- A dialer on which every name has two public addresses, and only the second answers.
abbrev pub second_answers : Addr → Text → Connect (Unit {0})
second_answers (v4 n) port = if n == 0x01010101 then connect_error (bytes "timeout") else conn tt
second_answers (v6 n zone) port = conn tt
second_answers invalid port = conn tt

abbrev pub small_dialer : Dialer (Unit {0})
small_dialer = record {
  split_host_port = λ addr. some (addr, bytes "443");
  lookup_net_ip = λ host. addresses (v4 0x01010101 ∷ v4 0x08080808 ∷ []);
  dial_context = second_answers;
}

pinned_dial_context-Outcome_example :
    let (r, dialed) = pinned_dial_context small_net small_dialer (bytes "e.org") in
    Outcome small_net small_dialer (bytes "e.org") r dialed
pinned_dial_context-Outcome_example =
    pinned_dial_context-Outcome small_net small_dialer (bytes "e.org")

let_through : check_url small_net policy_strict (bytes "https://E.org") ≡ none
unfolding check_url restricted_url allowed_scheme trim_space trim_left to_lower has_suffix
    has_prefix text_dec
let_through = refl

strict_egress_example :
    ((u : Url) × (some public_url ≡ some u) × IsPublic small_net u)
    × All
        (λ a. check_addr small_net policy_strict a ≡ none)
        (pinned_dialer small_net small_dialer (bytes "e.org")).1
strict_egress_example =
    strict_egress small_net small_dialer (bytes "https://E.org") (bytes "e.org") let_through
