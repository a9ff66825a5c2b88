-- ===== src/Egress/Rules.antt =====
-- What the egress policy lets through.
use tenpm_uptime_monitor.Prelude.{◌≡◌, ◌⊎◌, ◌↔◌, none, some, List, [], arith, All, All-map}
use tenpm_uptime_monitor.Prelude.Text.{Text, bytes, trim_space, to_lower}
use tenpm_uptime_monitor.Model.Addr.{Addr}
use tenpm_uptime_monitor.Model.Restricted.{Url, Net}
use tenpm_uptime_monitor.Model.Restricted.Hosts.{IsPublic, restricted_url-IsPublic}
use tenpm_uptime_monitor.Model.Dial.{Dialed, Dialer, pinned_dial_context}
use tenpm_uptime_monitor.Model.Dial.Safety.{
  Accepted, InOrder, exhausted, reached, passed, Outcome, unparseable, unresolved, no_address,
  refused, dialed_in_order, pinned_dial_context-Outcome,
}
use tenpm_uptime_monitor.Egress.{
  policy_open, policy_strict, parse_policy, check_url, check_addr, pinned_dialer,
}

-- The word of the flag, without white space around it and in lower case.
abbrev pub word : Text → Text
word s = to_lower (trim_space s)

-- ParsePolicy returns the strict policy exactly on the word "strict", and returns the open one
-- without an error exactly on no word and on the word "open": no misspelt word opens the policy.
pub parse_policy_iff :
    (quote : Text → Text) (s : Text)
    → (((parse_policy quote s).0 ≡ policy_strict) ↔ (word s ≡ bytes "strict"))
      × ((((parse_policy quote s).0 ≡ policy_open) × ((parse_policy quote s).1 ≡ none))
          ↔ ((word s ≡ []) ⊎ (word s ≡ bytes "open")))
unfolding parse_policy
parse_policy_iff quote s =
    ((λ h. ground arith, λ h. ground arith), (λ h. ground arith, λ h. ground arith))

InOrder-Accepted :
    {Conn : Type 0} (net : Net) (dialer : Dialer Conn) (port : Text) {addrs dialed : List Addr}
    {r : Dialed Conn}
    → InOrder net dialer port addrs r dialed
    → All (Accepted net dialer) addrs
    → All (Accepted net dialer) dialed
InOrder-Accepted net dialer port exhausted h = tt
InOrder-Accepted net dialer port (reached e) h = (h.0, tt)
InOrder-Accepted net dialer port (passed e o) h = (h.0, InOrder-Accepted net dialer port o h.1)

Outcome-Accepted :
    {Conn : Type 0} (net : Net) (dialer : Dialer Conn) (addr : Text) {r : Dialed Conn}
    {dialed : List Addr}
    → Outcome net dialer addr r dialed
    → All (Accepted net dialer) dialed
Outcome-Accepted net dialer addr (unparseable e) = tt
Outcome-Accepted net dialer addr (unresolved e e') = tt
Outcome-Accepted net dialer addr (no_address e e') = tt
Outcome-Accepted net dialer addr (refused e e' bad) = tt
Outcome-Accepted net dialer addr (dialed_in_order e e' h o) = InOrder-Accepted net dialer _ o h

-- Every address that the pinned dialer dials is one that CheckAddr lets through.
pub pinned_dialer-Accepted :
    {Conn : Type 0} (net : Net) (dialer : Dialer Conn) (addr : Text)
    → All (λ a. check_addr net policy_strict a ≡ none) (pinned_dialer net dialer addr).1
unfolding pinned_dialer check_addr
pinned_dialer-Accepted net dialer addr =
    All-map (pinned_dial_context net dialer addr).1 (λ a e. ground (arith, e))
      (Outcome-Accepted net dialer addr (pinned_dial_context-Outcome net dialer addr))

-- Under the strict policy a URL that CheckURL lets through keeps to the rules on hosts, which say
-- nothing of an address literal with a zone, and every address that the
-- pinned dialer dials is one that CheckAddr lets through.
pub strict_egress :
    {Conn : Type 0} (net : Net) (dialer : Dialer Conn) (raw addr : Text)
    → check_url net policy_strict raw ≡ none
    → ((u : Url) × (net.parse_url (trim_space raw) ≡ some u) × IsPublic net u)
      × All (λ a. check_addr net policy_strict a ≡ none) (pinned_dialer net dialer addr).1
unfolding check_url
strict_egress net dialer raw addr h =
    (restricted_url-IsPublic net raw (ground arith), pinned_dialer-Accepted net dialer addr)
