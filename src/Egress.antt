-- ===== src/Egress.antt =====
-- monitor/egress.go: the egress policy. The verb %q of package fmt is a parameter.
pub mod Rules
use tenpm_uptime_monitor.Prelude.{Bool, ◌||◌, Option, none, some, List, [], ◌++◌, if◌then◌else◌}
use tenpm_uptime_monitor.Prelude.Text.{Text, bytes, same, trim_space, to_lower}
use tenpm_uptime_monitor.Model.Addr.{Addr}
use tenpm_uptime_monitor.Model.Restricted.{Net, restricted_url, restricted_addr}
use tenpm_uptime_monitor.Model.Dial.{
  DialError, restricted_addr_error, net_error, Dialed, connected, failed, Dialer,
  pinned_dial_context,
}

-- Policy
pub data Policy : Type 0 where
  policy_open : Policy
  policy_strict : Policy

-- ParsePolicy: the policy, and the error, if there is one.
unfoldable pub parse_policy : (Text → Text) → Text → Policy × Option Text
parse_policy quote s =
    let word = to_lower (trim_space s) in
    if same word [] || same word (bytes "open")
    then (policy_open, none)
    else if same word (bytes "strict")
    then (policy_strict, none)
    else (
      policy_open,
      some (bytes "unknown egress policy " ++ (quote s ++ bytes " (want \"open\" or \"strict\")")),
    )

-- Policy.String
unfoldable pub policy_string : Policy → Text
policy_string policy_strict = bytes "strict"
policy_string policy_open = bytes "open"

-- ErrBlocked, or any error of package net.
pub data EgressError : Type 0 where
  err_blocked : Text → EgressError
  passed_on : Text → EgressError

-- blocked, on a reason that a rule gave.
abbrev pub blocked_by : Bool × Text → Option EgressError
blocked_by (restricted, reason) = if restricted then some (err_blocked reason) else none

-- CheckURL: the error, if there is one.
unfoldable pub check_url : Net → Policy → Text → Option EgressError
check_url net policy_open raw = none
check_url net policy_strict raw = blocked_by (restricted_url net raw)

-- CheckAddr: the error, if there is one.
unfoldable pub check_addr : Net → Policy → Addr → Option EgressError
check_addr net policy_open a = none
check_addr net policy_strict a = blocked_by (restricted_addr net a)

pub data EgressDial (Conn : Type 0) : Type 0 where
  egress_connected : Conn → EgressDial Conn
  egress_failed : EgressError → EgressDial Conn

-- The wrapper's translation of the error.
unfoldable pub translated : {Conn : Type 0} → Dialed Conn → EgressDial Conn
translated (connected c) = egress_connected c
translated (failed (restricted_addr_error reason)) = egress_failed (err_blocked reason)
translated (failed (net_error e)) = egress_failed (passed_on e)

-- pinnedDialer, with the addresses that it dialled.
unfoldable pub pinned_dialer :
    {Conn : Type 0} → Net → Dialer Conn → Text → EgressDial Conn × List Addr
unfolding translated
pinned_dialer net dialer addr =
    let (r, dialed) = pinned_dial_context net dialer addr in (translated r, dialed)
