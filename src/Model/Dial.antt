-- ===== src/Model/Dial.antt =====
-- model/restricted.go: PinnedDialContext. The resolver and the dialer of package net are parameters;
-- the model also keeps the addresses that were handed to the dialer, in order.
pub mod Safety
use tenpm_uptime_monitor.Prelude.{
  ℕ, Bool, true, false, Option, none, some, List, [], ◌∷◌, ◌++◌, if◌then◌else◌,
}
use tenpm_uptime_monitor.Prelude.Text.{Text, bytes}
use tenpm_uptime_monitor.Model.Addr.{Addr}
use tenpm_uptime_monitor.Model.Restricted.{Net, restricted_addr}

-- The error that a dial returns: RestrictedAddrError, or any error of package net.
pub data DialError : Type 0 where
  restricted_addr_error : Text → DialError
  net_error : Text → DialError

pub data Dialed (Conn : Type 0) : Type 0 where
  connected : Conn → Dialed Conn
  failed : DialError → Dialed Conn

pub data Lookup : Type 0 where
  addresses : List Addr → Lookup
  lookup_error : Text → Lookup

pub data Connect (Conn : Type 0) : Type 0 where
  conn : Conn → Connect Conn
  connect_error : Text → Connect Conn

-- What package net does: net.SplitHostPort, Resolver.LookupNetIP, and Dialer.DialContext on one
-- address and port.
pub record Dialer (Conn : Type 0) : Type 0 where
  pub split_host_port : Text → Option (Text × Text)
  pub lookup_net_ip : Text → Lookup
  pub dial_context : Addr → Text → Connect Conn

module _ {Conn : Type 0} (net : Net) (dialer : Dialer Conn) where
  -- The second loop: the validated addresses in order, until one connects.
  dial_in_order : Text → DialError → List Addr → Dialed Conn × List Addr
  dial_in_order port last_err [] = (failed last_err, [])
  dial_in_order port last_err (a ∷ rest) = elim (dialer.dial_context a port) [
    | conn c ↦ (connected c, a ∷ [])
    | connect_error e ↦ let (r, dialed) = dial_in_order port (net_error e) rest in (r, a ∷ dialed)
  ]

  -- The first loop: the reason of the first address that RestrictedAddr refuses.
  first_restricted : List Addr → Option Text
  first_restricted [] = none
  first_restricted (a ∷ rest) =
      let (restricted, reason) = restricted_addr net a in
      if restricted then some reason else first_restricted rest

  dial_resolved : Text → Text → List Addr → Dialed Conn × List Addr
  unfolding dial_in_order first_restricted
  dial_resolved host port [] =
      (failed (restricted_addr_error (host ++ bytes " resolved to no addresses")), [])
  dial_resolved host port (a ∷ rest) = elim (first_restricted (a ∷ rest)) [
    | some reason ↦ (failed (restricted_addr_error reason), [])
    | none ↦ dial_in_order port (net_error []) (a ∷ rest)
  ]

  -- A literal address is not looked up.
  pub resolve : Text → Lookup
  resolve host = elim (net.parse_addr host) [
    | some literal ↦ addresses (literal ∷ [])
    | none ↦ dialer.lookup_net_ip host
  ]

  dial_host : Text → Text → Dialed Conn × List Addr
  unfolding resolve dial_resolved
  dial_host host port = elim (resolve host) [
    | lookup_error e ↦ (failed (net_error e), [])
    | addresses addrs ↦ dial_resolved host port addrs
  ]

  -- PinnedDialContext
  unfoldable pub pinned_dial_context : Text → Dialed Conn × List Addr
  unfolding dial_host
  pinned_dial_context addr = elim (dialer.split_host_port addr) [
    | none ↦ (failed (restricted_addr_error (bytes "unparseable address " ++ addr)), [])
    | some (host, port) ↦ dial_host host port
  ]
