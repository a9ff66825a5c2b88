-- ===== src/Model/Dial/Safety.antt =====
-- What PinnedDialContext may hand to the dialer.
use tenpm_uptime_monitor.Prelude.{
  ◌≡◌, refl, ◌⊎◌, inl, inr, false, none, some, List, [], ◌∷◌, arith, All, Option-cases, Bool-cases,
}
use tenpm_uptime_monitor.Prelude.Text.{Text}
use tenpm_uptime_monitor.Model.Addr.{Addr}
use tenpm_uptime_monitor.Model.Restricted.{Net, restricted_addr}
use tenpm_uptime_monitor.Model.Dial.{
  Dialed, connected, failed, DialError, restricted_addr_error, net_error, Lookup, addresses,
  lookup_error, Dialer, Connect, conn, connect_error, dial_in_order, first_restricted,
  dial_resolved, resolve, dial_host, pinned_dial_context,
}

Connect-cases :
    {Conn : Type 0} (d : Connect Conn)
    → ((c : Conn) × (d ≡ conn c)) ⊎ ((e : Text) × (d ≡ connect_error e))
Connect-cases (conn c) = inl (c, refl)
Connect-cases (connect_error e) = inr (e, refl)

Lookup-cases :
    (l : Lookup)
    → ((addrs : List Addr) × (l ≡ addresses addrs)) ⊎ ((e : Text) × (l ≡ lookup_error e))
Lookup-cases (addresses addrs) = inl (addrs, refl)
Lookup-cases (lookup_error e) = inr (e, refl)

module _ {Conn : Type 0} (net : Net) (dialer : Dialer Conn) where
  abbrev pub Accepted : Addr → Type 0
  Accepted a = (restricted_addr net a).0 ≡ false

  first_restricted-All :
      (addrs : List Addr) → first_restricted net dialer addrs ≡ none → All Accepted addrs
  unfolding first_restricted
  first_restricted-All [] h = tt
  first_restricted-All (a ∷ rest) h = elim (Bool-cases (restricted_addr net a).0) [
    | inl refused ↦ absurd (ground arith)
    | inr accepted ↦ (accepted, first_restricted-All rest (ground arith))
  ]

  -- The result of a loop over `addrs`: the addresses dialled are a first part of them, and the
  -- connection is that of the last address dialled, all before it having failed.
  pub data InOrder (port : Text) : List Addr → Dialed Conn → List Addr → Type 0 where
    exhausted : {e : DialError} → InOrder port [] (failed e) []
    reached :
        {a : Addr} {rest : List Addr} {c : Conn}
        → dialer.dial_context a port ≡ conn c
        → InOrder port (a ∷ rest) (connected c) (a ∷ [])
    passed :
        {a : Addr} {rest dialed : List Addr} {r : Dialed Conn} {e : Text}
        → dialer.dial_context a port ≡ connect_error e
        → InOrder port rest r dialed
        → InOrder port (a ∷ rest) r (a ∷ dialed)

  dial_in_order-InOrder :
      (port : Text) (last : DialError) (addrs : List Addr)
      → let (r, dialed) = dial_in_order net dialer port last addrs in InOrder port addrs r dialed
  unfolding dial_in_order
  dial_in_order-InOrder port last [] = exhausted
  dial_in_order-InOrder port last (a ∷ rest) = elim (Connect-cases (dialer.dial_context a port)) [
    | inl (c, e) ↦ rw (e, dial_in_order) (reached e)
    | inr (x, e) ↦ rw (e, dial_in_order) (passed e (dial_in_order-InOrder port (net_error x) rest))
  ]

  -- What one call may have done, with the addresses that it dialled.
  pub data Outcome (addr : Text) : Dialed Conn → List Addr → Type 0 where
    unparseable :
        {reason : Text}
        → dialer.split_host_port addr ≡ none
        → Outcome addr (failed (restricted_addr_error reason)) []
    unresolved :
        {host port e : Text}
        → dialer.split_host_port addr ≡ some (host, port)
        → resolve net dialer host ≡ lookup_error e
        → Outcome addr (failed (net_error e)) []
    no_address :
        {host port reason : Text}
        → dialer.split_host_port addr ≡ some (host, port)
        → resolve net dialer host ≡ addresses []
        → Outcome addr (failed (restricted_addr_error reason)) []
    refused :
        {host port reason : Text} {addrs : List Addr}
        → dialer.split_host_port addr ≡ some (host, port)
        → resolve net dialer host ≡ addresses addrs
        → ¬ All Accepted addrs
        → Outcome addr (failed (restricted_addr_error reason)) []
    dialed_in_order :
        {host port : Text} {addrs dialed : List Addr} {r : Dialed Conn}
        → dialer.split_host_port addr ≡ some (host, port)
        → resolve net dialer host ≡ addresses addrs
        → All Accepted addrs
        → InOrder port addrs r dialed
        → Outcome addr r dialed

  first_restricted_not-All :
      (addrs : List Addr) {reason : Text}
      → first_restricted net dialer addrs ≡ some reason
      → ¬ All Accepted addrs
  unfolding first_restricted
  first_restricted_not-All [] h all = cc
  first_restricted_not-All (a ∷ rest) {reason} h all =
      first_restricted_not-All rest {reason = reason} (ground (arith, all.0)) all.1

  module _ (addr host port : Text) (split : dialer.split_host_port addr ≡ some (host, port)) where
    dial_resolved-Outcome :
        (addrs : List Addr)
        → resolve net dialer host ≡ addresses addrs
        → let (r, dialed) = dial_resolved net dialer host port addrs in Outcome addr r dialed
    unfolding dial_resolved
    dial_resolved-Outcome [] e = no_address split e
    dial_resolved-Outcome (a ∷ rest) e =
        elim (Option-cases (first_restricted net dialer (a ∷ rest))) [
          | inl fine ↦
              rw (fine, dial_resolved)
                (dialed_in_order split e (first_restricted-All (a ∷ rest) fine)
                  (dial_in_order-InOrder port (net_error []) (a ∷ rest)))
          | inr (reason, bad) ↦
              rw (bad, dial_resolved) (refused split e (first_restricted_not-All (a ∷ rest) bad))
        ]

    dial_host-Outcome : let (r, dialed) = dial_host net dialer host port in Outcome addr r dialed
    unfolding dial_host
    dial_host-Outcome = elim (Lookup-cases (resolve net dialer host)) [
      | inl (addrs, e) ↦ rw (e, dial_host) (dial_resolved-Outcome addrs e)
      | inr (x, e) ↦ rw (e, dial_host) (unresolved split e)
    ]

  -- PinnedDialContext dials addresses only if RestrictedAddr accepts every address that the host
  -- resolved to; it then dials these and no others, in order, up to the first that connects, whose
  -- connection it returns. In every other case it dials nothing and returns an error.
  pub pinned_dial_context-Outcome :
      (addr : Text) → let (r, dialed) = pinned_dial_context net dialer addr in Outcome addr r dialed
  unfolding pinned_dial_context
  pinned_dial_context-Outcome addr = elim (Option-cases (dialer.split_host_port addr)) [
    | inl e ↦ rw (e, pinned_dial_context) (unparseable e)
    | inr ((host, port), e) ↦ rw (e, pinned_dial_context) (dial_host-Outcome addr host port e)
  ]
