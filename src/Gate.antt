-- ===== src/Gate.antt =====
-- monitor/gate.go: the connectivity gate. A dial and a probe override are their outcomes, and a call
-- is given what the clock reads in it; the lock makes each call one step.
pub mod Outage
use tenpm_uptime_monitor.Prelude.{
  ℕ, ◌+◌, ◌*◌, ◌^◌, Bool, true, false, not, Option, none, some, List, [], ◌∷◌, if◌then◌else◌, ◌&&◌,
  ◌==◌,
}
use tenpm_uptime_monitor.Prelude.Int.{ℤ, pos, negsuc, eq_ℤ, ltb_ℤ, ◌-ℤ◌, ◌+ℤ◌, ◌*ℤ◌}
use tenpm_uptime_monitor.Prelude.Text.{Text, bytes}
use tenpm_uptime_monitor.Model.Check.{Time, zero_time}

-- DefaultProbeTargets
abbrev pub default_probe_targets : List Text
default_probe_targets = bytes "1.1.1.1:443" ∷ bytes "8.8.8.8:53" ∷ bytes "9.9.9.9:443" ∷ []

-- Time.IsZero
abbrev pub is_zero : Time → Bool
is_zero t = eq_ℤ t.sec zero_time.sec && t.nsec == 0

-- Time.Sub: a Duration in nanoseconds, which stops at the bounds of an int64.
unfoldable pub sub_time : Time → Time → ℤ
sub_time t u =
    let d = (t.sec -ℤ u.sec) *ℤ pos 1000000000 +ℤ (pos t.nsec -ℤ pos u.nsec) in
    if ltb_ℤ (pos 9223372036854775807) d
    then pos 9223372036854775807
    else if ltb_ℤ d (negsuc 9223372036854775807)
    then negsuc 9223372036854775807
    else d

-- ConnectivityGate, without the functions that probe.
pub record Gate : Type 0 where
  pub targets : List Text
  pub online : Bool
  pub offline_since : Time
  pub last_outage_ended_at : Time
  pub last_outage_duration : ℤ

-- NewConnectivityGate
unfoldable pub new_gate : List Text → Gate
new_gate targets = record {
  targets = elim targets [ [] ↦ default_probe_targets | t ∷ ts ↦ t ∷ ts ];
  online = true;
  offline_since = zero_time;
  last_outage_ended_at = zero_time;
  last_outage_duration = pos 0;
}

-- LastOutage: the end, the duration, and whether there was an outage.
unfoldable pub last_outage : Gate → Time × ℤ × Bool
last_outage g =
    if is_zero g.last_outage_ended_at
    then (zero_time, pos 0, false)
    else (g.last_outage_ended_at, g.last_outage_duration, true)

-- The loop over the results channel: the outcomes of the dials in the order in which they end.
unfoldable pub any_connected : List Bool → Bool
any_connected [] = false
any_connected (r ∷ rs) = if r then true else any_connected rs

-- probe, by the outcome of the override, if one is set, and those of the dials.
unfoldable pub probe : Option Bool → List Bool → Bool
unfolding any_connected
probe (some overridden) results = overridden
probe none results = any_connected results

-- Verify, from what the probe found and the time after it.
unfoldable pub verify : Bool → Time → Gate → Bool × Gate
verify reachable now g =
    if not reachable && g.online
    then (reachable, record g { online = false; offline_since = now })
    else if reachable && not g.online
    then (
      reachable,
      record g {
        online = true;
        last_outage_ended_at = now;
        last_outage_duration = sub_time now g.offline_since;
      },
    )
    else (reachable, g)

-- A tick of Run, which probes only while the gate is offline.
unfoldable pub tick : Bool → Time → Gate → Gate
unfolding verify
tick reachable now g = if not g.online then (verify reachable now g).1 else g
