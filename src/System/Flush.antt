-- ===== src/System/Flush.antt =====
-- flushCh, however the goroutines of the agent interleave.
use tenpm_uptime_monitor.Prelude.{◌≡◌, refl, ◌⊎◌, inl, inr, Bool, true, false, some, Bool-cases}
use tenpm_uptime_monitor.Model.Check.{Headers}
use tenpm_uptime_monitor.Store.Headers.{Codec}
use tenpm_uptime_monitor.Client.{Client}
use tenpm_uptime_monitor.Runner.{Runner, World, trigger_flush}
use tenpm_uptime_monitor.System.{
  System, executed_system, ticked_system, reported_system, synced_system, reconciled_system, Step,
  gate_tick, list_checks, reconcile_checks, enter, acquire, give_up, go_on, sync, by_timer,
  by_flush, at_end, report, import_check,
}
use tenpm_uptime_monitor.System.Threads.{
  Execution, running, resolving, inserting, recording, flushing, execution_step, listing,
}

-- A signal waits in the channel.
abbrev pub Pending : Runner → Type 0
Pending r = r.flush_ch ≡ some true

execution-Pending :
    (w : World) (e : Execution) (r : Runner) → Pending r → Pending (execution_step w e r).1
unfolding execution_step trigger_flush
execution-Pending w (running c) r h = h
execution-Pending w (resolving c b) r h = h
execution-Pending w (inserting c b id) r h = elim (Bool-cases (w.faults 1)) [
  | inl refused ↦ rw refused h
  | inr fine ↦ rw fine h
]
execution-Pending w (recording c b) r h = h
execution-Pending w flushing r h = rw h refl

-- An execution with a transition that reaches its last step leaves a signal, if flushCh is wired.
pub flushing-Pending :
    (w : World) (r : Runner) (b : Bool)
    → r.flush_ch ≡ some b
    → Pending (execution_step w flushing r).1
unfolding execution_step trigger_flush
flushing-Pending w r b h = rw h refl

module _ (codec : Codec) (same_headers : Headers → Headers → Bool) (client : Client) where
  -- Some steps of the system, one after another.
  pub data Steps (s : System) : System → Type 0 where
    stay : Steps s s
    more : {t u : System} → Steps s t → Step codec same_headers client t u → Steps s u

  Step-Pending :
      {s t : System}
      → Step codec same_headers client s t
      → Pending s.runner
      → Pending t.runner ⊎ (t.reporter ≡ listing false true)
  unfolding ticked_system executed_system reported_system synced_system reconciled_system
  Step-Pending (gate_tick reachable now) h = inl h
  Step-Pending (list_checks faults checks none_yet e) h = inl h
  Step-Pending (reconcile_checks checks e) h = inl h
  Step-Pending (enter c m online) h = inl h
  Step-Pending (acquire c cs cs' e free) h = inl h
  Step-Pending (give_up c cs cs' e) h = inl h
  Step-Pending {s} (go_on w e es es' at) h = inl (execution-Pending w e s.runner h)
  Step-Pending (sync w) h = inl h
  Step-Pending (by_timer e) h = inr refl
  Step-Pending (by_flush e pending) h = inr refl
  Step-Pending (at_end e) h = inl h
  Step-Pending (report w) h = inl h
  Step-Pending (import_check faults c) h = inl h

  -- The reporter has been at the start of a report on the way.
  abbrev pub Woken : {s t : System} → Steps s t → Type 0
  Woken stay = ⊥
  Woken (more {u = u} steps step) = Woken steps ⊎ (u.reporter ≡ listing false true)

-- A signal to the reporter is not lost: however the goroutines go on from a state in which one waits,
-- it waits still, or the reporter has started a report since.
pub Steps-Pending :
    (codec : Codec) (same_headers : Headers → Headers → Bool) (client : Client) (s t : System)
    (steps : Steps codec same_headers client s t)
    → Pending s.runner
    → Pending t.runner ⊎ Woken codec same_headers client steps
Steps-Pending codec same_headers client s t stay h = inl h
Steps-Pending codec same_headers client s t (more {t = mid} steps step) h =
    elim (Steps-Pending codec same_headers client s mid steps h) [
      | inr woken ↦ inr (inl woken)
      | inl pending ↦ elim (Step-Pending codec same_headers client step pending) [
        | inl still ↦ inl still
        | inr started ↦ inr (inr started)
      ]
    ]
