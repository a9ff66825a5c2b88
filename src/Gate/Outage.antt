-- ===== src/Gate/Outage.antt =====
-- What the gate reports of an outage.
use tenpm_uptime_monitor.Prelude.{
  ◌≡◌, refl, ◌∙◌, ap, Bool, true, false, List, [], ◌∷◌, ◌++◌, arith, All,
}
use tenpm_uptime_monitor.Model.Check.{Time}
use tenpm_uptime_monitor.Gate.{Gate, is_zero, sub_time, last_outage, verify, tick}

-- What moves the gate: a call of Verify when a check fails, and a tick of Run.
pub data Step : Type 0 where
  verified : Bool → Time → Step
  ticked : Bool → Time → Step

pub after_step : Gate → Step → Gate
unfolding verify tick
after_step g (verified reachable now) = (verify reachable now g).1
after_step g (ticked reachable now) = tick reachable now g

abbrev pub after_steps : Gate → List Step → Gate
after_steps g [] = g
after_steps g (s ∷ ss) = after_steps (after_step g s) ss

-- The step does not find the internet reachable.
abbrev pub Unreachable : Step → Type 0
Unreachable (verified reachable now) = reachable ≡ false
Unreachable (ticked reachable now) = reachable ≡ false

-- The step finds it reachable, or is a tick, which does not probe while the gate is online.
abbrev pub Harmless : Step → Type 0
Harmless (verified reachable now) = reachable ≡ true
Harmless (ticked reachable now) = Unit {0}

step_offline : (g : Gate) (s : Step) → g.online ≡ false → Unreachable s → after_step g s ≡ g
unfolding after_step verify tick
step_offline g (verified reachable now) off h = ground arith
step_offline g (ticked reachable now) off h = ground arith

step_online : (g : Gate) (s : Step) → g.online ≡ true → Harmless s → after_step g s ≡ g
unfolding after_step verify tick
step_online g (verified reachable now) on h = ground arith
step_online g (ticked reachable now) on h = ground arith

offline_stays :
    (g : Gate) (ss : List Step) → g.online ≡ false → All Unreachable ss → after_steps g ss ≡ g
offline_stays g [] off h = refl
offline_stays g (s ∷ ss) off h = rw (step_offline g s off h.0) (offline_stays g ss off h.1)

online_stays :
    (g : Gate) (ss : List Step) → g.online ≡ true → All Harmless ss → after_steps g ss ≡ g
online_stays g [] on h = refl
online_stays g (s ∷ ss) on h = rw (step_online g s on h.0) (online_stays g ss on h.1)

after_steps-append :
    (g : Gate) (ss ts : List Step) → after_steps g (ss ++ ts) ≡ after_steps (after_steps g ss) ts
after_steps-append g [] ts = refl
after_steps-append g (s ∷ ss) ts = after_steps-append (after_step g s) ss ts

-- A step that finds the internet reachable.
pub data Recovers (now : Time) : Step → Type 0 where
  by_check : Recovers now (verified true now)
  by_tick : Recovers now (ticked true now)

step_down :
    (g : Gate) (now : Time)
    → g.online ≡ true
    → after_step g (verified false now) ≡ record g { online = false; offline_since = now }
unfolding after_step verify
step_down g now on = ground arith

step_up :
    (g : Gate) (now : Time) (s : Step)
    → g.online ≡ false
    → Recovers now s
    → after_step g s ≡ record g {
      online = true;
      last_outage_ended_at = now;
      last_outage_duration = sub_time now g.offline_since;
    }
unfolding after_step verify tick
step_up g now s off Recovers.by_check = ground arith
step_up g now s off Recovers.by_tick = ground arith

-- From an online gate, an outage that starts with a failed check at `lost`, goes on through any
-- number of steps that do not reach the internet, and ends with a check or a tick that does at
-- `found`, not the zero time, leaves the gate online, and LastOutage reports its end and its length
-- exactly, also after any number of ticks and of checks that find the internet reachable.
pub last_outage-after_steps :
    (g up : Gate) (lost found : Time) (down later : List Step) (recovery : Step)
    → g.online ≡ true
    → All Unreachable down
    → Recovers found recovery
    → All Harmless later
    → is_zero found ≡ false
    → up ≡ after_steps g (verified false lost ∷ down ++ recovery ∷ later)
    → (up.online ≡ true) × (last_outage up ≡ (found, sub_time found lost, true))
unfolding last_outage
last_outage-after_steps g up lost found down later recovery on unreachable recovers harmless e run =
    let g_down : Gate = record g { online = false; offline_since = lost } in
    let g_up : Gate = record g_down {
      online = true;
      last_outage_ended_at = found;
      last_outage_duration = sub_time found lost;
    } in
    let same : up ≡ g_up =
      run
      ∙ ap (λ x. after_steps x (down ++ recovery ∷ later)) (step_down g lost on)
      ∙ after_steps-append g_down down (recovery ∷ later)
      ∙ ap (λ x. after_steps x (recovery ∷ later)) (offline_stays g_down down refl unreachable)
      ∙ ap (λ x. after_steps x later) (step_up g_down found recovery refl recovers)
      ∙ online_stays g_up later refl harmless in
    rw same (refl, ground arith)
