-- ===== src/System/Semaphore.antt =====
-- The semaphore of monitor/runner.go, however the goroutines of the agent interleave.
use tenpm_uptime_monitor.Prelude.{
  ℕ, suc, ◌≤◌, ◌≡◌, refl, ap, ◌∙◌, sym, Bool, true, Option, none, some, List, ◌∷◌, ◌++◌, arith,
  length, length-append, Bool-cases, inl, inr,
}
use tenpm_uptime_monitor.Prelude.Int.{ℤ, pos, ◌≤ℤ◌, ltb_ℤ, leb_ℤ}
use tenpm_uptime_monitor.Model.Check.{Headers}
use tenpm_uptime_monitor.Store.Tables.{Db}
use tenpm_uptime_monitor.Store.Headers.{Codec}
use tenpm_uptime_monitor.Client.{Client}
use tenpm_uptime_monitor.Gate.{Gate}
use tenpm_uptime_monitor.Runner.{Runner, World, new_runner}
use tenpm_uptime_monitor.System.{
  System, replaced, released, executed_system, ticked_system, reported_system, synced_system,
  reconciled_system, Step, gate_tick, list_checks, reconcile_checks, enter, acquire, give_up, go_on,
  sync, by_timer, by_flush, at_end, report, import_check, Reach, start, later,
}
use tenpm_uptime_monitor.System.Threads.{
  Execution, running, resolving, inserting, recording, flushing, execution_step,
}

-- The places that are taken are those of the executions, and there are no more than the capacity.
pub record Places (bound capacity : ℤ) (executions : List Execution) (sem : ℕ) : Type 0 where
  pub made : capacity ≡ bound
  pub counted : length executions ≡ sem
  pub within : pos sem ≤ℤ bound

abbrev pub Slots : ℤ → System → Type 0
Slots bound s = Places bound s.runner.sem_capacity s.executions s.sem

execution-capacity :
    (w : World) (e : Execution) (r : Runner)
    → (execution_step w e r).1.sem_capacity ≡ r.sem_capacity
unfolding execution_step
execution-capacity w (running c) r = refl
execution-capacity w (resolving c res) r = refl
execution-capacity w (recording c res) r = refl
execution-capacity w flushing r = refl
execution-capacity w (inserting c res id) r = elim (Bool-cases (w.faults 1)) [
  | inl refused ↦ rw refused refl
  | inr fine ↦ rw fine refl
]

-- An execution that goes on keeps its place, and one that ends gives it back.
length-replaced :
    (rest : Option Execution) (e : Execution) (es es' : List Execution) (sem : ℕ)
    → length (es ++ e ∷ es') ≡ sem
    → (length (es ++ replaced rest es') ≡ released rest sem) × (released rest sem ≤ sem)
length-replaced none e es es' sem h =
    (omega (arith, h, length-append es (e ∷ es'), length-append es es'), omega arith)
length-replaced (some e') e es es' sem h =
    (omega (arith, h, length-append es (e ∷ es'), length-append es (e' ∷ es')), omega arith)

at_most : (m n : ℕ) (z : ℤ) → m ≤ n → pos n ≤ℤ z → pos m ≤ℤ z
at_most m n z h k = omega (arith, h, k)

room : (n : ℕ) (z : ℤ) → ltb_ℤ (pos n) z ≡ true → pos (suc n) ≤ℤ z
room n z h = ground (arith, h)

module _ (codec : Codec) (same_headers : Headers → Headers → Bool) (client : Client) (n : ℤ) where
  Step-Slots : {s t : System} → Step codec same_headers client s t → Slots n s → Slots n t
  unfolding ticked_system executed_system reported_system synced_system reconciled_system
  Step-Slots (gate_tick reachable now) h = h
  Step-Slots (list_checks faults checks none_yet e) h = h
  Step-Slots (reconcile_checks checks e) h = h
  Step-Slots (enter c m online) h = h
  Step-Slots {s} (acquire c cs cs' e free) h = record {
    made = h.made;
    counted = ap suc h.counted;
    within = room s.sem n (ap (ltb_ℤ (pos s.sem)) (sym h.made) ∙ free);
  }
  Step-Slots (give_up c cs cs' e) h = h
  Step-Slots {s} (go_on w e es es' at) h =
      let places =
        length-replaced (execution_step w e s.runner).0 e es es' s.sem
          (ap length (sym at) ∙ h.counted) in
      record {
        made = execution-capacity w e s.runner ∙ h.made;
        counted = places.0;
        within = at_most _ s.sem n places.1 h.within;
      }
  Step-Slots (sync w) h = h
  Step-Slots (by_timer e) h = h
  Step-Slots (by_flush e pending) h = h
  Step-Slots (at_end e) h = h
  Step-Slots (report w) h = h
  Step-Slots (import_check faults c) h = h

  Reach-Slots :
      {r : Runner} {s : System}
      → r.sem_capacity ≡ n
      → pos 0 ≤ℤ n
      → Reach codec same_headers client r s
      → Slots n s
  Reach-Slots e free start = record { made = e; counted = refl; within = free }
  Reach-Slots e free (later reached step) = Step-Slots step (Reach-Slots e free reached)

new_runner-room :
    (db : Db) (gate : Option Gate) (max_concurrent : ℤ)
    → pos 1 ≤ℤ (new_runner db gate max_concurrent).sem_capacity
unfolding new_runner
new_runner-room db gate max_concurrent = elim (Bool-cases (leb_ℤ max_concurrent (pos 0))) [
  | inl unset ↦ rw unset (omega arith)
  | inr given ↦ rw given (ground (arith, given))
]

new_runner-capacity :
    (db : Db) (gate : Option Gate) (max_concurrent : ℤ)
    → pos 1 ≤ℤ max_concurrent
    → (new_runner db gate max_concurrent).sem_capacity ≡ max_concurrent
unfolding new_runner
new_runner-capacity db gate max_concurrent h = elim (Bool-cases (leb_ℤ max_concurrent (pos 0))) [
  | inl unset ↦ absurd (ground (arith, unset, h))
  | inr given ↦ rw given refl
]

-- Of the executions of a runner that NewRunner makes, never more hold a place of the semaphore than
-- its capacity, which is at least 1 and is max_concurrent where that is positive; and the places that
-- are taken are as many as the executions.
pub Reach-Places :
    (codec : Codec) (same_headers : Headers → Headers → Bool) (client : Client) (db : Db)
    (gate : Option Gate) (max_concurrent : ℤ) (s : System)
    → Reach codec same_headers client (new_runner db gate max_concurrent) s
    → (length s.executions ≡ s.sem)
      × (pos (length s.executions) ≤ℤ (new_runner db gate max_concurrent).sem_capacity)
      × (pos 1 ≤ℤ (new_runner db gate max_concurrent).sem_capacity)
      × (pos 1 ≤ℤ max_concurrent
          → (new_runner db gate max_concurrent).sem_capacity ≡ max_concurrent)
Reach-Places codec same_headers client db gate max_concurrent s reached =
    let room_left = new_runner-room db gate max_concurrent in
    let slots =
      Reach-Slots codec same_headers client _ refl
        (at_most 0 1 (new_runner db gate max_concurrent).sem_capacity (omega arith) room_left)
        reached in
    (
      slots.counted,
      at_most _ s.sem _ (omega (arith, slots.counted)) slots.within,
      room_left,
      new_runner-capacity db gate max_concurrent,
    )
