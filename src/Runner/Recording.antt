-- ===== src/Runner/Recording.antt =====
-- What an execution records.
use tenpm_uptime_monitor.Prelude.{
  ℕ, suc, ◌≡◌, refl, ◌∙◌, ◌≢◌, ◌⊎◌, inl, inr, true, false, none, some, List, [], ◌∷◌, ◌++◌, arith,
  All, Bool-cases, Option-cases,
}
use tenpm_uptime_monitor.Model.Check.{Check, Result}
use tenpm_uptime_monitor.Store.Tables.{Db, err, StoreError}
use tenpm_uptime_monitor.Store.Buffer.{buffer_result}
use tenpm_uptime_monitor.Store.Buffer.Backlog.{backlog, sent_form}
use tenpm_uptime_monitor.Gate.{Gate, verify}
use tenpm_uptime_monitor.Runner.StoredForm.{StoredForm}
use tenpm_uptime_monitor.Runner.{
  Runner, World, trigger_flush, is_transport_failure, gate_online, discards, buffered_form,
  record_result, execute,
}

-- What an execution must not change when its result does not count.
pub record SameRecords (r r' : Runner) : Type 0 where
  pub db : r'.db ≡ r.db
  pub last_status : r'.last_status ≡ r.last_status
  pub flush_ch : r'.flush_ch ≡ r.flush_ch

-- An execution during an outage: the checker gets no response, and no probe gets through.
abbrev pub CutOff : World × Check → Type 0
CutOff (w, c) = (is_transport_failure (w.checker c) ≡ true) × (w.reachable ≡ false)

-- The executions one after another.
abbrev pub execute_all : List (World × Check) → Runner → Runner
execute_all [] r = r
execute_all ((w, c) ∷ es) r = execute_all es (execute w c r)

execute-CutOff :
    (w : World) (c : Check) (r : Runner) (g : Gate)
    → r.gate ≡ some g
    → CutOff (w, c)
    → SameRecords r (execute w c r) × ((g' : Gate) × ((execute w c r).gate ≡ some g'))
unfolding execute gate_online discards verify
execute-CutOff w c r g e h = elim (Bool-cases g.online) [
  | inr off ↦
      let same : execute w c r ≡ r = ground arith in
      rw same (record { db = refl; last_status = refl; flush_ch = refl }, (g, e))
  | inl on ↦ elim (Bool-cases w.acquired) [
    | inr late ↦
        let same : execute w c r ≡ r = ground arith in
        rw same (record { db = refl; last_status = refl; flush_ch = refl }, (g, e))
    | inl acquired ↦
        let g' : Gate = record g { online = false; offline_since = w.now } in
        let same : execute w c r ≡ record r { gate = some g' } = ground arith in
        rw same (record { db = refl; last_status = refl; flush_ch = refl }, (g', refl))
  ]
]

-- While every execution is cut off, whatever the checks and their options, inverted ones included,
-- a runner with a gate records nothing: no result is buffered, no status changes, and no flush is
-- asked for.
pub execute_all-CutOff :
    (es : List (World × Check)) (r : Runner) (g : Gate)
    → r.gate ≡ some g
    → All CutOff es
    → SameRecords r (execute_all es r)
execute_all-CutOff [] r g e h = record { db = refl; last_status = refl; flush_ch = refl }
execute_all-CutOff ((w, c) ∷ es) r g e h =
    let (same, (g', e')) = execute-CutOff w c r g e h.0 in
    let rest = execute_all-CutOff es (execute w c r) g' e' h.1 in
    record {
      db = rest.db ∙ same.db;
      last_status = rest.last_status ∙ same.last_status;
      flush_ch = rest.flush_ch ∙ same.flush_ch;
    }

-- The result of an execution counts: the gate, if there is one, is online, the semaphore is acquired,
-- and a probe confirms a failure without a response.
pub record Counts (w : World) (c : Check) (r : Runner) : Type 0 where
  pub online : gate_online r.gate ≡ true
  pub acquired : w.acquired ≡ true
  pub confirmed :
      (r.gate ≡ none) ⊎ (is_transport_failure (w.checker c) ≡ false) ⊎ (w.reachable ≡ true)

discards-Counts :
    (w : World) (c : Check) (r : Runner)
    → Counts w c r
    → discards w (w.checker c) r.gate ≡ (false, r.gate)
unfolding discards verify gate_online
discards-Counts w c r h = elim (Option-cases r.gate) [
  | inl e ↦ rw e refl
  | inr (g, e) ↦ rw e (ground (arith, h.online, h.confirmed, e))
]

-- The result that an execution buffers when it counts.
abbrev pub outcome : World → Check → Result
outcome w c = buffered_form w c (w.checker c)

execute-Counts :
    (w : World) (c : Check) (r : Runner)
    → Counts w c r
    → execute w c r ≡ record_result w c (outcome w c) r
unfolding execute
execute-Counts w c r h = rw (h.online, h.acquired, discards-Counts w c r h) refl

-- What a result that was buffered leaves: the backlog is longer by it, the last status of its check
-- is its own, and a flush is asked for exactly when the status before was another or none.
pub record Recorded (c : Check) (x : Result) (r r' : Runner) : Type 0 where
  pub backlog_grown : backlog r'.db ≡ backlog r.db ++ (suc r.db.results_seq, sent_form x) ∷ []
  pub gate : r'.gate ≡ r.gate
  pub status : r'.last_status c.id ≡ some x.success
  pub others : (id : ℕ) → id ≢ c.id → r'.last_status id ≡ r.last_status id
  pub repeated : r.last_status c.id ≡ some x.success → r'.flush_ch ≡ r.flush_ch
  pub transition : r.last_status c.id ≢ some x.success → r'.flush_ch ≡ trigger_flush r.flush_ch

buffer_result-refused :
    (w : World) (x : Result) (db db' : Db) (e : StoreError)
    → buffer_result w.faults x db ≡ (err e, db')
    → db' ≡ db
unfolding buffer_result
buffer_result-refused w x db db' e h = ground arith

record_result-refused :
    (w : World) (c : Check) (x : Result) (r : Runner) (db' : Db) (e : StoreError)
    → buffer_result w.faults x r.db ≡ (err e, db')
    → record_result w c x r ≡ r
unfolding record_result
record_result-refused w c x r db' e h =
    let same : db' ≡ r.db = buffer_result-refused w x r.db db' e h in ground (arith, h, same)

-- An execution whose result counts, but cannot be buffered, leaves everything as it was, the last
-- status too: the next result of the check that can be buffered is a transition still.
pub execute-unbuffered :
    (w : World) (c : Check) (r : Runner) (e : StoreError) (db' : Db)
    → Counts w c r
    → buffer_result w.faults (outcome w c) r.db ≡ (err e, db')
    → execute w c r ≡ r
execute-unbuffered w c r e db' h refused =
    rw (execute-Counts w c r h) (record_result-refused w c (outcome w c) r db' e refused)
