-- ===== src/System/Origin/Stored.antt =====
-- The runs of the checks of monitor/runner.go, and what an execution keeps of one.
use mathlib.Core.List.{Memᴰ}
use mathlib.Core.List.Memᴰ
use tenpm_uptime_monitor.Prelude.{
  ℕ, ◌≡◌, ◌⊎◌, inl, inr, true, false, Option, none, some, List, [], ◌∷◌, ◌++◌, arith, Bool-cases,
}
use tenpm_uptime_monitor.Model.Check.{Check, Result}
use tenpm_uptime_monitor.Store.Tables.{Buffered, Db}
use tenpm_uptime_monitor.Store.Buffer.{insert_result}
use tenpm_uptime_monitor.Gate.{Gate, verify}
use tenpm_uptime_monitor.Runner.StoredForm.{StoredForm}
use tenpm_uptime_monitor.Runner.{Runner, World, is_transport_failure, discards}
use tenpm_uptime_monitor.System.Threads.{
  Execution, running, resolving, inserting, recording, flushing, execution_step,
}

-- The runs of a check so far: what each met, and its check.
abbrev pub Runs : Type 0
Runs = List (World × Check)

-- A run that is begun with a step of an execution.
abbrev pub run_of : World → Execution → Runs
run_of w (running c) = (w, c) ∷ []
run_of w (resolving c b) = []
run_of w (inserting c b id) = []
run_of w (recording c b) = []
run_of w flushing = []

-- The stored form of what a run of the check returned: the target responded, a probe got through, or
-- the runner has no gate that could tell.
pub record Counted (gate : Option Gate) (runs : Runs) (c : Check) (b : Result) : Type 0 where
  pub world : World
  pub ran : Memᴰ (world, c) runs
  pub confirmed :
      (gate ≡ none) ⊎ (is_transport_failure (world.checker c) ≡ false) ⊎ (world.reachable ≡ true)
  pub form : StoredForm world c (world.checker c) b

-- The row is what BufferResult inserted for such a result of one of the checks.
pub record FromExecution (gate : Option Gate) (checks : List Check) (runs : Runs) (row : Buffered)
    : Type 0 where
  pub check : Check
  pub scheduled : Memᴰ check checks
  pub result : Result
  pub counted : Counted gate runs check result
  pub id : ℕ
  pub db : Db
  pub inserted : (insert_result id result db).results ≡ db.results ++ row ∷ []

abbrev pub Formed : Option Gate → List Check → Runs → Execution → Type 0
Formed gate checks runs (running c) = Memᴰ c checks
Formed gate checks runs (resolving c b) = Memᴰ c checks × Counted gate runs c b
Formed gate checks runs (inserting c b id) = Memᴰ c checks × Counted gate runs c b
Formed gate checks runs (recording c b) = Unit
Formed gate checks runs flushing = Unit

-- More checks and more runs.
Counted-more :
    (gate : Option Gate) (runs new : Runs) (c : Check) (b : Result)
    → Counted gate runs c b
    → Counted gate (new ++ runs) c b
Counted-more gate runs new c b h = record {
  world = h.world;
  ran = Memᴰ.append_right new h.ran;
  confirmed = h.confirmed;
  form = h.form;
}

pub FromExecution-more :
    (gate : Option Gate) (checks more : List Check) (runs new : Runs) (row : Buffered)
    → FromExecution gate checks runs row
    → FromExecution gate (checks ++ more) (new ++ runs) row
FromExecution-more gate checks more runs new row x = record {
  check = x.check;
  scheduled = Memᴰ.append_left more x.scheduled;
  result = x.result;
  counted = Counted-more gate runs new x.check x.result x.counted;
  id = x.id;
  db = x.db;
  inserted = x.inserted;
}

pub Formed-more :
    (gate : Option Gate) (checks more : List Check) (runs new : Runs) (e : Execution)
    → Formed gate checks runs e
    → Formed gate (checks ++ more) (new ++ runs) e
Formed-more gate checks more runs new (running c) h = Memᴰ.append_left more h
Formed-more gate checks more runs new (resolving c b) h =
    (Memᴰ.append_left more h.0, Counted-more gate runs new c b h.1)
Formed-more gate checks more runs new (inserting c b id) h =
    (Memᴰ.append_left more h.0, Counted-more gate runs new c b h.1)
Formed-more gate checks more runs new (recording c b) h = tt
Formed-more gate checks more runs new flushing h = tt

-- A result that a gate does not discard.
pub discards-confirmed :
    (w : World) (raw : Result) (g : Gate)
    → (discards w raw (some g)).0 ≡ false
    → (is_transport_failure raw ≡ false) ⊎ (w.reachable ≡ true)
unfolding discards verify
discards-confirmed w raw g h = elim (Bool-cases (is_transport_failure raw)) [
  | inr responded ↦ inl responded
  | inl failed ↦ elim (Bool-cases w.reachable) [
    | inl reached ↦ inr reached
    | inr cut ↦ absurd (ground (arith, h, failed, cut))
  ]
]

-- A runner that had a gate keeps one.
abbrev pub Gated : Option Gate → Option Gate → Type 0
Gated gate now = now ≡ none → gate ≡ none

discards-Gated :
    (w : World) (raw : Result) (gate now : Option Gate)
    → Gated gate now
    → Gated gate (discards w raw now).1
unfolding discards
discards-Gated w raw gate none h = h
discards-Gated w raw gate (some g) h = λ e. absurd (ground (arith, e))

pub execution-Gated :
    (w : World) (e : Execution) (r : Runner) (gate : Option Gate)
    → Gated gate r.gate
    → Gated gate (execution_step w e r).1.gate
unfolding execution_step
execution-Gated w (running c) r gate h = discards-Gated w (w.checker c) gate r.gate h
execution-Gated w (resolving c b) r gate h = h
execution-Gated w (inserting c b id) r gate h = elim (Bool-cases (w.faults 1)) [
  | inl refused ↦ rw refused h
  | inr fine ↦ rw fine h
]
execution-Gated w (recording c b) r gate h = h
execution-Gated w flushing r gate h = h
