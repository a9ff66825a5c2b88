-- ===== src/System/Origin/Executions.antt =====
-- What a step of an execution of monitor/runner.go leaves, and the row that it may add.
use mathlib.Core.List.{Memᴰ}
use mathlib.Core.List.Memᴰ
use mathlib.Core.Path.{subst}
use tenpm_uptime_monitor.Prelude.{
  ℕ, ◌≡◌, refl, sym, ap, ◌⊎◌, inl, inr, Option-cases, Bool, true, false, Option, none, some, List,
  [], ◌∷◌, ◌++◌, arith, Bool-cases, if◌then◌else◌,
}
use tenpm_uptime_monitor.Model.Check.{Check, Result}
use tenpm_uptime_monitor.Store.Tables.{Buffered, Res-cases}
use tenpm_uptime_monitor.Store.Buffer.{insert_result}
use tenpm_uptime_monitor.Gate.{Gate}
use tenpm_uptime_monitor.Runner.StoredForm.{buffered_form-StoredForm}
use tenpm_uptime_monitor.Runner.{Runner, World, is_transport_failure, discards, buffered_form}
use tenpm_uptime_monitor.System.{arrivals}
use tenpm_uptime_monitor.System.Threads.{
  Execution, running, resolving, inserting, recording, flushing, execution_step, resolve_check,
}
use tenpm_uptime_monitor.System.Rows.{drop-length, drop-length-append}
use tenpm_uptime_monitor.System.Origin.Stored.{
  Runs, Counted, FromExecution, Formed, Gated, discards-confirmed,
}

-- A step of an execution leaves an execution that is formed, and adds at most a row of its result.
module _ (gate : Option Gate) (checks : List Check) (runs : Runs) (w : World) where
  abbrev pub After : Runner → Option Execution × Runner → Type 0
  After r (rest, r') =
      ((e : Execution) → rest ≡ some e → Formed gate checks runs e)
      × ((b : Buffered) → Memᴰ b (arrivals r.db r'.db) → FromExecution gate checks runs b)

  none_new :
      (r : Runner) (b : Buffered) → Memᴰ b (arrivals r.db r.db) → FromExecution gate checks runs b
  none_new r b m = absurd (Memᴰ.not-nil (subst (Memᴰ b) (drop-length r.db.results) m))

  confirmed :
      (c : Check) (r : Runner)
      → Gated gate r.gate
      → (discards w (w.checker c) r.gate).0 ≡ false
      → (gate ≡ none) ⊎ (is_transport_failure (w.checker c) ≡ false) ⊎ (w.reachable ≡ true)
  confirmed c r gated counts = elim (Option-cases r.gate) [
    | inl e ↦ inl (gated e)
    | inr (g, e) ↦ inr (discards-confirmed w (w.checker c) g (rw e at counts))
  ]

  run-After :
      (c : Check) (r : Runner)
      → Gated gate r.gate
      → Memᴰ (w, c) runs
      → Memᴰ c checks
      → After r (execution_step w (running c) r)
  unfolding execution_step
  run-After c r gated ran m = elim (Bool-cases (discards w (w.checker c) r.gate).0) [
    | inl gone ↦ (λ e h. absurd (ground (arith, h, gone)), none_new r)
    | inr counts ↦ (
      λ e h.
          let same : resolving c (buffered_form w c (w.checker c)) ≡ e =
            ground (arith, h, counts) in
          subst (Formed gate checks runs) same (
            m,
            record {
              world = w;
              ran = ran;
              confirmed = confirmed c r gated counts;
              form = buffered_form-StoredForm w c (w.checker c);
            },
          ),
      none_new r,
    )
  ]

  resolve-After :
      (c : Check) (b : Result) (r : Runner)
      → Memᴰ c checks × Counted gate runs c b
      → After r (execution_step w (resolving c b) r)
  unfolding execution_step
  resolve-After c b r h = elim (Res-cases (resolve_check w.faults b r.db)) [
    | inr (x, e) ↦ (λ e' h'. absurd (ground (arith, h', e)), none_new r)
    | inl (id, e) ↦ (
      λ e' h'.
          let same : inserting c b id ≡ e' = ground (arith, h', e) in
          subst (Formed gate checks runs) same h,
      none_new r,
    )
  ]

  insert-After :
      (c : Check) (b : Result) (id : ℕ) (r : Runner)
      → Memᴰ c checks × Counted gate runs c b
      → After r (execution_step w (inserting c b id) r)
  unfolding execution_step insert_result
  insert-After c b id r h = elim (Bool-cases (w.faults 1)) [
    | inl refused ↦
        let same : execution_step w (inserting c b id) r ≡ (none, r) = ground (arith, refused) in
        subst (After r) (sym same) (λ e h'. absurd (ground (arith, h')), none_new r)
    | inr fine ↦
        let same : execution_step w (inserting c b id) r
            ≡ (some (recording c b), record r { db = insert_result id b r.db }) =
          ground (arith, fine) in
        subst (After r) (sym same) (
          λ e h'.
              let last : recording c b ≡ e = ground (arith, h') in
              subst (Formed gate checks runs) last tt,
          λ row m.
              let new =
                Memᴰ.eq_of_singleton (subst (Memᴰ row) (drop-length-append r.db.results _) m) in
              record {
                check = c;
                scheduled = h.0;
                result = b;
                counted = h.1;
                id = id;
                db = r.db;
                inserted = ap (λ x. r.db.results ++ x ∷ []) (sym new);
              },
        )
  ]

  pub execution-After :
      (e : Execution) (r : Runner)
      → Gated gate r.gate
      → ((c : Check) → e ≡ running c → Memᴰ (w, c) runs)
      → Formed gate checks runs e
      → After r (execution_step w e r)
  unfolding execution_step
  execution-After (running c) r gated ran h = run-After c r gated (ran c refl) h
  execution-After (resolving c b) r gated ran h = resolve-After c b r h
  execution-After (inserting c b id) r gated ran h = insert-After c b id r h
  execution-After (recording c b) r gated ran h = (λ e h'. after_record e _ h', none_new r)
    where
      after_record :
          (e : Execution) (transition : Bool)
          → (if transition then some flushing else none) ≡ some e
          → Formed gate checks runs e
      after_record e true h' =
          let last : flushing ≡ e = ground (arith, h') in subst (Formed gate checks runs) last tt
      after_record e false h' = absurd (ground (arith, h'))
  execution-After flushing r gated ran h = (λ e h'. absurd (ground (arith, h')), none_new r)
