-- ===== src/Migrate/Once.antt =====
-- Every script runs once, in the order of the names, however often Apply is cut short.
use tenpm_uptime_monitor.Prelude.{
  ◌≡◌, refl, ap, ◌∙◌, sym, ◌⊎◌, inl, inr, true, false, not, ◌||◌, Option, none, some, List, [], ◌∷◌,
  ◌++◌, keep_if, map, arith, Bool-cases, Option-cases,
}
use mathlib.Core.List.{append_assoc, append-nil, Permᴰ}
use tenpm_uptime_monitor.Prelude.Text.Sort.{Sorted, sort_texts-Sorted, Perm-sort_texts}
use tenpm_uptime_monitor.Prelude.Text.{Text, same, same-false, same_of_ne}
use tenpm_uptime_monitor.Migrate.{
  Stage, creating, listing, checking, reading, beginning, executing, recording, committing, Scripts,
  Migrated, recorded, run_script, apply_file, apply_files, file_names, apply,
}

-- No name stands twice in a list.
abbrev pub NoneTwice : List Text → Type 0
NoneTwice [] = Unit {0}
NoneTwice (n ∷ ns) = (recorded n ns ≡ false) × NoneTwice ns

-- The names that are not recorded yet.
abbrev pub pending : List Text → List Text → List Text
pending versions = keep_if (λ n. not (recorded n versions))

-- What some scripts, one after the other, make of a database.
unfoldable pub execute_all : {S : Type 0} → Scripts S → List Text → S → Option S
execute_all w [] s = some s
execute_all w (n ∷ ns) s = elim (w.execute n s) [ none ↦ none | some s' ↦ execute_all w ns s' ]

-- The first of the pending scripts have run, in their order, and are recorded; without a failure, these
-- are all of them.
pub record Advanced {S : Type 0} (w : Scripts S) (names : List Text) (m : Migrated S)
    (failure : Option Stage) (m' : Migrated S) : Type 0 where
  pub done : List Text
  pub rest : List Text
  pub split : pending m.versions names ≡ done ++ rest
  pub versions : m'.versions ≡ m.versions ++ done
  pub schema : execute_all w done m.schema ≡ some m'.schema
  pub complete : failure ≡ none → rest ≡ []

pending-known :
    (k : Text) (vs ks : List Text) → recorded k vs ≡ true → pending vs (k ∷ ks) ≡ pending vs ks
pending-known k vs ks h = ground (arith, h)

pending-new :
    (k : Text) (vs ks : List Text) → recorded k vs ≡ false → pending vs (k ∷ ks) ≡ k ∷ pending vs ks
pending-new k vs ks h = ground (arith, h)

recorded-append :
    (k x : Text) (vs : List Text) → same x k ≡ false → recorded k (vs ++ x ∷ []) ≡ recorded k vs
unfolding recorded
recorded-append k x [] h = ground (arith, h)
recorded-append k x (v ∷ vs) h = ap (◌||◌ (same v k)) (recorded-append k x vs h)

recorded-cons :
    (name k : Text) (ks : List Text)
    → recorded name (k ∷ ks) ≡ false
    → (same name k ≡ false) × (recorded name ks ≡ false)
unfolding recorded
recorded-cons name k ks h =
    let differs : same k name ≡ false = ground (arith, h) in
    (same_of_ne name k (λ e. same-false k name differs (sym e)), ground (arith, h))

pending-append :
    (name : Text) (vs names : List Text)
    → recorded name names ≡ false
    → pending (vs ++ name ∷ []) names ≡ pending vs names
pending-append name vs [] h = refl
pending-append name vs (k ∷ ks) h =
    let (differs, once) = recorded-cons name k ks h in
    let same_test = recorded-append k name vs differs in
    elim (Bool-cases (recorded k vs)) [
      | inl known ↦
          pending-known k (vs ++ name ∷ []) ks (same_test ∙ known)
          ∙ pending-append name vs ks once
          ∙ sym (pending-known k vs ks known)
      | inr new ↦
          pending-new k (vs ++ name ∷ []) ks (same_test ∙ new)
          ∙ ap (◌∷◌ k) (pending-append name vs ks once)
          ∙ sym (pending-new k vs ks new)
    ]

module _ {S : Type 0} (w : Scripts S) where
  -- A script's transaction, all or nothing.
  run_script-cases :
      (name : Text) (m : Migrated S)
      → ((stage : Stage) × (run_script w name m ≡ (some stage, m)))
        ⊎ ((s : S) × (w.execute name m.schema ≡ some s)
            × (run_script w name m
                ≡ (none, record { schema = s; versions = m.versions ++ name ∷ [] })))
  unfolding run_script
  run_script-cases name m = elim (Bool-cases (w.fails (reading name))) [
    | inl bad ↦ inl (reading name, rw (run_script, bad) refl)
    | inr read ↦ elim (Bool-cases (w.fails (beginning name))) [
      | inl bad ↦ inl (beginning name, rw (run_script, read, bad) refl)
      | inr begun ↦ elim (Option-cases (w.execute name m.schema)) [
        | inl bad ↦ inl (executing name, rw (run_script, read, begun, bad) refl)
        | inr (s, run) ↦ elim (Bool-cases (w.fails (recording name))) [
          | inl bad ↦ inl (recording name, rw (run_script, read, begun, run, bad) refl)
          | inr kept ↦ elim (Bool-cases (w.fails (committing name))) [
            | inl bad ↦ inl (committing name, rw (run_script, read, begun, run, kept, bad) refl)
            | inr committed ↦ inr (s, run, rw (run_script, read, begun, run, kept, committed) refl)
          ]
        ]
      ]
    ]
  ]

  Advanced-stopped :
      (names : List Text) (m : Migrated S) (stage : Stage) → Advanced w names m (some stage) m
  unfolding execute_all
  Advanced-stopped names m stage = record {
    done = [];
    rest = pending m.versions names;
    split = refl;
    versions = sym (append-nil m.versions);
    schema = refl;
    complete = λ e. cc;
  }

  -- A recorded file is passed over, and a file that has run is the first of those that have.
  Advanced-skipped :
      (name : Text) (names : List Text) (m m' : Migrated S) (failure : Option Stage)
      → recorded name m.versions ≡ true
      → Advanced w names m failure m'
      → Advanced w (name ∷ names) m failure m'
  Advanced-skipped name names m m' failure known a = record {
    done = a.done;
    rest = a.rest;
    split = pending-known name m.versions names known ∙ a.split;
    versions = a.versions;
    schema = a.schema;
    complete = a.complete;
  }

  Advanced-run :
      (name : Text) (names : List Text) (m m' : Migrated S) (failure : Option Stage) (s : S)
      → recorded name m.versions ≡ false
      → recorded name names ≡ false
      → w.execute name m.schema ≡ some s
      → Advanced w names (record { schema = s; versions = m.versions ++ name ∷ [] }) failure m'
      → Advanced w (name ∷ names) m failure m'
  unfolding execute_all
  Advanced-run name names m m' failure s new once run a = record {
    done = name ∷ a.done;
    rest = a.rest;
    split =
        pending-new name m.versions names new
        ∙ ap (◌∷◌ name) (sym (pending-append name m.versions names once) ∙ a.split);
    versions = a.versions ∙ append_assoc m.versions (name ∷ []) a.done;
    schema = rw (execute_all, run) a.schema;
    complete = a.complete;
  }

  apply_files-stopped :
      (name : Text) (names : List Text) (m m' : Migrated S) (stage : Stage)
      → apply_file w name m ≡ (some stage, m')
      → apply_files w (name ∷ names) m ≡ (some stage, m')
  unfolding apply_files
  apply_files-stopped name names m m' stage e =
      rw (apply_files, ap (λ p. p.0) e, ap (λ p. p.1) e) refl

  apply_files-next :
      (name : Text) (names : List Text) (m m' : Migrated S)
      → apply_file w name m ≡ (none, m')
      → apply_files w (name ∷ names) m ≡ apply_files w names m'
  unfolding apply_files
  apply_files-next name names m m' e = rw (apply_files, ap (λ p. p.0) e, ap (λ p. p.1) e) refl

  abbrev Ran : List Text → Migrated S → Option Stage × Migrated S → Type 0
  Ran names m r = Advanced w names m r.0 r.1

  apply_files-Advanced :
      (names : List Text) (m : Migrated S) → NoneTwice names → Ran names m (apply_files w names m)
  unfolding apply_file apply_files execute_all
  apply_files-Advanced [] m once = record {
    done = [];
    rest = [];
    split = refl;
    versions = sym (append-nil m.versions);
    schema = refl;
    complete = λ e. refl;
  }
  apply_files-Advanced (name ∷ names) m (new, once) = elim (Bool-cases (w.fails (checking name))) [
    | inl bad ↦
        rw (apply_files-stopped name names m m (checking name) (rw (apply_file, bad) refl))
          (Advanced-stopped (name ∷ names) m (checking name))
    | inr checked ↦ elim (Bool-cases (recorded name m.versions)) [
      | inl known ↦
          rw (apply_files-next name names m m (rw (apply_file, checked, known) refl))
            (Advanced-skipped name names m _ _ known (apply_files-Advanced names m once))
      | inr unknown ↦ elim (run_script-cases name m) [
        | inl (stage, e) ↦
            rw (apply_files-stopped name names m m stage (rw (apply_file, checked, unknown) e))
              (Advanced-stopped (name ∷ names) m stage)
        | inr (s, run, e) ↦
            let m' : Migrated S = record { schema = s; versions = m.versions ++ name ∷ [] } in
            rw (apply_files-next name names m m' (rw (apply_file, checked, unknown) e))
              (Advanced-run name names m _ _ s unknown new run (apply_files-Advanced names m' once))
      ]
    ]
  ]

  apply-Ran :
      (m : Migrated S) → NoneTwice (file_names w.entries) → Ran (file_names w.entries) m (apply w m)
  unfolding apply
  apply-Ran m once = elim (Bool-cases (w.fails creating)) [
    | inl bad ↦ rw (apply, bad) (Advanced-stopped (file_names w.entries) m creating)
    | inr made ↦ elim (Bool-cases (w.fails listing)) [
      | inl bad ↦ rw (apply, made, bad) (Advanced-stopped (file_names w.entries) m listing)
      | inr listed ↦ rw (apply, made, listed) (apply_files-Advanced (file_names w.entries) m once)
    ]
  ]

  -- Apply, on a directory in which no name stands twice, with whatever calls and scripts that fail: it
  -- takes the names of the files, directories aside, in the byte order; of these, the first ones that
  -- schema_migrations does not record have run in that order, each once, and are recorded after those
  -- that were; a script that fails leaves nothing; and without an error none is left.
  pub apply-Advanced :
      (m : Migrated S)
      → NoneTwice (file_names w.entries)
      → let (failure, m') = apply w m in
        (names : List Text) × Sorted names
        × Permᴰ names (map (λ e. e.0) (keep_if (λ e. not e.1) w.entries))
        × Advanced w names m failure m'
  unfolding file_names
  apply-Advanced m once = (
    file_names w.entries,
    sort_texts-Sorted (map (λ e. e.0) (keep_if (λ e. not e.1) w.entries)),
    Perm-sort_texts (map (λ e. e.0) (keep_if (λ e. not e.1) w.entries)),
    apply-Ran m once,
  )
