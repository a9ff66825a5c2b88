-- ===== src/Store/Buffer/Orphans.antt =====
-- Results of a check that was deleted: SQLite gives the key of the last row to the next new row, and
-- the results buffer refers to checks by that key.
use mathlib.Core.List.{Memᴰ}
use mathlib.Core.List.Memᴰ
use mathlib.Core.List.Memᴰ.{head, tail}
use mathlib.Core.Path.{subst, sym}
use tenpm_uptime_monitor.Prelude.{
  Bool-cases, Option-cases, ℕ, suc, ◌≡◌, refl, ◌∙◌, true, false, none, some, List, [], ◌∷◌, ◌++◌,
  arith, inl, inr,
}
use tenpm_uptime_monitor.Prelude.Text.{Text}
use tenpm_uptime_monitor.Model.Check.{Check, Time}
use tenpm_uptime_monitor.Store.Tables.{
  Row, Buffered, Db, ok, Res-cases, Faults, find_guid, find_id, next_id,
}
use tenpm_uptime_monitor.Store.Headers.{Codec}
use tenpm_uptime_monitor.Store.Delta.{
  merge_synced, upsert, delete_guid, synced_row, apply_check, apply_checks, apply_checks_delta,
}
use tenpm_uptime_monitor.Store.Buffer.{wire_result, unsent_joined}
use tenpm_uptime_monitor.Store.Mirror.Distinct.{find_id_above}
use tenpm_uptime_monitor.Store.Mirror.Sync.{
  encoded, apply_check_cases, apply_checks_delta-rows, apply_checks_delta-results,
}

delete_guid-append :
    (g : Text) (rs : List Row) (a : Row)
    → find_guid g rs ≡ none
    → a.guid ≡ g
    → delete_guid g (rs ++ a ∷ []) ≡ rs
unfolding find_guid delete_guid
delete_guid-append g [] a h e = ground arith
delete_guid-append g (x ∷ rs) a h e = ground (arith, delete_guid-append g rs a)

find_id-append_last :
    (k : ℕ) (rs : List Row) (a : Row)
    → find_id k rs ≡ none
    → a.id ≡ k
    → find_id k (rs ++ a ∷ []) ≡ some a
unfolding find_id
find_id-append_last k [] a h e = ground arith
find_id-append_last k (x ∷ rs) a h e = ground (arith, find_id-append_last k rs a)

upsert_new :
    (x : Row) (rs : List Row)
    → find_guid x.guid rs ≡ none
    → upsert merge_synced x rs ≡ rs ++ record x { id = next_id rs } ∷ []
unfolding upsert
upsert_new x rs h = ground (arith, h)

-- An unsent result whose check is found is listed.
Memᴰ-unsent_joined :
    (checks : List Row) (bs : List Buffered) (b : Buffered) (row : Row)
    → Memᴰ b bs
    → b.sent ≡ false
    → find_id b.check_id checks ≡ some row
    → Memᴰ (b.id, wire_result row.guid b) (unsent_joined checks bs)
unfolding unsent_joined
Memᴰ-unsent_joined checks [] b row m s f = absurd (Memᴰ.not-nil m)
Memᴰ-unsent_joined checks (x ∷ bs) b row m s f = elim (Memᴰ.cases_cons m) [
  | inl e ↦
      let here : unsent_joined checks (x ∷ bs)
          ≡ (b.id, wire_result row.guid b) ∷ unsent_joined checks bs =
        rw (← e) (ground (arith, s, f)) in
      subst (Memᴰ (b.id, wire_result row.guid b)) (sym here) (head refl)
  | inr later ↦
      let rest = Memᴰ-unsent_joined checks bs b row later s f in
      elim (Bool-cases x.sent) [
        | inl sent ↦ rw sent rest
        | inr unsent ↦ elim (Option-cases (find_id x.check_id checks)) [
          | inl lost ↦ rw (unsent, lost) rest
          | inr (r, found) ↦ rw (unsent, found) (tail rest)
        ]
      ]
]

-- A loop of two rounds that succeeds has succeeded in both.
two_rounds :
    (codec : Codec) (faults : Faults) (n : ℕ) (c d : Check) (rows rows' : List Row)
    → apply_checks codec faults n (c ∷ d ∷ []) rows ≡ ok rows'
    → (mid : List Row) × (apply_check codec faults n c rows ≡ ok mid)
      × (apply_check codec faults (suc n) d mid ≡ ok rows')
unfolding apply_checks
two_rounds codec faults n c d rows rows' h = elim (Res-cases (apply_check codec faults n c rows)) [
  | inl (mid, e) ↦ elim (Res-cases (apply_check codec faults (suc n) d mid)) [
    | inl (last, e') ↦ (mid, e, ground arith)
    | inr (x, e') ↦ absurd (ground arith)
  ]
  | inr (x, e) ↦ absurd (ground arith)
]

module _ (codec : Codec) (faults : Faults) (rest : List Row) (a : Row) (gone fresh : Check)
    (last : a.id ≡ next_id rest) (only : find_guid a.guid rest ≡ none)
    (deletes : (gone.deleted ≡ true) × (gone.guid ≡ a.guid))
    (adds : (fresh.deleted ≡ false) × (find_guid fresh.guid rest ≡ none)) where
  -- The table after a delta that deletes the last check and adds a new one.
  replaced :
      (n : ℕ) {rows : List Row}
      → apply_checks codec faults n (gone ∷ fresh ∷ []) (rest ++ a ∷ []) ≡ ok rows
      → rows ≡ rest ++ record (synced_row fresh (encoded codec fresh)) { id = a.id } ∷ []
  unfolding synced_row
  replaced n {rows} h =
      let (mid, first, second) = two_rounds codec faults n gone fresh (rest ++ a ∷ []) rows h in
      elim (apply_check_cases codec faults n gone (rest ++ a ∷ []) mid first) [
        | inr (kept, e) ↦ absurd (ground (arith, deletes.0))
        | inl (_, e) ↦
            let mid_rest : mid ≡ rest =
              e ∙ rw deletes.1 (delete_guid-append a.guid rest a only refl) in
            elim (apply_check_cases codec faults (suc n) fresh mid rows second) [
              | inl (dropped, e') ↦ absurd (ground (arith, adds.0))
              | inr (_, e') ↦
                  e'
                  ∙ rw (mid_rest, last)
                      (upsert_new (synced_row fresh (encoded codec fresh)) rest adds.1)
            ]
      ]

  -- A delta that deletes the check with the largest key, when no key below it was skipped, and adds
  -- a check under a new guid hands the key on: an unsent row of the results buffer that belongs to the
  -- deleted check, which ListUnsent joined with its guid, is still there and is joined with the guid of
  -- the new one.
  pub reused_key_misattributes :
      (server_time : Time) (db db' : Db) (b : Buffered)
      → db.checks ≡ rest ++ a ∷ []
      → apply_checks_delta codec faults (gone ∷ fresh ∷ []) server_time db ≡ (ok tt, db')
      → Memᴰ b db.results
      → b.sent ≡ false
      → b.check_id ≡ a.id
      → Memᴰ (b.id, wire_result a.guid b) (unsent_joined db.checks db.results)
        × Memᴰ (b.id, wire_result fresh.guid b) (unsent_joined db'.checks db'.results)
  unfolding synced_row
  reused_key_misattributes server_time db db' b shape h buffered unsent owner =
      let above : find_id a.id rest ≡ none = find_id_above a.id rest (omega arith) in
      let new = record (synced_row fresh (encoded codec fresh)) { id = a.id } in
      let after : db'.checks ≡ rest ++ new ∷ [] = replaced 3 (
        rw shape at
          (apply_checks_delta-rows codec faults (gone ∷ fresh ∷ []) server_time db db' h)) in
      let still : Memᴰ b db'.results =
        subst (Memᴰ b)
          (sym (apply_checks_delta-results codec faults (gone ∷ fresh ∷ []) server_time db db' h))
          buffered in
      (
        rw shape (
            Memᴰ-unsent_joined (rest ++ a ∷ []) db.results b a buffered unsent
              (rw owner (find_id-append_last a.id rest a above refl))),
        rw after (
            Memᴰ-unsent_joined (rest ++ new ∷ []) db'.results b new still unsent
              (rw owner (find_id-append_last a.id rest new above refl))),
      )
