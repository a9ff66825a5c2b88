-- ===== src/Store/Buffer/Backlog.antt =====
-- The backlog: the unsent results in the order of their keys, as BufferResult adds to it, ListUnsent
-- reads it and MarkSent takes from it.
use mathlib.Core.Path.{subst}
use tenpm_uptime_monitor.Prelude.{
  ℕ, zero, suc, ◌≤◌, ◌≡◌, refl, ap, sym, ◌∙◌, true, false, none, some, List, [], ◌∷◌, ◌++◌, map,
  arith, take, drop, Bool-cases, Option-cases, inl, inr,
}
use tenpm_uptime_monitor.Prelude.Text.{Text}
use tenpm_uptime_monitor.Model.Check.{Result}
use tenpm_uptime_monitor.Store.Tables.{Row, Buffered, Db, ok, Faults, find_guid, find_id}
use tenpm_uptime_monitor.Store.Buffer.{
  insert_result, buffer_result, wire_result, unsent_joined, mem_id, set_sent, mark_sent,
}
use tenpm_uptime_monitor.Store.Mirror.{find_guid-guid}
use tenpm_uptime_monitor.Store.Mirror.Distinct.{Distinct}
use tenpm_uptime_monitor.Store.Valid.{Keyed, Keyed-set_sent, IsValid}

-- The backlog of a database.
abbrev pub backlog : Db → List (ℕ × Result)
backlog db = unsent_joined db.checks db.results

abbrev pub ids_of : List (ℕ × Result) → List ℕ
ids_of = map (λ e. e.0)

unsent_joined-append :
    (checks : List Row) (bs cs : List Buffered)
    → unsent_joined checks (bs ++ cs) ≡ unsent_joined checks bs ++ unsent_joined checks cs
unfolding unsent_joined
unsent_joined-append checks [] cs = refl
unsent_joined-append checks (b ∷ bs) cs = ground (arith, unsent_joined-append checks bs cs)

find_id_of_find_guid :
    (g : Text) (rs : List Row) {r : Row}
    → Distinct rs
    → find_guid g rs ≡ some r
    → find_id r.id rs ≡ some r
unfolding find_guid find_id
find_id_of_find_guid g [] d h = cc
find_id_of_find_guid g (x ∷ rs) {r} d h = ground (arith, find_id_of_find_guid g rs {r = r})

-- The result as the server will receive it: whole seconds, no monitor id, and the check's guid.
abbrev pub sent_form : Result → Result
sent_form r = record r {
  check_id = 0;
  monitor_id = [];
  ran_at = record { sec = r.ran_at.sec; nsec = 0 };
}

insert_result-backlog :
    (r : Result) (row : Row) (db : Db)
    → IsValid db
    → find_guid r.check_guid db.checks ≡ some row
    → backlog (insert_result row.id r db) ≡ backlog db ++ (suc db.results_seq, sent_form r) ∷ []
unfolding insert_result
insert_result-backlog r row db v found =
    let joined : find_id row.id db.checks ≡ some row =
      find_id_of_find_guid r.check_guid db.checks v.distinct found in
    rw (unsent_joined-append db.checks db.results _) (
      ap (◌++◌ (backlog db)) (
        unfold unsent_joined wire_result in
        ground (arith, find_guid-guid r.check_guid db.checks {r = row} found)))

-- In a valid database a result that was buffered stands at the end of the backlog, under the next key
-- of AUTOINCREMENT, in the form that the server receives: with whole seconds and without the monitor's
-- and the check's local ids; every result before it is still there.
pub buffer_result-backlog :
    (faults : Faults) (r : Result) (db db' : Db)
    → IsValid db
    → buffer_result faults r db ≡ (ok tt, db')
    → backlog db' ≡ backlog db ++ (suc db.results_seq, sent_form r) ∷ []
unfolding buffer_result
buffer_result-backlog faults r db db' v h = elim (Option-cases (find_guid r.check_guid db.checks)) [
  | inl missing ↦ absurd (ground arith)
  | inr (row, found) ↦
      let same : db' ≡ insert_result row.id r db = unfold buffer_result in ground arith in
      rw same (insert_result-backlog r row db v found)
]

set_sent_nil : (bs : List Buffered) → set_sent [] bs ≡ bs
unfolding set_sent mem_id
set_sent_nil [] = refl
set_sent_nil (b ∷ bs) = ground (arith, set_sent_nil bs)

-- A key that no row has marks nothing.
set_sent_skip :
    (k lo hi : ℕ) (ids : List ℕ) (bs : List Buffered)
    → k ≤ lo
    → Keyed lo hi bs
    → set_sent (k ∷ ids) bs ≡ set_sent ids bs
unfolding set_sent mem_id
set_sent_skip k lo hi ids [] h v = refl
set_sent_skip k lo hi ids (b ∷ bs) h v =
    ground (arith, set_sent_skip k b.id hi ids bs (omega arith) v.1)

module _ (checks : List Row) (b : Buffered) (bs : List Buffered) where
  joined_sent : b.sent ≡ true → unsent_joined checks (b ∷ bs) ≡ unsent_joined checks bs
  unfolding unsent_joined
  joined_sent h = ground arith

  joined_orphan :
      find_id b.check_id checks ≡ none → unsent_joined checks (b ∷ bs) ≡ unsent_joined checks bs
  unfolding unsent_joined
  joined_orphan h = ground arith

  joined_listed :
      (row : Row)
      → b.sent ≡ false
      → find_id b.check_id checks ≡ some row
      → unsent_joined checks (b ∷ bs) ≡ (b.id, wire_result row.guid b) ∷ unsent_joined checks bs
  unfolding unsent_joined
  joined_listed row h f = ground arith

-- Marking the first results of the backlog takes exactly these from it.
pub drain_joined :
    (checks : List Row) (lo hi k : ℕ) (bs : List Buffered) (joined : List (ℕ × Result))
    → Keyed lo hi bs
    → unsent_joined checks bs ≡ joined
    → unsent_joined checks (set_sent (ids_of (take k joined)) bs) ≡ drop k joined
unfolding set_sent mem_id
drain_joined checks lo hi zero bs joined v e = rw (set_sent_nil bs) e
drain_joined checks lo hi (suc k) [] joined v e = rw (← e) (unfold unsent_joined in refl)
drain_joined checks lo hi (suc k) (b ∷ bs) joined v e = elim (Bool-cases b.sent) [
  | inl sent ↦
      joined_sent checks _ _ (rw sent)
      ∙ drain_joined checks b.id hi (suc k) bs joined v.1 (sym (joined_sent checks b bs sent) ∙ e)
  | inr unsent ↦ elim (Option-cases (find_id b.check_id checks)) [
    | inl orphan ↦
        joined_orphan checks _ _ orphan
        ∙ drain_joined checks b.id hi (suc k) bs joined v.1
            (sym (joined_orphan checks b bs orphan) ∙ e)
    | inr (row, found) ↦
        let first : joined ≡ (b.id, wire_result row.guid b) ∷ unsent_joined checks bs =
          sym e ∙ joined_listed checks b bs row unsent found in
        subst
          (λ (j : List (ℕ × Result)).
            unsent_joined checks (set_sent (ids_of (take (suc k) j)) (b ∷ bs)) ≡ drop (suc k) j)
          (sym first)
          (joined_sent checks _ _ (ground arith)
            ∙ ap (unsent_joined checks) (set_sent_skip b.id b.id hi _ bs (omega arith) v.1)
            ∙ drain_joined checks b.id hi k bs (unsent_joined checks bs) v.1 refl)
  ]
]

-- MarkSent of the first results of the backlog of a valid database, when SQLite does not refuse it:
-- the call succeeds, the rest is the new backlog, and the database stays valid.
pub mark_sent-backlog :
    (faults : Faults) (k : ℕ) (db : Db)
    → IsValid db
    → faults 0 ≡ false
    → (db' : Db) × (mark_sent faults (ids_of (take k (backlog db))) db ≡ (ok tt, db'))
      × (backlog db' ≡ drop k (backlog db))
      × IsValid db'
mark_sent-backlog faults k db v fine =
    let ids : List ℕ = ids_of (take k (backlog db)) in
    let after : Db = record db { results = set_sent ids db.results } in
    (
      after,
      mark_sent-after ids,
      drain_joined db.checks 0 db.results_seq k db.results (backlog db) v.keyed refl,
      record {
        distinct = v.distinct;
        keyed = Keyed-set_sent 0 db.results_seq ids db.results v.keyed;
      },
    )
  where
    mark_sent-after :
        (ids : List ℕ)
        → mark_sent faults ids db ≡ (ok tt, record db { results = set_sent ids db.results })
    mark_sent-after [] = unfold mark_sent in rw (set_sent_nil db.results)
    mark_sent-after (i ∷ ids) = unfold mark_sent in rw fine
