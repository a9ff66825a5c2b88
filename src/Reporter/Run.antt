-- ===== src/Reporter/Run.antt =====
-- The loop of Run while results are buffered between its turns.
use mathlib.Core.List.{flatten, append_assoc, append-nil}
use tenpm_uptime_monitor.Prelude.{
  ℕ, suc, ◌+◌, ◌≤◌, ◌<◌, ◌≡◌, refl, ap, ◌∙◌, sym, inl, inr, Bool, false, not, ◌&&◌, List, [], ◌∷◌,
  ◌++◌, map, length, length-append, arith, Bool-cases, All, keep_if,
}
use tenpm_uptime_monitor.Model.Check.{Result, Time}
use tenpm_uptime_monitor.Store.Tables.{Row, Buffered, Db, Res, ok, err, Res-cases, Faults}
use tenpm_uptime_monitor.Store.Buffer.{buffer_result, purge_sent_older_than, unsent_joined}
use tenpm_uptime_monitor.Store.Buffer.Backlog.{backlog, sent_form, buffer_result-backlog}
use tenpm_uptime_monitor.Store.Valid.{IsValid}
use tenpm_uptime_monitor.Store.Valid.Results.{buffer-IsValid, purge-IsValid}
use tenpm_uptime_monitor.Reporter.{
  Rounds, Reported, Turn, report_once, reporter_turn, final_drain, reporter_run,
}
use tenpm_uptime_monitor.Reporter.Drain.{report_once-accounted, report_once-IsValid}

purge-joined :
    (checks : List Row) (old : Buffered → Bool) (bs : List Buffered)
    → unsent_joined checks (keep_if (λ b. not (b.sent && old b)) bs) ≡ unsent_joined checks bs
unfolding unsent_joined
purge-joined checks old [] = refl
purge-joined checks old (b ∷ bs) = ground (arith, purge-joined checks old bs)

purge-backlog :
    (faults : Faults) (cutoff : Time) (db : Db)
    → backlog (purge_sent_older_than faults cutoff db).1 ≡ backlog db
unfolding purge_sent_older_than
purge-backlog faults cutoff db = elim (Bool-cases (faults 0)) [
  | inl bad ↦ rw bad refl
  | inr fine ↦ rw fine (purge-joined db.checks _ db.results)
]

-- The results that the runner buffers between two turns, with what SQLite refuses at each.
abbrev pub Arrivals : Type 0
Arrivals = List (Faults × Result)

unfoldable pub buffer_all : Arrivals → Db → Db
buffer_all [] db = db
buffer_all ((faults, r) ∷ rs) db = buffer_all rs (buffer_result faults r db).1

stored : Res (Unit {0}) → ℕ × Result → List (ℕ × Result)
stored (ok _) e = e ∷ []
stored (err x) e = []

-- The entries of the backlog that these calls make: one for each call that succeeds.
unfoldable pub entries : Arrivals → Db → List (ℕ × Result)
unfolding stored
entries [] db = []
entries ((faults, r) ∷ rs) db =
    let (done, db') = buffer_result faults r db in
    stored done (suc db.results_seq, sent_form r) ++ entries rs db'

buffer_result-failed :
    (faults : Faults) (r : Result) (db : Db) {e : _}
    → (buffer_result faults r db).0 ≡ err e
    → (buffer_result faults r db).1 ≡ db
unfolding buffer_result
buffer_result-failed faults r db h = ground (arith, h)

buffered_one :
    (faults : Faults) (r : Result) (db : Db)
    → IsValid db
    → let (done, db') = buffer_result faults r db in
      backlog db' ≡ backlog db ++ stored done (suc db.results_seq, sent_form r)
unfolding stored
buffered_one faults r db v = elim (Res-cases (buffer_result faults r db).0) [
  | inl (u, e) ↦ rw e (
      buffer_result-backlog faults r db (buffer_result faults r db).1 v
        (ap (λ o. (o, (buffer_result faults r db).1)) e))
  | inr (x, e) ↦ rw (e, buffer_result-failed faults r db e) (sym (append-nil (backlog db)))
]

buffer_all-backlog :
    (rs : Arrivals) (db : Db)
    → IsValid db
    → (backlog (buffer_all rs db) ≡ backlog db ++ entries rs db) × IsValid (buffer_all rs db)
unfolding buffer_all entries
buffer_all-backlog [] db v = (sym (append-nil (backlog db)), v)
buffer_all-backlog ((faults, r) ∷ rs) db v =
    let db' : Db = (buffer_result faults r db).1 in
    let (rest, v') = buffer_all-backlog rs db' (buffer-IsValid faults db v r) in
    (
      rest
          ∙ ap (λ b. b ++ entries rs db') (buffered_one faults r db v)
          ∙ append_assoc (backlog db) _ (entries rs db'),
      v',
    )

-- A run in which the runner buffers `rs` before a turn.
abbrev pub turns_of : List (Arrivals × Turn) → List ((Db → Db) × Turn)
turns_of = map (λ t. (buffer_all t.0, t.1))

-- The entries that a run adds to the backlog.
unfoldable pub run_entries : ℕ → List (Arrivals × Turn) → Arrivals → Db → List (ℕ × Result)
run_entries fuel [] last db = entries last db
run_entries fuel ((rs, turn) ∷ turns) last db =
    entries rs db ++ run_entries fuel turns last (reporter_turn fuel turn (buffer_all rs db)).db

unfoldable pub attempts : List (Arrivals × Turn) → ℕ
attempts [] = 0
attempts ((rs, turn) ∷ turns) = length rs + attempts turns

entries-le : (rs : Arrivals) (db : Db) → length (entries rs db) ≤ length rs
unfolding entries stored
entries-le [] db = omega arith
entries-le ((faults, r) ∷ rs) db = elim (Res-cases (buffer_result faults r db).0) [
  | inl (u, e) ↦ rw e (ground (arith, entries-le rs (buffer_result faults r db).1))
  | inr (x, e) ↦ rw e (ground (arith, entries-le rs (buffer_result faults r db).1))
]

-- A turn, and the drain at the end, take a prefix of the backlog.
turn-accounted :
    (fuel : ℕ) (turn : Turn) (db : Db)
    → ((n : ℕ) → turn.rounds.mark_faults n 0 ≡ false)
    → IsValid db
    → length (backlog db) < fuel
    → let r = reporter_turn fuel turn db in
      (flatten r.confirmed ++ backlog r.db ≡ backlog db) × IsValid r.db
unfolding reporter_turn
turn-accounted fuel turn db fine v h =
    let reported : Reported = report_once turn.rounds fuel db in
    let (ended, same, capped) = report_once-accounted turn.rounds fuel db fine v h in
    (
      ap (◌++◌ (flatten reported.confirmed))
            (purge-backlog turn.purge_faults turn.cutoff reported.db)
          ∙ same,
      purge-IsValid turn.purge_faults reported.db (report_once-IsValid turn.rounds fuel db fine v h)
          turn.cutoff,
    )

flatten-append {ℓ} :
    {A : Type ℓ} (xs ys : List (List A)) → flatten (xs ++ ys) ≡ flatten xs ++ flatten ys
unfolding flatten
flatten-append [] ys = refl
flatten-append (x ∷ xs) ys =
    ap (◌++◌ x) (flatten-append xs ys) ∙ sym (append_assoc x (flatten xs) (flatten ys))

-- What is sent first, with what is left, is the old backlog and the first arrivals; what is sent then,
-- with what is left at the end, is what was left and the arrivals after it.
splice {ℓ} :
    {A : Type ℓ} (sent sent' old new new' mid end : List A)
    → sent ++ mid ≡ old ++ new
    → sent' ++ end ≡ mid ++ new'
    → (sent ++ sent') ++ end ≡ old ++ (new ++ new')
splice sent sent' old new new' mid end h h' =
    append_assoc sent sent' end
    ∙ ap (◌++◌ sent) h'
    ∙ sym (append_assoc sent mid new')
    ∙ ap (λ b. b ++ new') h
    ∙ append_assoc old new new'

-- MarkSent is not refused in a turn.
abbrev pub Marks : Rounds → Type 0
Marks rounds = (n : ℕ) → rounds.mark_faults n 0 ≡ false

length-le_of_append {ℓ} : {A : Type ℓ} (xs ys zs : List A) → xs ++ ys ≡ zs → length ys ≤ length zs
length-le_of_append xs ys zs e = rw (← e) (omega (arith, length-append xs ys))

-- Run, while MarkSent is not refused, the database is valid at the start and nothing but BufferResult
-- comes between the turns: however the runner's results arrive there, whatever the server, the reads and the purges do, and however
-- the wake-ups come, the results that the server confirmed, in their order, followed by the backlog
-- that the last drain leaves, are the backlog at the start followed by what BufferResult stored: each
-- result is confirmed once or still waits, and the purge drops none.
pub reporter_run-accounted :
    (fuel : ℕ) (turns : List (Arrivals × Turn)) (last : Arrivals) (end : Rounds) (db : Db)
    → All (λ t. Marks t.1.rounds) turns
    → Marks end
    → IsValid db
    → length (backlog db) + (attempts turns + length last) < fuel
    → let (confirmed, db') = reporter_run fuel (turns_of turns) (buffer_all last, end) db in
      flatten confirmed ++ backlog db' ≡ backlog db ++ run_entries fuel turns last db
unfolding reporter_run run_entries attempts final_drain
reporter_run-accounted fuel [] last end db marks mark_end v h =
    let (grown, v') = buffer_all-backlog last db v in
    let few : length (backlog (buffer_all last db)) < fuel =
      rw grown (omega (arith, length-append (backlog db) (entries last db), entries-le last db)) in
    let (ended, same, capped) =
      report_once-accounted end fuel (buffer_all last db) mark_end v' few in
    same ∙ grown
reporter_run-accounted fuel ((rs, turn) ∷ turns) last end db (mark, marks) mark_end v h =
    let db₁ : Db = buffer_all rs db in
    let this : Reported = reporter_turn fuel turn db₁ in
    let (grown, v') = buffer_all-backlog rs db v in
    let few : length (backlog db₁) ≤ length (backlog db) + length rs =
      rw grown (omega (arith, length-append (backlog db) (entries rs db), entries-le rs db)) in
    let (same, v'') = turn-accounted fuel turn db₁ mark v' (omega (arith, few)) in
    let less : length (backlog this.db) ≤ length (backlog db₁) =
      length-le_of_append (flatten this.confirmed) (backlog this.db) (backlog db₁) same in
    let rest = reporter_run fuel (turns_of turns) (buffer_all last, end) this.db in
    ap (λ c. c ++ backlog rest.1) (flatten-append this.confirmed rest.0)
    ∙ splice (flatten this.confirmed) (flatten rest.0) (backlog db) (entries rs db)
        (run_entries fuel turns last this.db) (backlog this.db) (backlog rest.1) (same ∙ grown)
        (reporter_run-accounted fuel turns last end this.db marks mark_end v''
          (omega (arith, few, less)))
