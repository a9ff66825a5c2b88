-- ===== src/Store/Valid/Keys.antt =====
-- The invariant of the database, and the keys of the results buffer.
use tenpm_uptime_monitor.Prelude.{
  ℕ, suc, ◌≤◌, ◌<◌, ◌≡◌, Bool, List, [], ◌∷◌, ◌++◌, arith, keep_if, Bool-cases, inl, inr,
}
use tenpm_uptime_monitor.Store.Tables.{Buffered, Db}
use tenpm_uptime_monitor.Store.Buffer.{set_sent}
use tenpm_uptime_monitor.Store.Mirror.Distinct.{Distinct}

-- The keys of the rows rise, from above lo up to at most hi.
abbrev pub Keyed : ℕ → ℕ → List Buffered → Type 0
Keyed lo hi [] = lo ≤ hi
Keyed lo hi (b ∷ bs) = (lo < b.id) × Keyed b.id hi bs

-- The keys of both tables are distinct, and AUTOINCREMENT is past every key of the results.
pub record IsValid (db : Db) : Type 0 where
  pub distinct : Distinct db.checks
  pub keyed : Keyed 0 db.results_seq db.results

pub Keyed-weaken :
    (lo lo' hi : ℕ) (bs : List Buffered) → lo' ≤ lo → Keyed lo hi bs → Keyed lo' hi bs
Keyed-weaken lo lo' hi [] h k = omega arith
Keyed-weaken lo lo' hi (b ∷ bs) h k = (omega arith, k.1)

pub Keyed-append :
    (lo hi : ℕ) (bs : List Buffered) (b : Buffered)
    → b.id ≡ suc hi
    → Keyed lo hi bs
    → Keyed lo (suc hi) (bs ++ b ∷ [])
Keyed-append lo hi [] b e k = (omega arith, omega arith)
Keyed-append lo hi (x ∷ bs) b e k = (k.0, Keyed-append x.id hi bs b e k.1)

pub Keyed-set_sent :
    (lo hi : ℕ) (ids : List ℕ) (bs : List Buffered) → Keyed lo hi bs → Keyed lo hi (set_sent ids bs)
unfolding set_sent
Keyed-set_sent lo hi ids [] k = k
Keyed-set_sent lo hi ids (b ∷ bs) k = (k.0, Keyed-set_sent b.id hi ids bs k.1)

pub Keyed-keep_if :
    (p : Buffered → Bool) (lo hi : ℕ) (bs : List Buffered)
    → Keyed lo hi bs
    → Keyed lo hi (keep_if p bs)
Keyed-keep_if p lo hi [] k = k
Keyed-keep_if p lo hi (b ∷ bs) k = elim (Bool-cases (p b)) [
  | inl keep ↦ rw (keep, keep_if) (k.0, Keyed-keep_if p b.id hi bs k.1)
  | inr drop ↦
      rw (drop, keep_if) (Keyed-keep_if p lo hi bs (Keyed-weaken b.id lo hi bs (omega arith) k.1))
]
