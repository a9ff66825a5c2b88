-- ===== src/Store/Query/Identity.antt =====
-- GetIdentity and SetIdentity on each branch.
use tenpm_uptime_monitor.Prelude.{
  ◌≡◌, refl, ap, true, false, some, [], inl, inr, arith, Option-cases,
}
use tenpm_uptime_monitor.Prelude.Text.{Text, same}
use tenpm_uptime_monitor.Store.Tables.{StoreError, Db, Faults, db_fault, ok, err}
use tenpm_uptime_monitor.Store.Query.{get_identity, set_identity}

pub set_identity-fault :
    (faults : Faults) (id key : Text) (db : Db)
    → faults 0 ≡ true
    → set_identity faults id key db ≡ (err db_fault, db)
unfolding set_identity
set_identity-fault faults id key db h = rw h refl

pub set_identity-fine :
    (faults : Faults) (id key : Text) (db : Db)
    → faults 0 ≡ false
    → set_identity faults id key db ≡ (ok tt, record db { identity = some (id, key) })
unfolding set_identity
set_identity-fine faults id key db h = rw h refl

pub stored_identity :
    (faults : Faults) (db : Db) (id key : Text)
    → get_identity faults db ≡ ok (id, key)
    → same key [] ≡ false
    → db.identity ≡ some (id, key)
unfolding get_identity
stored_identity faults db id key h n = elim (Option-cases db.identity) [
  | inl e ↦
      let no_key : key ≡ [] = ground (arith, h, e) in
      absurd (ground (arith, n, ap (λ k. same k []) no_key))
  | inr (both, e) ↦ rw e (ground (arith, h, e))
]

pub get_identity-err :
    (faults : Faults) (db : Db) (e : StoreError) → get_identity faults db ≡ err e → faults 0 ≡ true
unfolding get_identity
get_identity-err faults db e h = ground (arith, h)
