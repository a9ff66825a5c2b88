-- ===== src/Runner/Reconcile/Balance.antt =====
-- The goroutines that Run starts and cancels.
use tenpm_uptime_monitor.Prelude.{
  ℕ, suc, ◌+◌, ◌≡◌, refl, inl, inr, Bool, Option, none, some, List, [], ◌∷◌, ◌++◌, ◌==◌,
  if◌then◌else◌, arith, Bool-cases, Option-cases,
}
use tenpm_uptime_monitor.Model.Check.{Check, Headers}
use tenpm_uptime_monitor.Store.Tables.{Res, ok, err}
use tenpm_uptime_monitor.Runner.Reconcile.{
  Scheduled, lookup, insert, Action, cancelled, started, same_definition, visit, visit_all, seen,
  sweep, reconcile, reconcile_rounds, cancel_all,
}

-- How often a goroutine of the check with this id was started, and cancelled.
unfoldable pub starts : ℕ → List Action → ℕ
starts id [] = 0
starts id (cancelled c ∷ acts) = starts id acts
starts id (started c now ∷ acts) =
    let rest = starts id acts in if c.id == id then suc rest else rest

unfoldable pub cancels : ℕ → List Action → ℕ
cancels id [] = 0
cancels id (started c now ∷ acts) = cancels id acts
cancels id (cancelled c ∷ acts) =
    let rest = cancels id acts in if c.id == id then suc rest else rest

starts-append : (id : ℕ) (a b : List Action) → starts id (a ++ b) ≡ starts id a + starts id b
unfolding starts
starts-append id [] b = omega arith
starts-append id (cancelled c ∷ a) b = starts-append id a b
starts-append id (started c now ∷ a) b = ground (arith, starts-append id a b)

cancels-append : (id : ℕ) (a b : List Action) → cancels id (a ++ b) ≡ cancels id a + cancels id b
unfolding cancels
cancels-append id [] b = omega arith
cancels-append id (started c now ∷ a) b = cancels-append id a b
cancels-append id (cancelled c ∷ a) b = ground (arith, cancels-append id a b)

-- How many goroutines are scheduled under this id.
unfoldable pub running : ℕ → Scheduled → ℕ
running id [] = 0
running id ((k, c) ∷ s) = let rest = running id s in if k == id then suc rest else rest

-- Every goroutine stands under the id of its check.
unfoldable pub Filed : Scheduled → Type 0
Filed [] = Unit {0}
Filed ((k, c) ∷ s) = (c.id ≡ k) × Filed s

-- What is started and not cancelled is what is scheduled.
abbrev pub Balanced : Scheduled → List Action → Scheduled → Type 0
Balanced s acts s' =
    ((id : ℕ) → starts id acts + running id s ≡ cancels id acts + running id s') × Filed s'

pub running-insert_new :
    (id k : ℕ) (c : Check) (s : Scheduled)
    → lookup k s ≡ none
    → running id (insert k c s) ≡ (if k == id then suc (running id s) else running id s)
unfolding running lookup insert
running-insert_new id k c [] h = ground arith
running-insert_new id k c ((j, d) ∷ s) h = ground (arith, running-insert_new id k c s)

pub running-insert_known :
    (id k : ℕ) (c d : Check) (s : Scheduled)
    → lookup k s ≡ some d
    → running id (insert k c s) ≡ running id s
unfolding running lookup insert
running-insert_known id k c d [] h = absurd (ground arith)
running-insert_known id k c d ((j, e) ∷ s) h = ground (arith, running-insert_known id k c d s)

insert-Filed : (c : Check) (s : Scheduled) → Filed s → Filed (insert c.id c s)
unfolding Filed insert
insert-Filed c [] v = (refl, tt)
insert-Filed c ((j, d) ∷ s) v = elim (Bool-cases (j == c.id)) [
  | inl same ↦ rw same (ground arith, v.1)
  | inr other ↦ rw other (v.0, insert-Filed c s v.1)
]

lookup-Filed : (k : ℕ) (d : Check) (s : Scheduled) → Filed s → lookup k s ≡ some d → d.id ≡ k
unfolding Filed lookup
lookup-Filed k d [] v h = absurd (ground arith)
lookup-Filed k d ((j, e) ∷ s) v h = elim (Bool-cases (j == k)) [
  | inl same ↦ ground (arith, v.0)
  | inr other ↦ lookup-Filed k d s v.1 (ground arith)
]

-- Actions one after the other.
pub Balanced-append :
    (s mid s' : Scheduled) (a b : List Action)
    → Balanced s a mid
    → Balanced mid b s'
    → Balanced s (a ++ b) s'
Balanced-append s mid s' a b (first, v) (second, v') =
    ((λ id. omega (arith, first id, second id, starts-append id a b, cancels-append id a b)), v')

module _ (same_headers : Headers → Headers → Bool) where
  visit-Balanced :
      (c : Check) (s : Scheduled)
      → Filed s
      → let (acts, s') = visit same_headers c s in Balanced s acts s'
  unfolding visit starts cancels
  visit-Balanced c s v = elim (Option-cases (lookup c.id s)) [
    | inl new ↦
        rw (visit, new)
          ((λ id. ground (arith, running-insert_new id c.id c s new)), insert-Filed c s v)
    | inr (old, found) ↦ elim (Bool-cases (same_definition same_headers old c)) [
      | inl same ↦ rw (visit, found, same) ((λ id. refl), v)
      | inr changed ↦
          let filed : old.id ≡ c.id = lookup-Filed c.id old s v found in
          rw (visit, found, changed)
            (
              (λ id. ground (arith, filed, running-insert_known id c.id c old s found)),
              insert-Filed c s v,
            )
    ]
  ]

  visit_all-Balanced :
      (cs : List Check) (s : Scheduled)
      → Filed s
      → let (acts, s') = visit_all same_headers cs s in Balanced s acts s'
  unfolding visit_all starts cancels
  visit_all-Balanced [] s v = ((λ id. refl), v)
  visit_all-Balanced (c ∷ cs) s v =
      let first = visit-Balanced c s v in
      let mid : Scheduled = (visit same_headers c s).1 in
      Balanced-append s mid _ (visit same_headers c s).0 _ first (visit_all-Balanced cs mid first.1)

sweep-Balanced :
    (checks : List Check) (s : Scheduled) (ls : ℕ → Option Bool)
    → Filed s
    → let r = sweep checks s ls in Balanced s r.0 r.1
unfolding sweep starts cancels running Filed
sweep-Balanced checks [] ls v = ((λ id. refl), tt)
sweep-Balanced checks ((k, c) ∷ s) ls v =
    let (rest, v') = sweep-Balanced checks s ls v.1 in
    elim (Bool-cases (seen k checks)) [
      | inl kept ↦ rw (sweep, kept) ((λ id. ground (arith, rest id)), (v.0, v'))
      | inr gone ↦ rw (sweep, gone) ((λ id. ground (arith, rest id, v.0)), v')
    ]

module _ (same_headers : Headers → Headers → Bool) where
  reconcile-Balanced :
      (listed : Res (List Check)) (s : Scheduled) (ls : ℕ → Option Bool)
      → Filed s
      → let r = reconcile same_headers listed s ls in Balanced s r.0 r.1
  unfolding reconcile starts cancels
  reconcile-Balanced (err e) s ls v = ((λ id. refl), v)
  reconcile-Balanced (ok checks) s ls v =
      let visited = visit_all-Balanced same_headers checks s v in
      let mid : Scheduled = (visit_all same_headers checks s).1 in
      Balanced-append s mid (sweep checks mid ls).1 (visit_all same_headers checks s).0
        (sweep checks mid ls).0 visited (sweep-Balanced checks mid ls visited.1)

  pub reconcile_rounds-Balanced :
      (listings : List (Res (List Check))) (s : Scheduled) (ls : ℕ → Option Bool)
      → Filed s
      → let r = reconcile_rounds same_headers listings s ls in Balanced s r.0 r.1
  unfolding reconcile_rounds starts cancels
  reconcile_rounds-Balanced [] s ls v = ((λ id. refl), v)
  reconcile_rounds-Balanced (listed ∷ rest) s ls v =
      let first = reconcile-Balanced listed s ls v in
      let now = reconcile same_headers listed s ls in
      let later = reconcile_rounds same_headers rest now.1 now.2 in
      Balanced-append s now.1 later.1 now.0 later.0 first
        (reconcile_rounds-Balanced rest now.1 now.2 first.1)

pub cancel_all-Balanced : (s : Scheduled) → Filed s → Balanced s (cancel_all s) []
unfolding cancel_all starts cancels running Filed
cancel_all-Balanced [] v = ((λ id. refl), tt)
cancel_all-Balanced ((k, c) ∷ s) v =
    let (rest, v') = cancel_all-Balanced s v.1 in ((λ id. ground (arith, rest id, v.0)), tt)
