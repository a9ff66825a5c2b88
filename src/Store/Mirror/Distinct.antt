-- ===== src/Store/Mirror/Distinct.antt =====
-- The keys of the table checks: no guid and no integer key stands in two rows.
use tenpm_uptime_monitor.Prelude.{
  ℕ, ◌≤◌, ◌<◌, ◌≡◌, refl, ◌≢◌, none, List, [], ◌∷◌, ◌++◌, arith, Option-cases, inl, inr,
}
use tenpm_uptime_monitor.Prelude.Text.{Text, text_dec}
use tenpm_uptime_monitor.Store.Tables.{Row, find_guid, find_id, next_id}
use tenpm_uptime_monitor.Store.Delta.{update_guid, upsert, delete_guid}
use tenpm_uptime_monitor.Store.Mirror.{find_guid-append_ne}

-- The UNIQUE index on guid, and the primary key.
abbrev pub Distinct : List Row → Type 0
Distinct [] = Unit {0}
Distinct (r ∷ rs) = (find_guid r.guid rs ≡ none) × (find_id r.id rs ≡ none) × Distinct rs

pub find_id_above : (k : ℕ) (rs : List Row) → next_id rs ≤ k → find_id k rs ≡ none
unfolding find_id next_id
find_id_above k [] h = refl
find_id_above k (r ∷ rs) h = ground (arith, find_id_above k rs)

find_id-append :
    (k : ℕ) (rs : List Row) (r : Row)
    → r.id ≢ k
    → find_id k rs ≡ none
    → find_id k (rs ++ r ∷ []) ≡ none
unfolding find_id
find_id-append k [] r h e = ground arith
find_id-append k (x ∷ rs) r h e = ground (arith, find_id-append k rs r h)

-- A key in use is below the next one.
id-lt-next_id : (x : Row) (rs : List Row) → x.id < next_id (x ∷ rs)
unfolding next_id
id-lt-next_id x rs = ground arith

next_id-cons-le : (x : Row) (rs : List Row) → next_id rs ≤ next_id (x ∷ rs)
unfolding next_id
next_id-cons-le x rs = ground arith

append-Distinct :
    (rs : List Row) (r : Row)
    → Distinct rs
    → find_guid r.guid rs ≡ none
    → next_id rs ≤ r.id
    → Distinct (rs ++ r ∷ [])
unfolding find_guid find_id
append-Distinct [] r d f n = (refl, refl, tt)
append-Distinct (x ∷ rs) r d f n = (
  rw (find_guid-append_ne x.guid rs r (λ e. absurd (ground (arith, e)))) d.0,
  find_id-append x.id rs r (λ e. absurd (omega (arith, id-lt-next_id x rs))) d.1,
  append-Distinct rs r d.2 (ground arith) (omega (arith, next_id-cons-le x rs)),
)

module _ (merge : Row → Row → Row) (keeps_guid : (r x : Row) → (merge r x).guid ≡ r.guid)
    (keeps_id : (r x : Row) → (merge r x).id ≡ r.id) where
  find_guid-update_none :
      (g : Text) (x : Row) (rs : List Row)
      → find_guid g rs ≡ none
      → find_guid g (update_guid merge x rs) ≡ none
  unfolding find_guid update_guid
  find_guid-update_none g x [] h = refl
  find_guid-update_none g x (y ∷ rs) h =
      ground (arith, keeps_guid y x, find_guid-update_none g x rs)

  find_id-update_none :
      (k : ℕ) (x : Row) (rs : List Row)
      → find_id k rs ≡ none
      → find_id k (update_guid merge x rs) ≡ none
  unfolding find_id update_guid
  find_id-update_none k x [] h = refl
  find_id-update_none k x (y ∷ rs) h = ground (arith, keeps_id y x, find_id-update_none k x rs)

  update-Distinct : (x : Row) (rs : List Row) → Distinct rs → Distinct (update_guid merge x rs)
  unfolding update_guid
  update-Distinct x [] d = tt
  update-Distinct x (y ∷ rs) d = elim (text_dec y.guid x.guid) [
    | yes e ↦ ground (arith, keeps_guid y x, keeps_id y x)
    | no ne ↦ ground (
      arith,
      find_guid-update_none y.guid x rs,
      find_id-update_none y.id x rs,
      update-Distinct x rs,
    )
  ]

  -- An upsert keeps guids and keys distinct.
  pub upsert-Distinct : (x : Row) (rs : List Row) → Distinct rs → Distinct (upsert merge x rs)
  unfolding upsert
  upsert-Distinct x rs d = elim (Option-cases (find_guid x.guid rs)) [
    | inl e ↦ rw (e, upsert) (append-Distinct rs (record x { id = next_id rs }) d e (omega arith))
    | inr (r, e) ↦ rw (e, upsert) (update-Distinct x rs d)
  ]

find_guid-delete_none :
    (g k : Text) (rs : List Row) → find_guid g rs ≡ none → find_guid g (delete_guid k rs) ≡ none
unfolding find_guid delete_guid
find_guid-delete_none g k [] h = refl
find_guid-delete_none g k (y ∷ rs) h = ground (arith, find_guid-delete_none g k rs)

find_id-delete_none :
    (i : ℕ) (k : Text) (rs : List Row) → find_id i rs ≡ none → find_id i (delete_guid k rs) ≡ none
unfolding find_id delete_guid
find_id-delete_none i k [] h = refl
find_id-delete_none i k (y ∷ rs) h = ground (arith, find_id-delete_none i k rs)

-- So does a delete.
pub delete-Distinct : (k : Text) (rs : List Row) → Distinct rs → Distinct (delete_guid k rs)
unfolding delete_guid
delete-Distinct k [] d = tt
delete-Distinct k (y ∷ rs) d =
    ground (
      arith,
      find_guid-delete_none y.guid k rs,
      find_id-delete_none y.id k rs,
      delete-Distinct k rs,
    )
