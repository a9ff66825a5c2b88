-- ===== src/Store/Mirror.antt =====
-- The table checks as a map from guids: what an upsert and a delete do to a lookup.
pub mod Sync
pub mod Private
pub mod Success
pub mod Server
pub mod Distinct
use tenpm_uptime_monitor.Prelude.{
  ◌≡◌, refl, ap, ◌≢◌, true, false, Option, none, some, List, [], ◌∷◌, ◌++◌, arith, if◌then◌else◌,
  Option-cases, inl, inr,
}
use tenpm_uptime_monitor.Prelude.Text.{Text, same, text_dec}
use tenpm_uptime_monitor.Store.Tables.{Row, find_guid, next_id}
use tenpm_uptime_monitor.Store.Delta.{update_guid, upsert, delete_guid}

pub find_guid-append :
    (g : Text) (rs : List Row) (r : Row)
    → find_guid g rs ≡ none
    → find_guid g (rs ++ r ∷ []) ≡ (if same r.guid g then some r else none)
unfolding find_guid
find_guid-append g [] r h = refl
find_guid-append g (x ∷ rs) r h = ground (arith, find_guid-append g rs r)

pub find_guid-append_ne :
    (g : Text) (rs : List Row) (r : Row) → r.guid ≢ g → find_guid g (rs ++ r ∷ []) ≡ find_guid g rs
unfolding find_guid
find_guid-append_ne g [] r h = ground arith
find_guid-append_ne g (x ∷ rs) r h = ground (arith, find_guid-append_ne g rs r)

-- A row found by its guid has it.
pub find_guid-guid : (g : Text) (rs : List Row) {r : Row} → find_guid g rs ≡ some r → r.guid ≡ g
unfolding find_guid
find_guid-guid g [] h = cc
find_guid-guid g (x ∷ rs) {r} h = ground (arith, find_guid-guid g rs {r = r})

module _ (merge : Row → Row → Row) (keeps : (r x : Row) → (merge r x).guid ≡ r.guid) where
  find_guid-update_self :
      (x : Row) (rs : List Row) (r : Row)
      → find_guid x.guid rs ≡ some r
      → find_guid x.guid (update_guid merge x rs) ≡ some (merge r x)
  unfolding find_guid update_guid
  find_guid-update_self x [] r h = cc
  find_guid-update_self x (y ∷ rs) r h = ground (arith, keeps y x, find_guid-update_self x rs r)

  find_guid-update_ne :
      (g : Text) (x : Row) (rs : List Row)
      → x.guid ≢ g
      → find_guid g (update_guid merge x rs) ≡ find_guid g rs
  unfolding find_guid update_guid
  find_guid-update_ne g x [] h = refl
  find_guid-update_ne g x (y ∷ rs) h = ground (arith, keeps y x, find_guid-update_ne g x rs)

  -- The upserted guid has the merged row, or the new row under the next key.
  pub find_guid-upsert_self :
      (x : Row) (rs : List Row)
      → find_guid x.guid (upsert merge x rs) ≡ (elim (find_guid x.guid rs) [
        | some r ↦ some (merge r x)
        | none ↦ some (record x { id = next_id rs })
      ])
  unfolding upsert
  find_guid-upsert_self x rs = elim (Option-cases (find_guid x.guid rs)) [
    | inl e ↦ ground (arith, e, find_guid-append x.guid rs (record x { id = next_id rs }) e)
    | inr (r, e) ↦ ground (arith, e, find_guid-update_self x rs r e)
  ]

  -- Every other guid keeps its row.
  pub find_guid-upsert_ne :
      (g : Text) (x : Row) (rs : List Row)
      → x.guid ≢ g
      → find_guid g (upsert merge x rs) ≡ find_guid g rs
  unfolding upsert
  find_guid-upsert_ne g x rs h = ground (
    arith,
    find_guid-update_ne g x rs h,
    find_guid-append_ne g rs (record x { id = next_id rs }) h,
  )

pub find_guid-delete :
    (g k : Text) (rs : List Row)
    → find_guid g (delete_guid k rs) ≡ (if same k g then none else find_guid g rs)
unfolding find_guid delete_guid
find_guid-delete g k [] = ground arith
find_guid-delete g k (x ∷ rs) = ground (arith, find_guid-delete g k rs)
