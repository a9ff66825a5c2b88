-- ===== src/Store/Tables.antt =====
-- The tables that monitor/migrations/ create, as monitor/store.go uses them, and its errors.
use tenpm_uptime_monitor.Prelude.{
  ℕ, suc, ◌≡◌, refl, ◌⊎◌, inl, inr, Bool, Option, none, some, List, [], ◌∷◌, if◌then◌else◌, ltb,
  ◌==◌,
}
use tenpm_uptime_monitor.Prelude.Int.{ℤ}
use tenpm_uptime_monitor.Prelude.Text.{Text, same}
use tenpm_uptime_monitor.Model.Check.{Time}

-- A row of the table checks.
pub record Row : Type 0 where
  pub id : ℕ
  pub guid : Text
  pub name : Text
  pub url : Text
  pub match_string : Text
  pub match_mode : Text
  pub post_data : Text
  pub headers : Text
  pub disable_redirects : Bool
  pub status_code_op : Text
  pub status_code_value : ℤ
  pub insecure_skip_verify : Bool
  pub interval_sec : ℤ
  pub timeout_sec : ℤ
  pub enabled : Bool
  pub result_detail_max_chars : ℤ
  pub max_response_time_ms : ℤ
  pub cert_expiry_warn_days : ℤ
  pub invert_result : Bool
  pub monitor_count : ℤ
  pub monitor_rank : ℤ
  pub locally_defined : Bool

-- A row of the table results_buffer. The text in ran_at has the resolution of a second, and stands
-- for that second.
pub record Buffered : Type 0 where
  pub id : ℕ
  pub check_id : ℕ
  pub ran_at : ℤ
  pub success : Bool
  pub http_status : ℤ
  pub latency_ms : ℤ
  pub error : Text
  pub response_sample : Text
  pub sent : Bool

-- The database: sync_state and identity hold at most one row, and results_seq is the largest key
-- that results_buffer ever had, which AUTOINCREMENT keeps.
pub record Db : Type 0 where
  pub checks : List Row
  pub last_synced_at : Option Time
  pub identity : Option (Text × Text)
  pub results : List Buffered
  pub results_seq : ℕ

pub data StoreError : Type 0 where
  -- SQLite refused a statement.
  db_fault : StoreError
  -- EncodeHeaders or DecodeHeaders failed.
  bad_headers : StoreError
  -- BufferResult found no check with the result's guid.
  unknown_check : StoreError
  -- ImportPrivateCheck was given no guid.
  no_guid : StoreError

pub data Res {ℓ} (A : Type ℓ) : Type ℓ where
  ok : A → Res A
  err : StoreError → Res A

pub Res-cases {ℓ} :
    {A : Type ℓ} (r : Res A) → ((a : A) × (r ≡ ok a)) ⊎ ((e : StoreError) × (r ≡ err e))
Res-cases (ok a) = inl (a, refl)
Res-cases (err e) = inr (e, refl)

infixl 5 ◌>>=◌ ◌>>◌
abbrev pub ◌>>=◌ {ℓ κ} : {A : Type ℓ} {B : Type κ} → Res A → (A → Res B) → Res B
ok a >>= f = f a
err e >>= f = err e

abbrev pub ◌>>◌ {ℓ} : {B : Type ℓ} → Res (Unit {0}) → Res B → Res B
m >> k = m >>= λ _. k

-- Whether SQLite refuses the n-th statement of a call.
abbrev pub Faults : Type 0
Faults = ℕ → Bool

abbrev pub statement : Faults → ℕ → Res (Unit {0})
statement faults n = if faults n then err db_fault else ok tt

-- SELECT ... FROM checks WHERE guid = ?
unfoldable pub find_guid : Text → List Row → Option Row
find_guid g [] = none
find_guid g (r ∷ rs) = if same r.guid g then some r else find_guid g rs

-- SELECT ... FROM checks WHERE id = ?
unfoldable pub find_id : ℕ → List Row → Option Row
find_id k [] = none
find_id k (r ∷ rs) = if r.id == k then some r else find_id k rs

-- The key that SQLite gives a new row of checks: one more than the largest in use.
unfoldable pub next_id : List Row → ℕ
next_id [] = 1
next_id (r ∷ rs) = let rest = next_id rs in if ltb r.id rest then rest else suc r.id
