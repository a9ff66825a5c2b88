-- ===== src/Schedule/Rotation.antt =====
-- The monitors of one check share its schedule: the phases of monitor/schedule.go at the ranks
-- below monitor_count divide the seconds of the check's own grid among them.
use native.Mathlib.Nat.{mod-add-div', mul-le-mul_right, mod-lt, mul_comm, add-zero}
use tenpm_uptime_monitor.Prelude.{
  ℕ, suc, ◌+◌, ◌-◌, ◌*◌, ◌/◌, ◌%◌, ◌^◌, ◌≤◌, ◌<◌, ◌≡◌, ap, arith, dec_le, if◌then◌else◌,
}
use tenpm_uptime_monitor.Prelude.Int.{ℤ, pos, ltb_ℤ, ◌+ℤ◌, ◌*ℤ◌}
use tenpm_uptime_monitor.Model.Check.{Check}
use tenpm_uptime_monitor.Schedule.Words.{rem64, wrap64_of_IsInt64}
use tenpm_uptime_monitor.Schedule.{mod64, effective_interval_seconds, check_phase_seconds, fnv32a}
use tenpm_uptime_monitor.Schedule.Grid.{Congruent, mod64_lem, zero_of_multiple}

Congruent-symm : (m : ℕ) (a b : ℤ) → Congruent m a b → Congruent m b a
Congruent-symm m a b (j, k, e) = (k, j, omega arith)

Congruent-trans : (m : ℕ) (a b c : ℤ) → Congruent m a b → Congruent m b c → Congruent m a c
Congruent-trans m a b c (j, k, e) (j', k', e') = (j + j', k + k', omega arith)

-- The check as the monitor of the given rank holds it.
abbrev pub at_rank : Check → ℕ → Check
at_rank c rank = record c { monitor_rank = pos rank }

-- The phase of the monitor of the given rank.
abbrev pub phase_at : Check → ℕ → ℤ
phase_at c rank = check_phase_seconds (at_rank c rank) (effective_interval_seconds c)

pub rank_below : (n i r : ℕ) → r < n → r * i + i ≤ n * i
rank_below n i r h = omega (arith, mul-le-mul_right i h)

pub pos-mul : (a b : ℕ) → pos a *ℤ pos b ≡ pos (a * b)
unfolding ◌*ℤ◌
pos-mul a b = ground arith

pos-add : (a b : ℕ) → pos a +ℤ pos b ≡ pos (a + b)
unfolding ◌+ℤ◌
pos-add a b = ground arith

times_pred : (j n q : ℕ) → n ≡ q + 1 → j * n ≡ j * q + j
times_pred j n q e = rw e (omega arith)

module _ (c : Check) (i n : ℕ) (interval : c.interval_sec ≡ pos i) (count : c.monitor_count ≡ pos n)
    (i_positive : 0 < i) (n_positive : 0 < n) (small : n * i < 2 ^ 62) where
  abbrev h : ℕ
  h = fnv32a c.guid

  clamped_count : (if ltb_ℤ c.monitor_count (pos 1) then pos 1 else c.monitor_count) ≡ pos n
  clamped_count = ground arith

  pub effective_interval_seconds-mul : effective_interval_seconds c ≡ pos (n * i)
  unfolding effective_interval_seconds
  effective_interval_seconds-mul =
      rw (interval, clamped_count, pos-mul i n, mul_comm i n)
        (wrap64_of_IsInt64 (pos (n * i)) (omega arith, omega arith))

  m_positive : 0 < n * i
  m_positive = omega (arith, mul-le-mul_right i n_positive)

  -- The phase of a rank, before and after the reduction to the interval.
  phase_at_lem : (r : ℕ) → r < n → phase_at c r ≡ mod64 (pos (r * i + h % (n * i))) (pos (n * i))
  unfolding check_phase_seconds rem64
  phase_at_lem r lt =
      let below : r * i + i ≤ n * i = rank_below n i r lt in
      let hash_below : h % (n * i) < n * i = mod-lt h m_positive in
      let at_zero : h % (n * i + 0) ≡ h % (n * i) = ap (λ (k : ℕ). h % k) (add-zero (n * i)) in
      rw
        (
          effective_interval_seconds-mul,
          interval,
          pos-mul r i,
          at_zero,
          wrap64_of_IsInt64 (pos (r * i)) (omega arith, omega arith),
          pos-add (r * i) (h % (n * i)),
          wrap64_of_IsInt64 (pos (r * i + h % (n * i))) (omega arith, omega arith),
        )
        (ground arith)

  phase_at-Congruent : (r : ℕ) → r < n → Congruent (n * i) (pos (h + r * i)) (phase_at c r)
  phase_at-Congruent r lt =
      let (p, e, _, congruent) =
        mod64_lem (pos (r * i + h % (n * i))) (n * i) m_positive (omega arith) in
      rw (phase_at_lem r lt, e)
        (Congruent-trans (n * i) (pos (h + r * i)) (pos (r * i + h % (n * i))) (pos p)
          (0, h / (n * i), omega (arith, mod-add-div' h (n * i))) congruent)

  slot_has_owner :
      (t : ℕ)
      → Congruent i (pos t) (pos h)
      → (r : ℕ) × (r < n) × Congruent (n * i) (pos t) (phase_at c r)
  slot_has_owner t (j, k, e) =
      let s : ℕ = k + j * (n - 1) in
      let r : ℕ = s % n in
      let lt : r < n = mod-lt s n_positive in
      let turns : j * n ≡ j * (n - 1) + j = times_pred j n (n - 1) (omega arith) in
      (
        r,
        lt,
        Congruent-trans (n * i) (pos t) (pos (h + r * i)) (phase_at c r)
            (
              j,
              s / n,
              omega (arith, ap (λ (x : ℕ). x * i) (mod-add-div' s n), ap (λ (x : ℕ). x * i) turns),
            )
            (phase_at-Congruent r lt),
      )

  rank-le : (r r' : ℕ) → r < n → Congruent (n * i) (pos (h + r * i)) (pos (h + r' * i)) → r ≤ r'
  rank-le r r' lt (j, k, e) = elim (dec_le r r') [
    | yes le ↦ le
    | no nle ↦
        let lower : suc r' ≤ r = omega arith in
        let apart : r' * i + i ≤ r * i = omega (arith, mul-le-mul_right i lower) in
        let below : r * i + i ≤ n * i = rank_below n i r lt in
        absurd
          (omega (arith, zero_of_multiple (n * i) (r * i - r' * i) j k (omega arith) (omega arith)))
  ]

  slot_owner_unique :
      (t r r' : ℕ)
      → r < n
      → r' < n
      → Congruent (n * i) (pos t) (phase_at c r)
      → Congruent (n * i) (pos t) (phase_at c r')
      → r ≡ r'
  slot_owner_unique t r r' lt lt' o o' =
      let between : (a b : ℕ)
          → a < n
          → b < n
          → Congruent (n * i) (pos t) (phase_at c a)
          → Congruent (n * i) (pos t) (phase_at c b)
          → Congruent (n * i) (pos (h + a * i)) (pos (h + b * i)) =
        λ a b la lb oa ob.
          Congruent-trans (n * i) (pos (h + a * i)) (phase_at c a) (pos (h + b * i))
            (phase_at-Congruent a la)
            (Congruent-trans (n * i) (phase_at c a) (pos t) (pos (h + b * i))
              (Congruent-symm (n * i) (pos t) (phase_at c a) oa)
              (Congruent-trans (n * i) (pos t) (phase_at c b) (pos (h + b * i)) ob (
                Congruent-symm (n * i) (pos (h + b * i)) (phase_at c b)
                  (phase_at-Congruent b lb)))) in
      omega (
        arith,
        rank-le r r' lt (between r r' lt lt' o o'),
        rank-le r' r lt' (between r' r lt' lt o' o),
      )

  -- For a positive interval and a positive monitor count, whose product is below 2^62, every second
  -- of the check's own grid, hash, hash + interval, ..., is a slot of one monitor and no other.
  pub slot_has_one_owner :
      (t : ℕ)
      → Congruent i (pos t) (pos h)
      → (r : ℕ) × (r < n)
        × Congruent (n * i) (pos t) (phase_at c r)
        × ((r' : ℕ) → r' < n → Congruent (n * i) (pos t) (phase_at c r') → r ≡ r')
  slot_has_one_owner t on_grid =
      let (r, lt, mine) = slot_has_owner t on_grid in
      (r, lt, mine, λ r' lt' other. slot_owner_unique t r r' lt lt' mine other)
