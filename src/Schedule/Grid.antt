-- ===== src/Schedule/Grid.antt =====
-- The grid of monitor/schedule.go: mod64, the phase, and the slot that nextSlotAfter finds.
use native.Mathlib.Nat.{mod-add-div', mul-le-mul_right, mod-lt}
use tenpm_uptime_monitor.Prelude.{
  ℕ, suc, ◌+◌, ◌-◌, ◌*◌, ◌/◌, ◌%◌, ◌^◌, ◌≤◌, ◌<◌, ◌≡◌, ◌≢◌, ap, arith, dec_le, ℕ_discrete,
}
use tenpm_uptime_monitor.Prelude.Int.{
  ℤ, pos, negsuc, pos_part, neg_part, ◌≤ℤ◌, ◌+ℤ◌, ◌-ℤ◌, ◌*ℤ◌, +ℤ_parts, -ℤ_parts,
}
use tenpm_uptime_monitor.Model.Check.{Check, Time}
use tenpm_uptime_monitor.Schedule.Words.{wrap64, rem64, wrap64_of_IsInt64}
use tenpm_uptime_monitor.Schedule.{mod64, check_phase_seconds, next_slot_after, fnv32a}

-- a and b differ by a multiple of m.
abbrev pub Congruent : ℕ → ℤ → ℤ → Type 0
Congruent m a b =
    (j : ℕ) × (k : ℕ) × (pos_part a + neg_part b + j * m ≡ pos_part b + neg_part a + k * m)

-- A multiple of m that is below m is 0.
pub zero_of_multiple : (m d j k : ℕ) → d < m → d + j * m ≡ k * m → d ≡ 0
zero_of_multiple m d j k h e = elim (dec_le k j) [
  | yes le ↦ omega (arith, mul-le-mul_right m le)
  | no nle ↦ let more : suc j ≤ k = omega arith in absurd (omega (arith, mul-le-mul_right m more))
]

-- mod64 by a positive number is the representative of its argument in the range from 0 on.
pub mod64_lem :
    (a : ℤ) (m : ℕ)
    → 0 < m
    → m < 2 ^ 63
    → (r : ℕ) × (mod64 a (pos m) ≡ pos r) × (r < m) × Congruent m a (pos r)
unfolding mod64 rem64 wrap64 ◌+ℤ◌
mod64_lem (pos a) m h w =
    (a % m, ground arith, mod-lt a h, (0, a / m, omega (arith, mod-add-div' a m)))
mod64_lem (negsuc a) m h w = elim (ℕ_discrete (suc a % m) 0) [
  | yes e ↦ (0, ground arith, h, (suc a / m, 0, omega (arith, mod-add-div' (suc a) m)))
  | no ne ↦ (
    m - suc a % m,
    ground (arith, mod-lt (suc a) h),
    omega arith,
    (suc (suc a / m), 0, omega (arith, mod-add-div' (suc a) m, mod-lt (suc a) h)),
  )
]

-- checkPhaseSeconds by a positive interval is a second of the interval.
pub check_phase_seconds-lt :
    (c : Check) (m : ℕ)
    → 0 < m
    → m < 2 ^ 63
    → (p : ℕ) × (check_phase_seconds c (pos m) ≡ pos p) × (p < m)
unfolding check_phase_seconds
check_phase_seconds-lt c m h w =
    let (r, e, lt, _) =
      mod64_lem
        (wrap64 (wrap64 (c.monitor_rank *ℤ c.interval_sec) +ℤ rem64 (pos (fnv32a c.guid)) (pos m)))
        m h w in
    (r, ground (arith, e), lt)

-- The gap between two grid points is no number strictly between 0 and m.
no_point_between :
    (m : ℕ) (a b p : ℤ)
    → Congruent m a p
    → Congruent m b p
    → pos_part a + neg_part b < pos_part b + neg_part a + m
    → a ≤ℤ b
no_point_between m a b p (j, k, e) (j', k', e') h =
    elim (dec_le (pos_part a + neg_part b) (pos_part b + neg_part a)) [
      | yes le ↦ le
      | no nle ↦ omega (
        arith,
        zero_of_multiple m ((pos_part a + neg_part b) - (pos_part b + neg_part a)) (j + k') (k + j')
            (omega arith) (omega arith),
      )
    ]

-- The second is the first point at or after `now` of the grid that holds p and has the step m.
pub record IsNextSlot (now : ℤ) (p m : ℕ) (slot : ℤ) : Type 0 where
  pub reached : now ≤ℤ slot
  pub on_grid : Congruent m slot (pos p)
  pub least : (g : ℤ) → Congruent m g (pos p) → now ≤ℤ g → slot ≤ℤ g

module _ (now : Time) (p m : ℕ) (positive : 0 < m) (m_small : m < 2 ^ 62) (in_range : p < m)
    (now_small : (pos_part now.sec < 2 ^ 62) × (neg_part now.sec < 2 ^ 62)) where
  slot-IsNextSlot :
      (slot : ℤ)
      → now.sec ≤ℤ slot
      → Congruent m slot (pos p)
      → pos_part slot + neg_part now.sec < pos_part now.sec + neg_part slot + m
      → IsNextSlot now.sec p m slot
  slot-IsNextSlot slot r c h = record {
    reached = r;
    on_grid = c;
    least = λ g cg le. no_point_between m slot g (pos p) c cg (omega arith);
  }

  abbrev gap : ℤ
  gap = now.sec -ℤ pos p

  gap_exact : wrap64 gap ≡ gap
  unfolding ◌-ℤ◌
  gap_exact = wrap64_of_IsInt64 gap (ground arith, ground arith)

  shift_exact : (n : ℕ) → n ≤ m → wrap64 (now.sec +ℤ wrap64 (pos n)) ≡ now.sec +ℤ pos n
  unfolding ◌+ℤ◌
  shift_exact n h =
      rw (wrap64_of_IsInt64 (pos n) (omega arith, omega arith))
        (wrap64_of_IsInt64 (now.sec +ℤ pos n) (ground arith, ground arith))

  sub_exact : (r : ℕ) → r ≤ m → pos m -ℤ pos r ≡ pos (m - r)
  unfolding ◌-ℤ◌
  sub_exact r h = ground arith

  next_slot_at : mod64 gap (pos m) ≡ pos 0 → next_slot_after now (pos p) (pos m) ≡ now
  unfolding next_slot_after
  next_slot_at e = ground (arith, ap (λ z. mod64 z (pos m)) gap_exact, e)

  next_slot_later :
      (r : ℕ)
      → mod64 gap (pos m) ≡ pos r
      → r ≢ 0
      → r < m
      → next_slot_after now (pos p) (pos m) ≡ record { sec = now.sec +ℤ pos (m - r); nsec = 0 }
  unfolding next_slot_after
  next_slot_later r e ne lt =
      rw (gap_exact, e, sub_exact r (omega arith), shift_exact (m - r) (omega arith)) (ground arith)

  -- For a positive interval and a time of less than 2^62 seconds and a phase below the interval,
  -- nextSlotAfter finds the first second of the grid phase, phase + interval, ... that is not before
  -- the second of `now`.
  pub next_slot_after-IsNextSlot : IsNextSlot now.sec p m (next_slot_after now (pos p) (pos m)).sec
  next_slot_after-IsNextSlot =
      let (r, e, lt, (j, k, c)) = mod64_lem gap m positive (omega arith) in
      elim (ℕ_discrete r 0) [
        | yes z ↦ rw (next_slot_at (rw z at e)) (
            slot-IsNextSlot now.sec (omega arith) (j, k, omega (arith, -ℤ_parts now.sec (pos p)))
              (omega arith))
        | no ne ↦ rw (next_slot_later r e ne lt) (
            slot-IsNextSlot (now.sec +ℤ pos (m - r)) (omega (arith, +ℤ_parts now.sec (pos (m - r))))
              (j, suc k, omega (arith, +ℤ_parts now.sec (pos (m - r)), -ℤ_parts now.sec (pos p)))
              (omega (arith, +ℤ_parts now.sec (pos (m - r)))))
      ]
