-- ===== src/Runner/Loop/Grid.antt =====
-- The slots of scheduleLoop stay on the grid of the check, and none is missed or run twice.
use tenpm_uptime_monitor.Prelude.{
  ℕ, zero, suc, ◌+◌, ◌*◌, ◌/◌, ◌%◌, ◌^◌, ◌≤◌, ◌<◌, ◌≡◌, refl, ◌∙◌, inl, inr, Bool, true, false,
  some, List, [], ◌∷◌, arith, All, Bool-cases, ℕ_discrete,
}
use tenpm_uptime_monitor.Prelude.Int.{ℤ, pos, pos_part, neg_part, ◌≤ℤ◌, ◌+ℤ◌, +ℤ_parts, eq_of_parts}
use tenpm_uptime_monitor.Model.Check.{Check, Time}
use tenpm_uptime_monitor.Schedule.{effective_interval_seconds, check_phase_seconds, next_slot_after}
use tenpm_uptime_monitor.Schedule.Words.{wrap64_of_IsInt64}
use tenpm_uptime_monitor.Schedule.Grid.{
  Congruent, IsNextSlot, check_phase_seconds-lt, next_slot_after-IsNextSlot,
}
use tenpm_uptime_monitor.Schedule.Rotation.{pos-mul}
use tenpm_uptime_monitor.Runner.Loop.{
  second, after, add_time, loop_step, skip_to_future, advance, executed_slots, schedule_loop,
}

-- A time whose nanoseconds are below a second, as time.Time keeps them.
abbrev pub IsTime : Time → Type 0
IsTime t = t.nsec < second

loop_step_exact : (m : ℕ) → 0 < m → m * second < 2 ^ 63 → loop_step (pos m) ≡ pos (m * second)
unfolding loop_step
loop_step_exact m h small =
    rw (pos-mul m second, wrap64_of_IsInt64 (pos (m * second)) (omega arith, omega arith))
      (ground arith)

-- Whole seconds are added to the seconds.
add_seconds :
    (t : Time) (m : ℕ)
    → IsTime t
    → add_time t (pos (m * second)) ≡ record { sec = t.sec +ℤ pos m; nsec = t.nsec }
unfolding add_time
add_seconds t m h =
    let q : (t.nsec + m * second) / second ≡ m = omega arith in
    let r : (t.nsec + m * second) % second ≡ t.nsec = omega arith in rw (q, r) refl

after-le : (t u : Time) → after t u ≡ false → t.sec ≤ℤ u.sec
unfolding after
after-le t u h = ground arith

-- The time by which `next` is later by k steps of m seconds.
abbrev pub later : Time → ℕ → Time
later t d = record { sec = t.sec +ℤ pos d; nsec = t.nsec }

-- The first of the times next + m, next + 2 m, ... that is after `now`.
pub record IsFirstAfter (now next : Time) (m : ℕ) (t : Time) : Type 0 where
  pub steps : ℕ
  pub stepped : t ≡ later next (m + steps * m)
  pub future : after t now ≡ true
  pub first : (k : ℕ) → k < steps → after (later next (m + k * m)) now ≡ false

module _ (now next : Time) (m : ℕ) (positive : 0 < m) (valid : IsTime next) where
  later_step :
      (k : ℕ) → add_time (later next (m + k * m)) (pos (m * second)) ≡ later next (m + suc k * m)
  later_step k =
      let sum : (next.sec +ℤ pos (m + k * m)) +ℤ pos m ≡ next.sec +ℤ pos (m + suc k * m) = omega (
        arith,
        eq_of_parts ((next.sec +ℤ pos (m + k * m)) +ℤ pos m) (next.sec +ℤ pos (m + suc k * m)),
        +ℤ_parts (next.sec +ℤ pos (m + k * m)) (pos m),
        +ℤ_parts next.sec (pos (m + k * m)),
        +ℤ_parts next.sec (pos (m + suc k * m)),
      ) in
      add_seconds (later next (m + k * m)) m valid ∙ rw sum refl

  -- A slot that is not after `now` has missed it.
  missed :
      (d : ℕ)
      → after (later next d) now ≡ false
      → pos_part next.sec + neg_part now.sec + d ≤ pos_part now.sec + neg_part next.sec
  missed d h = omega (arith, after-le (later next d) now h, +ℤ_parts next.sec (pos d))

  all_missed :
      (k : ℕ)
      → ((j : ℕ) → j < k → after (later next (m + j * m)) now ≡ false)
      → after (later next (m + k * m)) now ≡ false
      → (j : ℕ) → j < suc k
      → after (later next (m + j * m)) now ≡ false
  all_missed k before past j lt = elim (ℕ_discrete j k) [
    | yes e ↦ rw e past
    | no ne ↦ before j (omega arith)
  ]

  skip_future :
      (fuel : ℕ) (step : ℤ) (t : Time)
      → after t now ≡ true
      → skip_to_future (suc fuel) now step t ≡ some t
  unfolding skip_to_future
  skip_future fuel step t h = rw h refl

  skip_past :
      (fuel : ℕ) (step : ℤ) (t : Time)
      → after t now ≡ false
      → skip_to_future (suc fuel) now step t ≡ skip_to_future fuel now step (add_time t step)
  unfolding skip_to_future
  skip_past fuel step t h = rw h refl

  skip-IsFirstAfter :
      (fuel k : ℕ)
      → pos_part now.sec + neg_part next.sec
        < pos_part next.sec + neg_part now.sec + (m + k * m) + fuel * m
      → ((j : ℕ) → j < k → after (later next (m + j * m)) now ≡ false)
      → (t : Time) × (skip_to_future (suc fuel) now (pos (m * second)) (later next (m + k * m))
          ≡ some t)
        × IsFirstAfter now next m t
  skip-IsFirstAfter zero k enough before = elim (Bool-cases (after (later next (m + k * m)) now)) [
    | inl future ↦ (
      later next (m + k * m),
      skip_future 0 (pos (m * second)) (later next (m + k * m)) future,
      record { steps = k; stepped = refl; future = future; first = before },
    )
    | inr past ↦ absurd (omega (arith, missed (m + k * m) past))
  ]
  skip-IsFirstAfter (suc fuel) k enough before =
      elim (Bool-cases (after (later next (m + k * m)) now)) [
        | inl future ↦ (
          later next (m + k * m),
          skip_future (suc fuel) (pos (m * second)) (later next (m + k * m)) future,
          record { steps = k; stepped = refl; future = future; first = before },
        )
        | inr past ↦
            let (t, e, first) =
              skip-IsFirstAfter fuel (suc k) (omega arith) (all_missed k before past) in
            (
              t,
              skip_past (suc fuel) (pos (m * second)) (later next (m + k * m)) past
                  ∙ rw (later_step k) e,
              first,
            )
      ]

  advance-IsFirstAfter :
      (fuel : ℕ)
      → pos_part now.sec + neg_part next.sec < pos_part next.sec + neg_part now.sec + m + fuel * m
      → (t : Time) × (advance (suc fuel) now (pos (m * second)) next ≡ some t)
        × IsFirstAfter now next m t
  unfolding advance
  advance-IsFirstAfter fuel enough =
      let first_step : add_time next (pos (m * second)) ≡ later next (m + 0 * m) =
        let once : m + 0 * m ≡ m = omega arith in add_seconds next m valid ∙ rw once refl in
      rw first_step (skip-IsFirstAfter fuel 0 (omega arith) (λ j lt. absurd (omega arith)))

Congruent-later :
    (m p k : ℕ) (a : ℤ) → Congruent m a (pos p) → Congruent m (a +ℤ pos (m + k * m)) (pos p)
Congruent-later m p k a (i, j, e) = (i, j + suc k, omega (arith, +ℤ_parts a (pos (m + k * m))))

-- The slots of a run of scheduleLoop that waits for `next`, with the reading of the clock after each:
-- every slot is on the grid, and the slot after it is the first one on the grid after the reading.
pub data OnGrid (m p : ℕ) : Time → List Time → List Time → Type 0 where
  cancelled : {next : Time} → OnGrid m p next [] []
  executed :
      {next next' now : Time} {readings slots : List Time}
      → Congruent m next.sec (pos p)
      → IsFirstAfter now next m next'
      → OnGrid m p next' readings slots
      → OnGrid m p next (now ∷ readings) (next ∷ slots)

executed_slots-cons :
    (fuel : ℕ) (step : ℤ) (next next' now : Time) (readings slots : List Time)
    → advance fuel now step next ≡ some next'
    → executed_slots fuel step next' readings ≡ some slots
    → executed_slots fuel step next (now ∷ readings) ≡ some (next ∷ slots)
unfolding executed_slots
executed_slots-cons fuel step next next' now readings slots e e' = ground (arith, e, e')

-- The reading is less than `fuel` steps of m seconds past `start`.
abbrev pub Reachable : ℕ → ℕ → Time → Time → Type 0
Reachable fuel m start now =
    pos_part now.sec + neg_part start.sec < pos_part start.sec + neg_part now.sec + fuel * m

module _ (m p fuel : ℕ) (positive : 0 < m) (start : Time) where
  executed_slots-OnGrid :
      (next : Time) (readings : List Time)
      → IsTime next
      → start.sec ≤ℤ next.sec
      → Congruent m next.sec (pos p)
      → All (Reachable fuel m start) readings
      → (slots : List Time) × (executed_slots (suc fuel) (pos (m * second)) next readings
          ≡ some slots)
        × OnGrid m p next readings slots
  unfolding executed_slots
  executed_slots-OnGrid next [] valid le on_grid h = ([], refl, cancelled)
  executed_slots-OnGrid next (now ∷ readings) valid le on_grid h =
      let (next', e, first) =
        advance-IsFirstAfter now next m positive valid fuel (omega (arith, h.0)) in
      let valid' : IsTime next' = rw first.stepped valid in
      let le' : start.sec ≤ℤ next'.sec =
        rw first.stepped (omega (arith, +ℤ_parts next.sec (pos (m + first.steps * m)))) in
      let on_grid' : Congruent m next'.sec (pos p) =
        rw first.stepped (Congruent-later m p first.steps next.sec on_grid) in
      let (slots, e', run) = executed_slots-OnGrid next' readings valid' le' on_grid' h.1 in
      (
        next ∷ slots,
        executed_slots-cons (suc fuel) (pos (m * second)) next next' now readings slots e e',
        executed on_grid first run,
      )

next_slot_after-IsTime :
    (now : Time) (phase m : ℤ) → IsTime now → IsTime (next_slot_after now phase m)
unfolding next_slot_after
next_slot_after-IsTime now phase m h = ground arith

-- For an effective interval of m > 0 seconds that fits a Duration, and a start within 2^62 seconds of
-- the epoch, on fuel that is enough for every reading of the clock, scheduleLoop does not run out:
-- its first slot is the one that nextSlotAfter finds, every slot is on the grid of the check's phase,
-- and after each execution it goes on with the first slot that is later than the clock, so that no
-- slot is run twice and missed slots are not made up for.
pub schedule_loop-OnGrid :
    (c : Check) (m fuel : ℕ) (run_immediately : Bool) (now : Time) (readings : List Time)
    → effective_interval_seconds c ≡ pos m
    → 0 < m
    → m * second < 2 ^ 63
    → IsTime now
    → (pos_part now.sec < 2 ^ 62) × (neg_part now.sec < 2 ^ 62)
    → All (Reachable fuel m now) readings
    → (p : ℕ) × (slots : List Time) × (check_phase_seconds c (pos m) ≡ pos p)
      × (schedule_loop (suc fuel) c run_immediately now readings ≡ (run_immediately, some slots))
      × OnGrid m p (next_slot_after now (pos p) (pos m)) readings slots
unfolding schedule_loop
schedule_loop-OnGrid c m fuel run_immediately now readings interval positive small valid near h =
    let (p, phase, below) = check_phase_seconds-lt c m positive (omega arith) in
    let first = next_slot_after now (pos p) (pos m) in
    let is_next : IsNextSlot now.sec p m first.sec =
      next_slot_after-IsNextSlot now p m positive (omega arith) below near in
    let (slots, e, run) =
      executed_slots-OnGrid m p fuel positive now first readings
        (next_slot_after-IsTime now (pos p) (pos m) valid) is_next.reached is_next.on_grid h in
    (p, slots, phase, rw (interval, phase, loop_step_exact m positive small, e) refl, run)
