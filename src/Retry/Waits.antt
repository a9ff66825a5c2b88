-- ===== src/Retry/Waits.antt =====
-- How the loop with a growing wait ends, and how long it waits.
use tenpm_uptime_monitor.Prelude.{
  ℕ, zero, suc, ◌+◌, ◌≤◌, ◌<◌, ◌≡◌, refl, ap, ◌≢◌, ◌⊎◌, inl, inr, Bool, true, false, List, [], ◌∷◌,
  length, arith, Bool-cases, ℕ_discrete, ◌-◌,
}
use tenpm_uptime_monitor.Retry.{
  max_backoff, next_backoff, Attempt, succeeded, gave_up, try_again, Ended, ended_well, ended_badly,
  cancelled, after_attempt, retry,
}

-- The waits from one on: each is twice the one before, but at most the bound.
abbrev pub IsBackoff : ℕ → List ℕ → Type 0
IsBackoff b [] = Unit {0}
IsBackoff b (w ∷ ws) = (w ≡ b) × (w ≤ max_backoff) × IsBackoff (next_backoff b) ws

next_backoff-le : (b : ℕ) → next_backoff b ≤ max_backoff
unfolding next_backoff
next_backoff-le b = ground arith

Attempt-cases {ℓ} :
    {A E : Type ℓ} (a : Attempt A E)
    → ((x : A) × (a ≡ succeeded x)) ⊎ ((e : E) × (a ≡ gave_up e)) ⊎ (a ≡ try_again)
Attempt-cases (succeeded x) = inl (x, refl)
Attempt-cases (gave_up e) = inr (inl (e, refl))
Attempt-cases try_again = inr (inr refl)

-- The runs of the loop from the n-th attempt on, by what the attempts do, with the number of waits: one
-- after each attempt that asks for another.
pub data Runs {A E S : Type 0} (attempt : ℕ → S → Attempt A E × S) (stopped : ℕ → Bool)
    : ℕ → S → Ended A E → S → ℕ → Type 0 where
  success :
      {n : ℕ} {s s' : S} {x : A}
      → attempt n s ≡ (succeeded x, s')
      → Runs attempt stopped n s (ended_well x) s' 0
  failure :
      {n : ℕ} {s s' : S} {e : E}
      → attempt n s ≡ (gave_up e, s')
      → Runs attempt stopped n s (ended_badly e) s' 0
  stop :
      {n : ℕ} {s s' : S}
      → attempt n s ≡ (try_again, s')
      → stopped n ≡ true
      → Runs attempt stopped n s cancelled s' 1
  again :
      {n waits : ℕ} {s s' s'' : S} {ended : Ended A E}
      → attempt n s ≡ (try_again, s')
      → stopped n ≡ false
      → Runs attempt stopped (suc n) s' ended s'' waits
      → Runs attempt stopped n s ended s'' (suc waits)

module _ {A E S : Type 0} (attempt : ℕ → S → Attempt A E × S) (stopped : ℕ → Bool) where
  -- Some attempt below `last` does not ask for another, or the context ends in the wait after it.
  abbrev pub Stops : ℕ → Type 0
  Stops n = (stopped n ≡ true) ⊎ ((s : S) → (attempt n s).0 ≢ try_again)

  retry_attempt :
      (fuel n backoff : ℕ) (s s' : S) (a : Attempt A E)
      → attempt n s ≡ (a, s')
      → retry attempt stopped (suc fuel) n backoff s
        ≡ after_attempt a s'
            (stopped n)
            backoff
            (retry attempt stopped fuel (suc n) (next_backoff backoff) s')
  unfolding retry
  retry_attempt fuel n backoff s s' a e =
      ap
        (λ p.
          after_attempt p.0 p.1 (stopped n) backoff
            (retry attempt stopped fuel (suc n) (next_backoff backoff) p.1))
        e

  pub retry-Runs :
      (fuel k n backoff : ℕ) (s : S)
      → backoff ≤ max_backoff
      → Stops (n + k)
      → k < fuel
      → let r = retry attempt stopped fuel n backoff s in
        Runs attempt stopped n s r.ended r.state (length r.waits) × IsBackoff backoff r.waits
  unfolding after_attempt
  retry-Runs zero k n backoff s small stops lt = absurd (omega arith)
  retry-Runs (suc fuel) k n backoff s small stops lt =
      let s' : S = (attempt n s).1 in
      elim (Attempt-cases (attempt n s).0) [
        | inl (x, e) ↦
            rw (retry_attempt fuel n backoff s s' (succeeded x) (ground (arith, e)))
              (success (ground (arith, e)), tt)
        | inr (inl (x, e)) ↦
            rw (retry_attempt fuel n backoff s s' (gave_up x) (ground (arith, e)))
              (failure (ground (arith, e)), tt)
        | inr (inr e) ↦ elim (Bool-cases (stopped n)) [
          | inl stop_now ↦
              rw (retry_attempt fuel n backoff s s' try_again (ground (arith, e)), stop_now)
                (stop (ground (arith, e)) stop_now, (refl, small, tt))
          | inr go_on ↦ elim (ℕ_discrete k 0) [
            | yes z ↦ elim stops [
              | inl stop_now ↦
                  let here : n + k ≡ n = omega arith in absurd (ground (arith, rw here at stop_now))
              | inr never ↦ let here : n + k ≡ n = omega arith in absurd ((rw here at never) s e)
            ]
            | no more ↦
                let next : suc n + (k - 1) ≡ n + k = omega arith in
                let (runs, waits) =
                  retry-Runs fuel (k - 1) (suc n) (next_backoff backoff) s'
                    (next_backoff-le backoff) (rw next stops) (omega arith) in
                rw (retry_attempt fuel n backoff s s' try_again (ground (arith, e)), go_on)
                  (again (ground (arith, e)) go_on runs, (refl, small, waits))
          ]
        ]
      ]
