-- ===== src/Retry.antt =====
-- The loop that monitor/agent.go (enrollWithRetry) and monitor/sync.go (WaitForInitialSync) share: an
-- attempt, and on a failure that is worth it a wait that doubles up to a bound. The loop takes fuel.
pub mod Waits
use tenpm_uptime_monitor.Prelude.{
  ℕ, zero, suc, ◌*◌, Bool, true, false, List, [], ◌∷◌, ltb, if◌then◌else◌,
}

-- maxBackoff and the first backoff, in seconds.
abbrev pub max_backoff : ℕ
max_backoff = 30

abbrev pub first_backoff : ℕ
first_backoff = 1

-- backoff *= 2, up to maxBackoff.
unfoldable pub next_backoff : ℕ → ℕ
next_backoff backoff =
    let doubled = backoff * 2 in if ltb max_backoff doubled then max_backoff else doubled

-- How an attempt ends.
pub data Attempt {ℓ} (A E : Type ℓ) : Type ℓ where
  succeeded : A → Attempt A E
  gave_up : E → Attempt A E
  try_again : Attempt A E

-- How the loop ends.
pub data Ended {ℓ} (A E : Type ℓ) : Type ℓ where
  ended_well : A → Ended A E
  ended_badly : E → Ended A E
  cancelled : Ended A E
  out_of_fuel : Ended A E

-- The end, the state, and the waits, in seconds.
pub record Retried {ℓ} (A E S : Type ℓ) : Type ℓ where
  pub ended : Ended A E
  pub state : S
  pub waits : List ℕ

-- What one round of the loop makes of its attempt, from the state after it, whether the context ends
-- in the wait, the wait, and the rounds after it.
unfoldable pub after_attempt {ℓ} :
    {A E S : Type ℓ} → Attempt A E → S → Bool → ℕ → Retried A E S → Retried A E S
after_attempt (succeeded x) s stop backoff rest = record {
  ended = ended_well x;
  state = s;
  waits = [];
}
after_attempt (gave_up e) s stop backoff rest = record {
  ended = ended_badly e;
  state = s;
  waits = [];
}
after_attempt try_again s stop backoff rest =
    if stop
    then record { ended = cancelled; state = s; waits = backoff ∷ [] }
    else record rest { waits = backoff ∷ rest.waits }

-- The loop from its n-th attempt on; `stopped n` says whether the context ends in the wait after it.
unfoldable pub retry {ℓ} :
    {A E S : Type ℓ} → (ℕ → S → Attempt A E × S) → (ℕ → Bool) → ℕ → ℕ → ℕ → S → Retried A E S
unfolding after_attempt
retry attempt stopped zero n backoff s = record { ended = out_of_fuel; state = s; waits = [] }
retry attempt stopped (suc fuel) n backoff s =
    let (a, s') = attempt n s in
    let rest = retry attempt stopped fuel (suc n) (next_backoff backoff) s' in
    after_attempt a s' (stopped n) backoff rest
