-- ===== src/Agent/Jitter.antt =====
-- monitor/agent.go: jitter. What float64(d) * 0.1 comes to as a Duration, and what rand.Int63n draws,
-- are parameters.
use tenpm_uptime_monitor.Prelude.{
  ℕ, zero, suc, ◌+◌, ◌-◌, ◌*◌, ◌^◌, ◌≤◌, ◌<◌, ◌≡◌, refl, ap, ◌∙◌, false, arith, if◌then◌else◌,
}
use tenpm_uptime_monitor.Prelude.Int.{ℤ, pos, leb_ℤ, ◌+ℤ◌, ◌-ℤ◌, ◌*ℤ◌}
use tenpm_uptime_monitor.Schedule.Words.{wrap64, wrap64_of_IsInt64}

-- jitter
unfoldable pub jitter : (ℤ → ℤ) → (ℤ → ℤ) → ℤ → ℤ
jitter tenth draw d =
    let delta = tenth d in
    if leb_ℤ delta (pos 0)
    then d
    else wrap64 (wrap64 (d +ℤ draw (wrap64 (pos 2 *ℤ delta))) -ℤ delta)

drawn :
    (n t k : ℕ)
    → t ≤ n
    → k < 2 * t
    → n + 2 * t < 2 ^ 63
    → wrap64 (wrap64 (pos n +ℤ pos k) -ℤ pos t) ≡ pos (n + k - t)
unfolding ◌+ℤ◌ ◌-ℤ◌
drawn n t k h lt fits =
    let sum : pos n +ℤ pos k ≡ pos (n + k) = ground arith in
    let rest : pos (n + k) -ℤ pos t ≡ pos (n + k - t) = ground (arith, h) in
    ap (λ z. wrap64 (z -ℤ pos t))
      (ap wrap64 sum ∙ wrap64_of_IsInt64 (pos (n + k)) (omega (arith, lt, fits), omega arith))
    ∙ ap wrap64 rest
    ∙ wrap64_of_IsInt64 (pos (n + k - t)) (omega (arith, lt, fits, h), omega arith)

doubled : (t : ℕ) → 2 * t < 2 ^ 63 → wrap64 (pos 2 *ℤ pos t) ≡ pos (2 * t)
unfolding ◌*ℤ◌
doubled t h =
    let twice : pos 2 *ℤ pos t ≡ pos (2 * t) = ground arith in
    ap wrap64 twice ∙ wrap64_of_IsInt64 (pos (2 * t)) (h, omega arith)

-- A Duration that is not too near the largest is moved by at most its tenth, whatever is drawn, and
-- stays one that is not negative.
pub jitter-Near :
    (tenth draw : ℤ → ℤ) (n t : ℕ)
    → tenth (pos n) ≡ pos t
    → t ≤ n
    → n + 2 * t < 2 ^ 63
    → (0 < t → (k : ℕ) × (draw (pos (2 * t)) ≡ pos k) × (k < 2 * t))
    → (j : ℕ) × (jitter tenth draw (pos n) ≡ pos j) × (n ≤ j + t) × (j ≤ n + t)
unfolding jitter
jitter-Near tenth draw n zero e h fits law = (n, rw e refl, omega arith, omega arith)
jitter-Near tenth draw n (suc t) e h fits law =
    let (k, drew, lt) = law (omega arith) in
    let positive : leb_ℤ (pos (suc t)) (pos 0) ≡ false = ground arith in
    let same : jitter tenth draw (pos n)
        ≡ wrap64 (wrap64 (pos n +ℤ draw (wrap64 (pos 2 *ℤ pos (suc t)))) -ℤ pos (suc t)) =
      rw (e, positive) refl in
    (
      n + k - suc t,
      same
          ∙ ap (λ z. wrap64 (wrap64 (pos n +ℤ draw z) -ℤ pos (suc t)))
              (doubled (suc t) (omega (arith, fits)))
          ∙ ap (λ z. wrap64 (wrap64 (pos n +ℤ z) -ℤ pos (suc t))) drew
          ∙ drawn n (suc t) k h lt fits,
      omega (arith, lt, h),
      omega (arith, lt, h),
    )
