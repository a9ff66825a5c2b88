-- ===== src/CheckFile/Verdict.antt =====
-- A test of check definitions and the daemon's verdict on them.
use tenpm_uptime_monitor.Prelude.{
  ◌≡◌, refl, ap, Bool, true, false, not, List, [], ◌∷◌, length, keep_if, arith,
}
use tenpm_uptime_monitor.Prelude.Text.{Text}
use tenpm_uptime_monitor.Model.Check.{Check}
use tenpm_uptime_monitor.Runner.{World, buffered_form}
use tenpm_uptime_monitor.CheckFile.{parsed, Json, File, read_definitions}
use tenpm_uptime_monitor.CheckFile.Report.{
  normalize_test_check, tested, test_check, test_checks, failures, test_checks_from_json,
}

-- The daemon's verdict on a check: what it buffers as the success of an execution.
abbrev pub daemon_passes : World → Check → Bool
daemon_passes w c = (buffered_form w c (w.checker c)).success

test_check-daemon :
    (redacted : Check → Text) (w : World) (c : Check)
    → (test_check redacted w.checker c).0 ≡ daemon_passes w (normalize_test_check c)
unfolding test_check tested buffered_form
test_check-daemon redacted w c = refl

-- The checks that the daemon would record as down.
abbrev pub down : World → List Check → List Check
down w = keep_if (λ c. not (daemon_passes w (normalize_test_check c)))

test_checks-down :
    (redacted : Check → Text) (w : World) (first : Bool) (cs : List Check)
    → (test_checks redacted w.checker first cs).0 ≡ length (down w cs)
unfolding test_checks
test_checks-down redacted w first [] = refl
test_checks-down redacted w first (c ∷ cs) =
    ground (arith, test_checks-down redacted w false cs, test_check-daemon redacted w c)

pub test_checks_from_json-down :
    (json : Json) (redacted : Check → Text) (w : World) (file : File) (c : Check) (cs : List Check)
    → read_definitions json file ≡ parsed (c ∷ cs)
    → (test_checks_from_json json redacted w.checker file).0 ≡ failures (length (down w (c ∷ cs)))
unfolding test_checks_from_json
test_checks_from_json-down json redacted w file c cs h =
    rw (test_checks_from_json, h) (ap failures (test_checks-down redacted w true (c ∷ cs)))
