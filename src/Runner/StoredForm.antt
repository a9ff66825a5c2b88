-- ===== src/Runner/StoredForm.antt =====
-- The form in which an execution of monitor/runner.go buffers the result of its check.
use tenpm_uptime_monitor.Prelude.{ℕ, ◌≡◌, refl, inl, inr, Bool, true, false, arith, Bool-cases}
use mathlib.Core.Path.{subst, sym}
use tenpm_uptime_monitor.Prelude.Int.{pos}
use tenpm_uptime_monitor.Prelude.Text.{Text, bytes}
use tenpm_uptime_monitor.Model.Check.{Check, Result}
use tenpm_uptime_monitor.Model.Content.{truncate_content}
use tenpm_uptime_monitor.Model.Content.Cut.{IsCut, truncate_content-IsCut}
use tenpm_uptime_monitor.Model.Verdict.{invert_passed}
use tenpm_uptime_monitor.Runner.{World, buffered_form}

abbrev pub unexpected_response : Text
unexpected_response =
    bytes "target responded normally; this check is inverted and expects it to fail"

-- The verdict and the reason: those of the raw result, or for an inverted check the other verdict,
-- with a reason for a failure.
pub data Judged (c : Check) (raw : Result) : Bool → Text → Type 0 where
  upright : c.invert_result ≡ false → Judged c raw raw.success raw.error
  inverted_pass :
      c.invert_result ≡ true → raw.success ≡ true → Judged c raw false unexpected_response
  inverted_failure : c.invert_result ≡ true → raw.success ≡ false → Judged c raw true raw.error

-- The valid part of the text, cut after as many characters as the check keeps.
abbrev pub Kept : World → Check → Text → Text → Type 0
Kept w c text kept =
    (n : ℕ) → c.result_detail_max_chars ≡ pos n → IsCut n (w.to_valid_utf8 text) kept

-- What is stored of a raw result.
pub record StoredForm (w : World) (c : Check) (raw x : Result) : Type 0 where
  pub reason : Text
  pub judged : Judged c raw x.success reason
  pub error : Kept w c reason x.error
  pub sample : Kept w c raw.response_sample x.response_sample
  pub others :
      x ≡ record raw { success = x.success; error = x.error; response_sample = x.response_sample }

invert_passed-Judged :
    (c : Check) (raw : Result)
    → Judged c raw
        (invert_passed c raw.success raw.error).0
        (invert_passed c raw.success raw.error).1
unfolding invert_passed
invert_passed-Judged c raw = elim (Bool-cases c.invert_result) [
  | inr same ↦
      let e : invert_passed c raw.success raw.error ≡ (raw.success, raw.error) =
        ground (arith, same) in
      subst (λ p. Judged c raw p.0 p.1) (sym e) (upright same)
  | inl inverted ↦ elim (Bool-cases raw.success) [
    | inl pass ↦
        let e : invert_passed c raw.success raw.error ≡ (false, unexpected_response) =
          ground (arith, inverted, pass) in
        subst (λ p. Judged c raw p.0 p.1) (sym e) (inverted_pass inverted pass)
    | inr fail ↦
        let e : invert_passed c raw.success raw.error ≡ (true, raw.error) =
          ground (arith, inverted, fail) in
        subst (λ p. Judged c raw p.0 p.1) (sym e) (inverted_failure inverted fail)
  ]
]

truncate_content-Kept :
    (w : World) (c : Check) (text : Text)
    → Kept w c text (truncate_content w.to_valid_utf8 text c.result_detail_max_chars)
truncate_content-Kept w c text n e = rw e (truncate_content-IsCut w.to_valid_utf8 text n)

pub buffered_form-StoredForm :
    (w : World) (c : Check) (raw : Result) → StoredForm w c raw (buffered_form w c raw)
unfolding buffered_form
buffered_form-StoredForm w c raw = record {
  reason = (invert_passed c raw.success raw.error).1;
  judged = invert_passed-Judged c raw;
  error = truncate_content-Kept w c (invert_passed c raw.success raw.error).1;
  sample = truncate_content-Kept w c raw.response_sample;
  others = refl;
}
