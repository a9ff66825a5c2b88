-- ===== src/Model/Content.antt =====
-- model/model.go: TruncateContent and SampleContent. strings.ToValidUTF8 is a parameter.
pub mod Cut
use tenpm_uptime_monitor.Prelude.{ℕ, suc, Bool, ◌&&◌, List, [], ◌∷◌, if◌then◌else◌, ltb, leb}
use tenpm_uptime_monitor.Prelude.Int.{ℤ, pos, eq_ℤ}
use tenpm_uptime_monitor.Prelude.Text.{Text}
use tenpm_uptime_monitor.Model.Check.{max_response_sample_len}

-- A byte inside a character of valid UTF-8 and not at its start, where `range` does not stop.
abbrev pub is_continuation : ℕ → Bool
is_continuation b = leb 128 b && ltb b 192

-- The loop of TruncateContent, with n characters behind it.
unfoldable pub cut_at : ℤ → ℕ → Text → Text
cut_at max_chars n [] = []
cut_at max_chars n (b ∷ s) =
    let inside = cut_at max_chars n s in
    let next = cut_at max_chars (suc n) s in
    if is_continuation b then b ∷ inside else if eq_ℤ (pos n) max_chars then [] else b ∷ next

-- TruncateContent
unfoldable pub truncate_content : (Text → Text) → Text → ℤ → Text
unfolding cut_at
truncate_content to_valid_utf8 content max_chars = cut_at max_chars 0 (to_valid_utf8 content)

-- SampleContent
unfoldable pub sample_content : (Text → Text) → Text → Text
unfolding truncate_content
sample_content to_valid_utf8 content =
    truncate_content to_valid_utf8 content max_response_sample_len
