-- ===== src/Model/Content/Cut.antt =====
-- Where TruncateContent cuts.
use tenpm_uptime_monitor.Prelude.{
  ℕ, suc, ◌+◌, ◌-◌, ◌≤◌, ◌≡◌, refl, ap, sym, ◌⊎◌, inl, inr, false, [], ◌∷◌, ◌++◌, arith,
  if◌then◌else◌, Bool-cases, ℕ_discrete,
}
use tenpm_uptime_monitor.Prelude.Int.{pos}
use tenpm_uptime_monitor.Prelude.Text.{Text}
use tenpm_uptime_monitor.Model.Content.{is_continuation, cut_at, truncate_content}

-- The number of characters of a text: of its bytes that start one.
abbrev pub characters : Text → ℕ
characters [] = 0
characters (b ∷ s) = if is_continuation b then characters s else suc (characters s)

-- The text is empty or starts with the start of a character.
abbrev pub StartsCharacter : Text → Type 0
StartsCharacter [] = Unit {0}
StartsCharacter (b ∷ s) = is_continuation b ≡ false

-- The kept text and the rest are the text, cut between two characters: at most m of them are kept,
-- and only a text that has m loses any.
pub record IsCut (m : ℕ) (s kept : Text) : Type 0 where
  pub rest : Text
  pub whole : s ≡ kept ++ rest
  pub boundary : StartsCharacter rest
  pub capped : characters kept ≤ m
  pub longest : (rest ≡ []) ⊎ (characters kept ≡ m)

prepend-IsCut :
    (m m' b : ℕ) (s kept : Text)
    → m' ≡ (if is_continuation b then m else suc m)
    → IsCut m s kept
    → IsCut m' (b ∷ s) (b ∷ kept)
prepend-IsCut m m' b s kept e c = record {
  rest = c.rest;
  whole = ap (◌∷◌ b) c.whole;
  boundary = c.boundary;
  capped = ground (arith, c.capped);
  longest = ground (arith, c.longest);
}

cut_at-IsCut :
    (m n max_chars : ℕ) (s : Text) → max_chars ≡ m + n → IsCut m s (cut_at (pos max_chars) n s)
unfolding cut_at
cut_at-IsCut m n k [] e = record {
  rest = [];
  whole = refl;
  boundary = tt;
  capped = omega arith;
  longest = inl refl;
}
cut_at-IsCut m n k (b ∷ s) e = elim (Bool-cases (is_continuation b)) [
  | inl inside ↦ rw (inside, cut_at) (prepend-IsCut m m b s _ (rw inside) (cut_at-IsCut m n k s e))
  | inr start ↦ elim (ℕ_discrete m 0) [
    | yes full ↦
        let cut : cut_at (pos k) n (b ∷ s) ≡ [] = ground arith in
        rw cut (record {
          rest = b ∷ s;
          whole = refl;
          boundary = start;
          capped = omega arith;
          longest = inr (sym full);
        })
    | no more ↦
        let kept : cut_at (pos k) n (b ∷ s) ≡ b ∷ cut_at (pos k) (suc n) s = ground arith in
        rw kept (
          prepend-IsCut (m - 1) m b s _ (rw start (omega arith))
            (cut_at-IsCut (m - 1) (suc n) k s (omega arith)))
  ]
]

-- TruncateContent keeps the first characters of the text that ToValidUTF8 makes valid, whole ones
-- and at most as many as it is asked for, and it cuts only a text that has more.
pub truncate_content-IsCut :
    (to_valid_utf8 : Text → Text) (content : Text) (max_chars : ℕ)
    → IsCut max_chars
        (to_valid_utf8 content)
        (truncate_content to_valid_utf8 content (pos max_chars))
unfolding truncate_content
truncate_content-IsCut to_valid_utf8 content max_chars =
    cut_at-IsCut max_chars 0 max_chars (to_valid_utf8 content) (omega arith)
