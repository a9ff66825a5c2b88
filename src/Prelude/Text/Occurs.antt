-- ===== src/Prelude/Text/Occurs.antt =====
-- What strings.Contains decides, stated without its search.
use tenpm_uptime_monitor.Prelude.{
  ◌≡◌, refl, ap, ◌↔◌, true, inl, inr, [], ◌∷◌, ◌++◌, arith, Bool-cases, ◌==◌,
}
use tenpm_uptime_monitor.Prelude.Text.{Text, has_prefix, contains}

-- The needle stands in the text, between a part before it and a part after it.
abbrev pub Occurs : Text → Text → Type 0
Occurs needle s = (before : Text) × (after : Text) × (s ≡ before ++ (needle ++ after))

has_prefix_sound : (s p : Text) → has_prefix s p ≡ true → (after : Text) × (s ≡ p ++ after)
unfolding has_prefix
has_prefix_sound s [] h = (s, refl)
has_prefix_sound [] (x ∷ p) h = cc
has_prefix_sound (c ∷ s) (x ∷ p) h = elim (Bool-cases (c == x)) [
  | inl same ↦ let (after, e) = has_prefix_sound s p (ground arith) in (after, ground (arith, e))
  | inr other ↦ absurd (ground arith)
]

pub has_prefix-append : (p after : Text) → has_prefix (p ++ after) p ≡ true
unfolding has_prefix
has_prefix-append [] after = refl
has_prefix-append (x ∷ p) after = ground (arith, has_prefix-append p after)

contains_sound : (s needle : Text) → contains s needle ≡ true → Occurs needle s
unfolding contains
contains_sound [] needle h = let (after, e) = has_prefix_sound [] needle h in ([], after, e)
contains_sound (c ∷ s) needle h = elim (Bool-cases (has_prefix (c ∷ s) needle)) [
  | inl here ↦ let (after, e) = has_prefix_sound (c ∷ s) needle here in ([], after, e)
  | inr later ↦
      let (before, after, e) = contains_sound s needle (rw later at h) in
      (c ∷ before, after, ap (◌∷◌ c) e)
]

contains_of_prefix : (s needle : Text) → has_prefix s needle ≡ true → contains s needle ≡ true
unfolding contains
contains_of_prefix [] needle h = h
contains_of_prefix (c ∷ s) needle h = rw h

contains-append :
    (before needle after : Text) → contains (before ++ (needle ++ after)) needle ≡ true
unfolding contains
contains-append [] needle after =
    contains_of_prefix (needle ++ after) needle (has_prefix-append needle after)
contains-append (c ∷ before) needle after = ground (arith, contains-append before needle after)

-- The search succeeds exactly on the texts in which the needle occurs.
pub contains-Occurs : (s needle : Text) → (contains s needle ≡ true) ↔ Occurs needle s
contains-Occurs s needle = (contains_sound s needle, λ o. rw o.2 (contains-append o.0 needle o.1))
