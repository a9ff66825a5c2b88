-- ===== src/Model/Display.antt =====
-- model/model.go: RedactedURL and HeaderLines, and redactProxyURL of cmd/monitor/main.go. What
-- url.Parse, URL.Redacted and URL.String make of a text is a parameter.
use mathlib.Core.List.{Memᴰ, Permᴰ}
use mathlib.Core.List.Memᴰ.{head, tail}
use tenpm_uptime_monitor.Prelude.{
  ◌≡◌, refl, sym, ap, ◌∙◌, true, false, Option, none, some, List, [], ◌∷◌, ◌++◌, map, Bool-cases,
  inl, inr, if◌then◌else◌,
}
use tenpm_uptime_monitor.Prelude.Text.{Text, bytes, same, same-true}
use tenpm_uptime_monitor.Prelude.Text.Sort.{
  sort_texts, Sorted, sort_texts-Perm, sort_texts-Sorted, Perm-sort_texts,
}
use tenpm_uptime_monitor.Model.Check.{Check, Headers}

-- What url.Parse makes of a URL, by its two ways back to a text: with the password masked, and with
-- no userinfo at all.
pub record DisplayUrl : Type 0 where
  pub redacted : Text
  pub without_user : Text

-- RedactedURL
unfoldable pub redacted_url : (Text → Option DisplayUrl) → Check → Text
redacted_url parse c = elim (parse c.url) [ none ↦ c.url | some u ↦ u.redacted ]

-- redactProxyURL
unfoldable pub redact_proxy_url : Option DisplayUrl → Text
redact_proxy_url none = bytes "none"
redact_proxy_url (some u) = u.without_user

-- c.Headers[name]
unfoldable pub header_value : Text → Headers → Text
header_value name [] = []
header_value name ((key, value) ∷ rest) = if same key name then value else header_value name rest

-- The loop of HeaderLines.
unfoldable pub lines_of : Headers → List Text → Text
lines_of headers [] = []
lines_of headers (name ∷ names) =
    name ++ bytes ": " ++ header_value name headers ++ bytes "\n" ++ lines_of headers names

-- HeaderLines; the entries of the map are in any order.
unfoldable pub header_lines : Headers → Text
unfolding lines_of
header_lines headers = lines_of headers (sort_texts (map (λ h. h.0) headers))

-- A map has one value for a name.
abbrev pub IsMap : Headers → Type 0
IsMap headers =
    (name value value' : Text)
    → Memᴰ (name, value) headers
    → Memᴰ (name, value') headers
    → value ≡ value'

Memᴰ-Permᴰ : {x : Text × Text} {xs ys : Headers} → Permᴰ xs ys → Memᴰ x ys → Memᴰ x xs
Memᴰ-Permᴰ Permᴰ.nil m = m
Memᴰ-Permᴰ (Permᴰ.cons e p) (head e') = head (e' ∙ sym e)
Memᴰ-Permᴰ (Permᴰ.cons e p) (tail m) = tail (Memᴰ-Permᴰ p m)
Memᴰ-Permᴰ (Permᴰ.swap e e') (head h) = tail (head (h ∙ sym e'))
Memᴰ-Permᴰ (Permᴰ.swap e e') (tail (head h)) = head (h ∙ sym e)
Memᴰ-Permᴰ (Permᴰ.swap e e') (tail (tail m)) = tail (tail m)
Memᴰ-Permᴰ (Permᴰ.trans p q) m = Memᴰ-Permᴰ p (Memᴰ-Permᴰ q m)

header_value-here :
    (name key value : Text) (rest : Headers)
    → same key name ≡ true
    → header_value name ((key, value) ∷ rest) ≡ value
unfolding header_value
header_value-here name key value rest h = rw h refl

header_value-later :
    (name key value : Text) (rest : Headers)
    → same key name ≡ false
    → header_value name ((key, value) ∷ rest) ≡ header_value name rest
unfolding header_value
header_value-later name key value rest h = rw h refl

-- Two entries in front change places.
header_value-swap :
    (name : Text) (a b : Text × Text) (rest : Headers)
    → (a.0 ≡ name → b.0 ≡ name → a.1 ≡ b.1)
    → header_value name (a ∷ b ∷ rest) ≡ header_value name (b ∷ a ∷ rest)
header_value-swap name (k, v) (k', v') rest one = elim (Bool-cases (same k name)) [
  | inl here ↦ elim (Bool-cases (same k' name)) [
    | inl here' ↦
        header_value-here name k v _ here
        ∙ one (same-true _ _ here) (same-true _ _ here')
        ∙ sym (header_value-here name k' v' _ here')
    | inr other' ↦
        header_value-here name k v _ here
        ∙ sym (header_value-here name k v rest here)
        ∙ sym (header_value-later name k' v' _ other')
  ]
  | inr other ↦ elim (Bool-cases (same k' name)) [
    | inl here' ↦
        header_value-later name k v _ other
        ∙ header_value-here name k' v' _ here'
        ∙ sym (header_value-here name k' v' _ here')
    | inr other' ↦
        header_value-later name k v _ other
        ∙ header_value-later name k' v' _ other'
        ∙ sym (header_value-later name k v _ other)
        ∙ sym (header_value-later name k' v' _ other')
  ]
]

header_value-cons :
    (name : Text) (a : Text × Text) (xs ys : Headers)
    → header_value name xs ≡ header_value name ys
    → header_value name (a ∷ xs) ≡ header_value name (a ∷ ys)
unfolding header_value
header_value-cons name (k, v) xs ys e = ap (λ rest. if same k name then v else rest) e

header_value-Perm :
    (name : Text) {xs ys : Headers}
    → Permᴰ xs ys
    → IsMap xs
    → header_value name xs ≡ header_value name ys
header_value-Perm name Permᴰ.nil one = refl
header_value-Perm name (Permᴰ.cons {a = a} {l₁ = xs} {l₂ = ys} e p) one =
    header_value-cons name a xs ys
      (header_value-Perm name p (λ n v v' m m'. one n v v' (tail m) (tail m')))
    ∙ ap (λ x. header_value name (x ∷ ys)) e
header_value-Perm name (Permᴰ.swap {a = a} {b = b} {a' = a'} {l = rest} e e') one =
    header_value-swap name a b rest (λ k k'.
      one name a.1 b.1 (head (ap (λ n. (n, a.1)) (sym k)))
        (tail (head (ap (λ n. (n, b.1)) (sym k')))))
    ∙ ap (λ x. header_value name (x ∷ a ∷ rest)) e'
    ∙ ap (λ x. header_value name (a' ∷ x ∷ rest)) e
header_value-Perm name (Permᴰ.trans p q) one =
    header_value-Perm name p one
    ∙ header_value-Perm name q (λ n v v' m m'. one n v v' (Memᴰ-Permᴰ p m) (Memᴰ-Permᴰ p m'))

lines_of-same :
    (xs ys : Headers) (names : List Text)
    → ((name : Text) → header_value name xs ≡ header_value name ys)
    → lines_of xs names ≡ lines_of ys names
unfolding lines_of
lines_of-same xs ys [] h = refl
lines_of-same xs ys (name ∷ names) h =
    ap (λ v. name ++ bytes ": " ++ v ++ bytes "\n" ++ lines_of xs names) (h name)
    ∙ ap (λ rest. name ++ bytes ": " ++ header_value name ys ++ bytes "\n" ++ rest)
        (lines_of-same xs ys names h)

names-Perm : {xs ys : Headers} → Permᴰ xs ys → Permᴰ (map (λ h. h.0) xs) (map (λ h. h.0) ys)
names-Perm Permᴰ.nil = Permᴰ.nil
names-Perm (Permᴰ.cons e p) = Permᴰ.cons (ap (λ h. h.0) e) (names-Perm p)
names-Perm (Permᴰ.swap e e') = Permᴰ.swap (ap (λ h. h.0) e) (ap (λ h. h.0) e')
names-Perm (Permᴰ.trans p q) = Permᴰ.trans (names-Perm p) (names-Perm q)

-- HeaderLines renders a map alike in whatever order its entries come: a line for each entry, which has
-- the name and its value in the map, in the order of the names.
pub header_lines-Perm :
    (xs ys : Headers)
    → Permᴰ xs ys
    → IsMap xs
    → (header_lines xs ≡ header_lines ys)
      × (names : List Text) × (header_lines ys ≡ lines_of xs names)
      × Permᴰ names (map (λ h. h.0) xs)
      × Sorted names
unfolding header_lines
header_lines-Perm xs ys p one =
    let names = map (λ h. h.0) xs in
    let same : lines_of xs (sort_texts names) ≡ header_lines ys =
      ap (lines_of xs) (sort_texts-Perm (names-Perm p))
      ∙ lines_of-same xs ys _ (λ name. header_value-Perm name p one) in
    (same, sort_texts names, sym same, Perm-sort_texts names, sort_texts-Sorted names)
