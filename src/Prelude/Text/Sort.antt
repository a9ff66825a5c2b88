-- ===== src/Prelude/Text/Sort.antt =====
-- sort.Strings and strings.Join. A sorted list does not depend on the order of what it was made of.
use mathlib.Core.List.{Permᴰ}
use mathlib.Core.List.Permᴰ
use mathlib.Core.List.Permᴰ.{nil, cons, swap, trans}
use tenpm_uptime_monitor.Prelude.{
  ◌≡◌, refl, sym, ap, ◌∙◌, true, false, List, [], ◌∷◌, ◌++◌, arith, All, All-map, Bool-cases, inl,
  inr, if◌then◌else◌,
}
use tenpm_uptime_monitor.Prelude.Text.{Text, text_before}

unfoldable pub insert_text : Text → List Text → List Text
insert_text s [] = s ∷ []
insert_text s (t ∷ ts) = if text_before s t then s ∷ t ∷ ts else t ∷ insert_text s ts

-- sort.Strings, and slices.Sorted on strings.
unfoldable pub sort_texts : List Text → List Text
unfolding insert_text
sort_texts [] = []
sort_texts (s ∷ ss) = insert_text s (sort_texts ss)

-- strings.Join
unfoldable pub join : Text → List Text → Text
join sep [] = []
join sep (s ∷ []) = s
join sep (s ∷ t ∷ ts) = s ++ (sep ++ join sep (t ∷ ts))

-- text_before is a total order.
before-antisym : (s t : Text) → text_before s t ≡ true → text_before t s ≡ true → s ≡ t
unfolding text_before
before-antisym [] [] h k = refl
before-antisym [] (d ∷ t) h k = absurd (ground (arith, k))
before-antisym (c ∷ s) [] h k = absurd (ground (arith, h))
before-antisym (c ∷ s) (d ∷ t) h k =
    let same : c ≡ d = ground (arith, h, k) in
    let rest = before-antisym s t (ground (arith, h, same)) (ground (arith, k, same)) in
    ap (λ x. x ∷ s) same ∙ ap (λ x. d ∷ x) rest

before-total : (s t : Text) → text_before s t ≡ false → text_before t s ≡ true
unfolding text_before
before-total [] t h = absurd (ground (arith, h))
before-total (c ∷ s) [] h = refl
before-total (c ∷ s) (d ∷ t) h = ground (arith, h, before-total s t)

before_trans :
    (s t u : Text) → text_before s t ≡ true → text_before t u ≡ true → text_before s u ≡ true
unfolding text_before
before_trans [] t u h k = refl
before_trans (c ∷ s) [] u h k = absurd (ground (arith, h))
before_trans (c ∷ s) (d ∷ t) [] h k = absurd (ground (arith, k))
before_trans (c ∷ s) (d ∷ t) (e ∷ u) h k = ground (arith, h, k, before_trans s t u)

-- The two ways of one comparison.
insert-before :
    (s t : Text) (ts : List Text) → text_before s t ≡ true → insert_text s (t ∷ ts) ≡ s ∷ t ∷ ts
unfolding insert_text
insert-before s t ts h = rw h refl

insert-after :
    (s t : Text) (ts : List Text)
    → text_before s t ≡ false
    → insert_text s (t ∷ ts) ≡ t ∷ insert_text s ts
unfolding insert_text
insert-after s t ts h = rw h refl

-- Two texts that stand before all the rest change places.
insert-front :
    (s t : Text) (ts : List Text)
    → insert_text s ts ≡ s ∷ ts
    → insert_text t ts ≡ t ∷ ts
    → insert_text s (t ∷ ts) ≡ insert_text t (s ∷ ts)
insert-front s t ts h k = elim (Bool-cases (text_before s t)) [
  | inl st ↦ elim (Bool-cases (text_before t s)) [
    | inl ts' ↦
        let same = before-antisym s t st ts' in
        ap (λ x. insert_text x (t ∷ ts)) same ∙ ap (λ x. insert_text t (x ∷ ts)) (sym same)
    | inr nts ↦ insert-before s t ts st ∙ ap (λ x. s ∷ x) (sym k) ∙ sym (insert-after t s ts nts)
  ]
  | inr nst ↦
      insert-after s t ts nst
      ∙ ap (λ x. t ∷ x) h
      ∙ sym (insert-before t s ts (before-total s t nst))
]

insert-insert :
    (s t : Text) (ts : List Text)
    → insert_text s (insert_text t ts) ≡ insert_text t (insert_text s ts)
insert-insert s t [] = unfold insert_text in insert-front s t [] refl refl
insert-insert s t (x ∷ xs) = elim (Bool-cases (text_before s x)) [
  | inl sx ↦ elim (Bool-cases (text_before t x)) [
    | inl tx ↦
        ap (insert_text s) (insert-before t x xs tx)
        ∙ insert-front s t (x ∷ xs) (insert-before s x xs sx) (insert-before t x xs tx)
        ∙ ap (insert_text t) (sym (insert-before s x xs sx))
    | inr ntx ↦ sym (insert-behind t s x xs ntx sx)
  ]
  | inr nsx ↦ elim (Bool-cases (text_before t x)) [
    | inl tx ↦ insert-behind s t x xs nsx tx
    | inr ntx ↦
        ap (insert_text s) (insert-after t x xs ntx)
        ∙ insert-after s x (insert_text t xs) nsx
        ∙ ap (λ l. x ∷ l) (insert-insert s t xs)
        ∙ sym (insert-after t x (insert_text s xs) ntx)
        ∙ ap (insert_text t) (sym (insert-after s x xs nsx))
  ]
]
  where
    insert-behind :
        (s t x : Text) (xs : List Text)
        → text_before s x ≡ false
        → text_before t x ≡ true
        → insert_text s (insert_text t (x ∷ xs)) ≡ insert_text t (insert_text s (x ∷ xs))
    insert-behind s t x xs nsx tx =
        ap (insert_text s) (insert-before t x xs tx)
        ∙ insert-after s t (x ∷ xs) (not_before nsx tx)
        ∙ ap (λ l. t ∷ l) (insert-after s x xs nsx)
        ∙ sym (insert-before t x (insert_text s xs) tx)
        ∙ ap (insert_text t) (sym (insert-after s x xs nsx))
      where
        not_before : text_before s x ≡ false → text_before t x ≡ true → text_before s t ≡ false
        not_before nsx tx = elim (Bool-cases (text_before s t)) [
          | inr n ↦ n
          | inl st ↦ absurd (ground (arith, nsx, before_trans s t x st tx))
        ]

-- Lists of the same texts are sorted alike.
pub sort_texts-Perm : {xs ys : List Text} → Permᴰ xs ys → sort_texts xs ≡ sort_texts ys
unfolding sort_texts
sort_texts-Perm nil = refl
sort_texts-Perm (cons {l₂ = ys} e p) =
    ap (insert_text _) (sort_texts-Perm p) ∙ ap (λ x. insert_text x (sort_texts ys)) e
sort_texts-Perm (swap {a = a} {b = b} {a' = a'} {l = l} e e') =
    insert-insert a b (sort_texts l)
    ∙ ap (λ x. insert_text x (insert_text a (sort_texts l))) e'
    ∙ ap (λ x. insert_text a' (insert_text x (sort_texts l))) e
sort_texts-Perm (trans p q) = sort_texts-Perm p ∙ sort_texts-Perm q

-- No text stands after a greater one.
abbrev pub Sorted : List Text → Type 0
Sorted [] = Unit
Sorted (t ∷ ts) = All (λ u. text_before t u ≡ true) ts × Sorted ts

All-insert_text :
    (P : Text → Type 0) (s : Text) (ts : List Text) → P s → All P ts → All P (insert_text s ts)
unfolding insert_text
All-insert_text P s [] h k = (h, tt)
All-insert_text P s (t ∷ ts) h k = elim (Bool-cases (text_before s t)) [
  | inl st ↦ rw (insert_text, st) (h, k)
  | inr nst ↦ rw (insert_text, nst) (k.0, All-insert_text P s ts h k.1)
]

insert_text-Sorted : (s : Text) (ts : List Text) → Sorted ts → Sorted (insert_text s ts)
unfolding insert_text
insert_text-Sorted s [] h = (tt, tt)
insert_text-Sorted s (t ∷ ts) h = elim (Bool-cases (text_before s t)) [
  | inl st ↦ rw (insert_text, st) ((st, All-map ts (λ u. before_trans s t u st) h.0), h)
  | inr nst ↦
      rw (insert_text, nst)
        (
          All-insert_text (λ u. text_before t u ≡ true) s ts (before-total s t nst) h.0,
          insert_text-Sorted s ts h.1,
        )
]

pub sort_texts-Sorted : (ts : List Text) → Sorted (sort_texts ts)
unfolding sort_texts
sort_texts-Sorted [] = tt
sort_texts-Sorted (t ∷ ts) = insert_text-Sorted t (sort_texts ts) (sort_texts-Sorted ts)

insert_text-Perm : (s : Text) (ts : List Text) → Permᴰ (insert_text s ts) (s ∷ ts)
unfolding insert_text
insert_text-Perm s [] = cons refl nil
insert_text-Perm s (t ∷ ts) = elim (Bool-cases (text_before s t)) [
  | inl st ↦ rw (insert_text, st) (cons refl (cons refl (Permᴰ.refl ts)))
  | inr nst ↦ rw (insert_text, nst) (trans (cons refl (insert_text-Perm s ts)) (swap refl refl))
]

pub Perm-sort_texts : (ts : List Text) → Permᴰ (sort_texts ts) ts
unfolding sort_texts
Perm-sort_texts [] = nil
Perm-sort_texts (t ∷ ts) =
    trans (insert_text-Perm t (sort_texts ts)) (cons refl (Perm-sort_texts ts))
