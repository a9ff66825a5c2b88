-- ===== src/Prelude/Lists.antt =====
-- Lists measured and indexed by native numbers, under the library's names.
use Prim.Native.Nat.{ℕ, zero, suc, ◌+◌, ◌≤◌, ◌<◌, min}
use mathlib.Core.Path.{◌≡◌, refl, ap}
use mathlib.Core.Bool.{Bool, true, false}
use mathlib.Core.List.{List, [], ◌∷◌, ◌++◌}
use native.Mathlib.Omega.{arith}

module _ {ℓ} {A : Type ℓ} where
  abbrev pub length : List A → ℕ
  length [] = 0
  length (x ∷ xs) = suc (length xs)

  abbrev pub take : ℕ → List A → List A
  take zero xs = []
  take (suc n) [] = []
  take (suc n) (x ∷ xs) = x ∷ take n xs

  abbrev pub drop : ℕ → List A → List A
  drop zero xs = xs
  drop (suc n) [] = []
  drop (suc n) (x ∷ xs) = drop n xs

  pub length-append : (xs ys : List A) → length (xs ++ ys) ≡ length xs + length ys
  length-append [] ys = omega arith
  length-append (x ∷ xs) ys = omega (arith, length-append xs ys)

  pub length-take : (n : ℕ) (xs : List A) → length (take n xs) ≡ min n (length xs)
  length-take zero xs = omega arith
  length-take (suc n) [] = omega arith
  length-take (suc n) (x ∷ xs) = omega (arith, length-take n xs)

  -- The entries that pass a Boolean test.
  abbrev pub keep_if : (A → Bool) → List A → List A
  keep_if p [] = []
  keep_if p (x ∷ xs) = elim (p x) [ true ↦ x ∷ keep_if p xs | false ↦ keep_if p xs ]

  -- A predicate at every entry.
  abbrev pub All {κ} : (A → Type κ) → List A → Type κ
  All P [] = Unit
  All P (x ∷ xs) = P x × All P xs

  pub All-append {κ} : (P : A → Type κ) (xs ys : List A) → All P xs → All P ys → All P (xs ++ ys)
  All-append P [] ys h k = k
  All-append P (x ∷ xs) ys h k = (h.0, All-append P xs ys h.1 k)

module _ {ℓ} {A : Type ℓ} where
  pub take-append-drop : (n : ℕ) (xs : List A) → take n xs ++ drop n xs ≡ xs
  take-append-drop zero xs = refl
  take-append-drop (suc n) [] = refl
  take-append-drop (suc n) (x ∷ xs) = ap (◌∷◌ x) (take-append-drop n xs)

  -- A list that is taken with room to spare is taken whole.
  pub drop_of_length-lt : (n : ℕ) (xs : List A) → length (take n xs) < n → drop n xs ≡ []
  drop_of_length-lt zero xs h = absurd (omega arith)
  drop_of_length-lt (suc n) [] h = refl
  drop_of_length-lt (suc n) (x ∷ xs) h = drop_of_length-lt n xs (omega arith)

  pub length-drop-lt :
      (n : ℕ) (xs : List A) → 0 < n → n ≤ length (take n xs) → length (drop n xs) < length xs
  length-drop-lt zero xs p h = absurd (omega arith)
  length-drop-lt (suc n) [] p h = absurd (omega arith)
  length-drop-lt (suc n) (x ∷ xs) p h = omega (arith, length-drop-le n xs)
    where
      length-drop-le : (n : ℕ) (xs : List A) → length (drop n xs) ≤ length xs
      length-drop-le zero xs = omega arith
      length-drop-le (suc n) [] = omega arith
      length-drop-le (suc n) (x ∷ xs) = omega (arith, length-drop-le n xs)

pub All-map {ℓ κ λ'} :
    {A : Type ℓ} {P : A → Type κ} {Q : A → Type λ'} (xs : List A)
    → ((x : A) → P x → Q x)
    → All P xs
    → All Q xs
All-map [] f h = tt
All-map (x ∷ xs) f h = (f x h.0, All-map xs f h.1)

pub All-zip {ℓ κ λ' μ} :
    {A : Type ℓ} {P : A → Type κ} {Q : A → Type λ'} {R : A → Type μ} (xs : List A)
    → ((x : A) → P x → Q x → R x)
    → All P xs
    → All Q xs
    → All R xs
All-zip [] f h k = tt
All-zip (x ∷ xs) f h k = (f x h.0 k.0, All-zip xs f h.1 k.1)
