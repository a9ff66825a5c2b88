-- ===== src/System/Rows.antt =====
-- What the statements of monitor/store.go do to single rows of results_buffer.
use mathlib.Core.List.{Memᴰ}
use mathlib.Core.List.Memᴰ
use mathlib.Core.List.Memᴰ.{head, tail}
use tenpm_uptime_monitor.Prelude.{
  ℕ, zero, suc, ◌<◌, ◌≡◌, refl, sym, ap, ◌∙◌, ◌⊎◌, inl, inr, Bool, true, false, ◌||◌, ◌==◌, ==_iff,
  List, [], ◌∷◌, ◌++◌, map, arith, take, drop, length, keep_if, Bool-cases, Option-cases,
}
use tenpm_uptime_monitor.Prelude.Text.{Text}
use tenpm_uptime_monitor.Model.Check.{Result}
use tenpm_uptime_monitor.Store.Tables.{Row, Buffered, find_id}
use tenpm_uptime_monitor.Store.Buffer.{set_sent, mem_id, unsent_joined, wire_result}
use tenpm_uptime_monitor.Store.Valid.{Keyed}

module _ {ℓ} {A : Type ℓ} where
  pub Memᴰ-take : {x : A} (n : ℕ) (xs : List A) → Memᴰ x (take n xs) → Memᴰ x xs
  Memᴰ-take zero xs m = absurd (Memᴰ.not-nil m)
  Memᴰ-take (suc n) [] m = m
  Memᴰ-take (suc n) (y ∷ xs) (head e) = head e
  Memᴰ-take (suc n) (y ∷ xs) (tail m) = tail (Memᴰ-take n xs m)

  pub drop-length-append : (xs ys : List A) → drop (length xs) (xs ++ ys) ≡ ys
  drop-length-append [] ys = refl
  drop-length-append (x ∷ xs) ys = drop-length-append xs ys

  pub drop-length : (xs : List A) → drop (length xs) xs ≡ []
  drop-length [] = refl
  drop-length (x ∷ xs) = drop-length xs

  pub Memᴰ-kept :
      {x : A} (p : A → Bool) (xs : List A) → p x ≡ true → Memᴰ x xs → Memᴰ x (keep_if p xs)
  Memᴰ-kept p [] h m = absurd (Memᴰ.not-nil m)
  Memᴰ-kept {x} p (y ∷ ys) h (head e) =
      let keep : p y ≡ true = ap p (sym e) ∙ h in rw (keep_if, keep) (head e)
  Memᴰ-kept p (y ∷ ys) h (tail m) =
      let rest = Memᴰ-kept p ys h m in
      elim (Bool-cases (p y)) [
        | inl keep ↦ rw (keep_if, keep) (tail rest)
        | inr lose ↦ rw (keep_if, lose) rest
      ]

  pub Memᴰ-keep_if : {x : A} (p : A → Bool) (xs : List A) → Memᴰ x (keep_if p xs) → Memᴰ x xs
  Memᴰ-keep_if p [] m = m
  Memᴰ-keep_if {x} p (y ∷ ys) m = elim (Bool-cases (p y)) [
    | inl keep ↦
        let here : Memᴰ x (y ∷ keep_if p ys) = rw (keep_if, keep) at m in
        elim (Memᴰ.cases_cons here) [ inl e ↦ head e | inr m' ↦ tail (Memᴰ-keep_if p ys m') ]
    | inr lose ↦ tail (Memᴰ-keep_if p ys (rw (keep_if, lose) at m))
  ]

-- A row after UPDATE results_buffer SET sent = 1 WHERE id IN (...)
abbrev pub marked_row : List ℕ → Buffered → Buffered
marked_row ids b = record b { sent = b.sent || mem_id b.id ids }

pub Memᴰ-set_sent :
    {b : Buffered} (ids : List ℕ) (bs : List Buffered)
    → Memᴰ b (set_sent ids bs)
    → (b' : Buffered) × Memᴰ b' bs × (b ≡ marked_row ids b')
unfolding set_sent
Memᴰ-set_sent ids [] m = absurd (Memᴰ.not-nil m)
Memᴰ-set_sent ids (x ∷ bs) (head e) = (x, head refl, e)
Memᴰ-set_sent ids (x ∷ bs) (tail m) = let (b', m', e) = Memᴰ-set_sent ids bs m in (b', tail m', e)

pub Memᴰ-marked_row :
    {b : Buffered} (ids : List ℕ) (bs : List Buffered)
    → Memᴰ b bs
    → Memᴰ (marked_row ids b) (set_sent ids bs)
unfolding set_sent
Memᴰ-marked_row ids [] m = absurd (Memᴰ.not-nil m)
Memᴰ-marked_row ids (x ∷ bs) (head e) = head (ap (marked_row ids) e)
Memᴰ-marked_row ids (x ∷ bs) (tail m) = tail (Memᴰ-marked_row ids bs m)

-- An id that is given to MarkSent is that of an entry that was listed.
pub mem_id-listed :
    (k : ℕ) (rows : List (ℕ × Result))
    → mem_id k (map (λ e. e.0) rows) ≡ true
    → (e : ℕ × Result) × Memᴰ e rows × (e.0 ≡ k)
unfolding mem_id
mem_id-listed k [] h = absurd (ground (arith, h))
mem_id-listed k (e ∷ rows) h = elim (Bool-cases (e.0 == k)) [
  | inl here ↦ (e, head refl, (==_iff e.0 k).0 here)
  | inr other ↦
      let (e', m, same) = mem_id-listed k rows (ground (arith, h, other)) in (e', tail m, same)
]

-- The entry is how ListUnsent hands out one of the rows, which is unsent.
pub record IsEntry (rows : List Buffered) (e : ℕ × Result) : Type 0 where
  pub row : Buffered
  pub member : Memᴰ row rows
  pub unsent : row.sent ≡ false
  pub guid : Text
  pub form : e ≡ (row.id, wire_result guid row)

pub unsent_joined-IsEntry :
    {e : ℕ × Result} (checks : List Row) (rows : List Buffered)
    → Memᴰ e (unsent_joined checks rows)
    → IsEntry rows e
unfolding unsent_joined
unsent_joined-IsEntry checks [] m = absurd (Memᴰ.not-nil m)
unsent_joined-IsEntry {e} checks (b ∷ bs) m =
    let later : Memᴰ e (unsent_joined checks bs) → IsEntry (b ∷ bs) e = λ m'.
      (let h = unsent_joined-IsEntry checks bs m' in
        record {
          row = h.row;
          member = tail h.member;
          unsent = h.unsent;
          guid = h.guid;
          form = h.form;
        }) in
    elim (Bool-cases b.sent) [
      | inl gone ↦ later (rw gone at m)
      | inr unsent ↦ elim (Option-cases (find_id b.check_id checks)) [
        | inl orphan ↦ later (rw (unsent, orphan) at m)
        | inr (row, found) ↦
            let m' : Memᴰ e ((b.id, wire_result row.guid b) ∷ unsent_joined checks bs) =
              rw (unsent, found) at m in
            elim (Memᴰ.cases_cons m') [
              | inl same ↦ record {
                row = b;
                member = head refl;
                unsent = unsent;
                guid = row.guid;
                form = same;
              }
              | inr rest ↦ later rest
            ]
      ]
    ]

Keyed-above :
    {b : Buffered} (lo hi : ℕ) (bs : List Buffered) → Keyed lo hi bs → Memᴰ b bs → lo < b.id
Keyed-above lo hi [] k m = absurd (Memᴰ.not-nil m)
Keyed-above {b} lo hi (x ∷ bs) k (head e) = let same = ap (λ r. r.id) e in omega (arith, same, k.0)
Keyed-above {b} lo hi (x ∷ bs) k (tail m) =
    let rest = Keyed-above x.id hi bs k.1 m in omega (arith, rest, k.0)

-- Rows with one key are one row.
pub Keyed-unique :
    {b b' : Buffered} (lo hi : ℕ) (bs : List Buffered)
    → Keyed lo hi bs
    → Memᴰ b bs
    → Memᴰ b' bs
    → b.id ≡ b'.id
    → b ≡ b'
Keyed-unique lo hi [] k m m' same = absurd (Memᴰ.not-nil m)
Keyed-unique lo hi (x ∷ bs) k (head e) (head e') same = e ∙ sym e'
Keyed-unique lo hi (x ∷ bs) k (head e) (tail m) same =
    let above = Keyed-above x.id hi bs k.1 m in
    let here = ap (λ r. r.id) e in absurd (omega (arith, above, here, same))
Keyed-unique lo hi (x ∷ bs) k (tail m) (head e) same =
    let above = Keyed-above x.id hi bs k.1 m in
    let here = ap (λ r. r.id) e in absurd (omega (arith, above, here, same))
Keyed-unique lo hi (x ∷ bs) k (tail m) (tail m') same = Keyed-unique x.id hi bs k.1 m m' same

-- One entry is taken out of a list, or put in the place of another.
module _ {ℓ} {A : Type ℓ} where
  pub Memᴰ-without : {x : A} (y : A) (xs ys : List A) → Memᴰ x (xs ++ ys) → Memᴰ x (xs ++ y ∷ ys)
  Memᴰ-without y [] ys m = tail m
  Memᴰ-without y (z ∷ xs) ys (head e) = head e
  Memᴰ-without y (z ∷ xs) ys (tail m) = tail (Memᴰ-without y xs ys m)

  pub Memᴰ-middle : (y : A) (xs ys : List A) → Memᴰ y (xs ++ y ∷ ys)
  Memᴰ-middle y xs ys = Memᴰ.append_right xs (head refl)

  pub Memᴰ-inserted :
      {x : A} (y : A) (xs ys : List A) → Memᴰ x (xs ++ y ∷ ys) → (x ≡ y) ⊎ Memᴰ x (xs ++ ys)
  Memᴰ-inserted y xs ys m = elim (Memᴰ.append_cases xs m) [
    | inl before ↦ inr (Memᴰ.append_left ys before)
    | inr here ↦ elim (Memᴰ.cases_cons here) [
      | inl e ↦ inl e
      | inr after ↦ inr (Memᴰ.append_right xs after)
    ]
  ]
