-- ===== src/System/Delivery/Statements.antt =====
-- The books of results_buffer while the agent runs: what one statement of monitor/store.go, or one
-- answer of the server, does to them.
use mathlib.Core.List.{Memᴰ}
use mathlib.Core.List.Memᴰ
use mathlib.Core.Path.{subst}
use tenpm_uptime_monitor.Prelude.{
  ℕ, suc, ◌≡◌, refl, sym, ap, ◌∙◌, ◌⊎◌, inl, inr, Bool, true, false, ◌||◌, List, [], ◌∷◌, ◌++◌, map,
  arith, keep_if, Bool-cases,
}
use tenpm_uptime_monitor.Prelude.Text.{Text}
use tenpm_uptime_monitor.Model.Check.{Result}
use tenpm_uptime_monitor.Store.Tables.{Buffered, Row}
use tenpm_uptime_monitor.Store.Buffer.{set_sent, mem_id, unsent_joined, wire_result}
use tenpm_uptime_monitor.Store.Valid.{Keyed, Keyed-append}
use tenpm_uptime_monitor.System.Rows.{
  Memᴰ-kept, Memᴰ-keep_if, marked_row, Memᴰ-set_sent, Memᴰ-marked_row, mem_id-listed, IsEntry,
  unsent_joined-IsEntry, Keyed-unique,
}

-- The server took the row's result, under the row's key.
abbrev pub Took : List (ℕ × Result) → Buffered → Type 0
Took confirmed b = (g : Text) × Memᴰ (b.id, wire_result g b) confirmed

-- The rows at the start, all that were stored, those in the table, and what the server took.
pub record Account (initial stored : List Buffered) (seq : ℕ) (results : List Buffered)
    (confirmed : List (ℕ × Result)) : Type 0 where
  pub keyed : Keyed 0 seq stored
  pub kept : {b : Buffered} → Memᴰ b stored → b.sent ≡ false → Memᴰ b results ⊎ Took confirmed b
  pub known : {b : Buffered} → Memᴰ b results → b.sent ≡ false → Memᴰ b stored
  pub marked : {b : Buffered} → Memᴰ b results → b.sent ≡ true → Memᴰ b initial ⊎ Took confirmed b
  pub genuine : {e : ℕ × Result} → Memᴰ e confirmed → IsEntry stored e

pub Account-initial :
    (rows : List Buffered) (seq : ℕ) → Keyed 0 seq rows → Account rows rows seq rows []
Account-initial rows seq k = record {
  keyed = k;
  kept = λ m unsent. inl m;
  known = λ m unsent. m;
  marked = λ m sent. inl m;
  genuine = λ m. absurd (Memᴰ.not-nil m);
}

pub IsEntry-append :
    {e : ℕ × Result} (rows more : List Buffered) → IsEntry rows e → IsEntry (rows ++ more) e
IsEntry-append rows more h = record {
  row = h.row;
  member = Memᴰ.append_left more h.member;
  unsent = h.unsent;
  guid = h.guid;
  form = h.form;
}

-- marked_row changes nothing else, and nothing at all where the mark stays as it was.
marked_row-same :
    (ids : List ℕ) (b : Buffered) → (b.sent || mem_id b.id ids) ≡ b.sent → marked_row ids b ≡ b
marked_row-same ids b h = ap (λ (m : Bool). record b { sent = m }) h

-- The wire form does not say whether a row was sent.
Took-marked_row :
    (b : Buffered) (confirmed : List (ℕ × Result)) (ids : List ℕ)
    → Took confirmed b
    → Took confirmed (marked_row ids b)
unfolding wire_result
Took-marked_row b confirmed ids took = took

or_split : (a b : Bool) → (a || b) ≡ false → (a ≡ false) × (b ≡ false)
or_split a b h = ground (arith, h)

module _ (initial stored : List Buffered) (seq : ℕ) (results : List Buffered)
    (confirmed : List (ℕ × Result)) (a : Account initial stored seq results confirmed) where
  pub insert-Account :
      (b : Buffered)
      → b.sent ≡ false
      → b.id ≡ suc seq
      → Account initial (stored ++ b ∷ []) (suc seq) (results ++ b ∷ []) confirmed
  insert-Account b unsent key = record {
    keyed = Keyed-append 0 seq stored b key a.keyed;
    kept = λ m u. elim (Memᴰ.append_cases stored m) [
      | inr new ↦ inl (Memᴰ.append_right results new)
      | inl old ↦ elim (a.kept old u) [
        | inl here ↦ inl (Memᴰ.append_left (b ∷ []) here)
        | inr took ↦ inr took
      ]
    ];
    known = λ m u. elim (Memᴰ.append_cases results m) [
      | inl old ↦ Memᴰ.append_left (b ∷ []) (a.known old u)
      | inr new ↦ Memᴰ.append_right stored new
    ];
    marked = λ m sent. elim (Memᴰ.append_cases results m) [
      | inl old ↦ a.marked old sent
      | inr new ↦
          let same = ap (λ r. r.sent) (Memᴰ.eq_of_singleton new) in
          absurd (ground (arith, same, sent, unsent))
    ];
    genuine = λ m. IsEntry-append stored (b ∷ []) (a.genuine m);
  }

  -- Rows that are deleted were sent.
  pub delete-Account :
      (p : Buffered → Bool)
      → ((b : Buffered) → b.sent ≡ false → p b ≡ true)
      → Account initial stored seq (keep_if p results) confirmed
  delete-Account p sent_only = record {
    keyed = a.keyed;
    kept = λ {b} m u. elim (a.kept m u) [
      | inl here ↦ inl (Memᴰ-kept p results (sent_only b u) here)
      | inr took ↦ inr took
    ];
    known = λ m u. a.known (Memᴰ-keep_if p results m) u;
    marked = λ m sent. a.marked (Memᴰ-keep_if p results m) sent;
    genuine = a.genuine;
  }

  -- The server takes entries of stored rows.
  pub take-Account :
      (rows : List (ℕ × Result))
      → ((e : ℕ × Result) → Memᴰ e rows → IsEntry stored e)
      → Account initial stored seq results (confirmed ++ rows)
  take-Account rows entries = record {
    keyed = a.keyed;
    kept = λ m u. elim (a.kept m u) [
      | inl here ↦ inl here
      | inr (g, took) ↦ inr (g, Memᴰ.append_left rows took)
    ];
    known = a.known;
    marked = λ m sent. elim (a.marked m sent) [
      | inl old ↦ inl old
      | inr (g, took) ↦ inr (g, Memᴰ.append_left rows took)
    ];
    genuine = λ m. elim (Memᴰ.append_cases confirmed m) [
      | inl old ↦ a.genuine old
      | inr new ↦ entries _ new
    ];
  }

  -- A stored row whose key the server took is the row whose result it took.
  Took-by_key :
      (rows : List (ℕ × Result)) (b : Buffered)
      → ((e : ℕ × Result) → Memᴰ e rows → Memᴰ e confirmed)
      → Memᴰ b stored
      → mem_id b.id (map (λ e. e.0) rows) ≡ true
      → Took confirmed b
  Took-by_key rows b taken m listed =
      let (e, m', key) = mem_id-listed b.id rows listed in
      let entry = a.genuine (taken e m') in
      let same_key : entry.row.id ≡ b.id = sym (ap (λ p. p.0) entry.form) ∙ key in
      let same = Keyed-unique 0 seq stored a.keyed entry.member m same_key in
      (
        entry.guid,
        subst (λ r. Memᴰ (r.id, wire_result entry.guid r) confirmed) same
            (subst (λ x. Memᴰ x confirmed) entry.form (taken e m')),
      )

  pub mark-Account :
      (rows : List (ℕ × Result))
      → ((e : ℕ × Result) → Memᴰ e rows → Memᴰ e confirmed)
      → Account initial stored seq (set_sent (map (λ e. e.0) rows) results) confirmed
  mark-Account rows taken =
      let ids = map (λ e. e.0) rows in
      record {
        keyed = a.keyed;
        kept = λ {b} m u. elim (a.kept m u) [
          | inr took ↦ inr took
          | inl here ↦ elim (Bool-cases (mem_id b.id ids)) [
            | inl listed ↦ inr (Took-by_key rows b taken m listed)
            | inr other ↦
                let same = marked_row-same ids b (rw (u, other) refl) in
                inl (
                  subst (λ r. Memᴰ r (set_sent ids results)) same
                    (Memᴰ-marked_row ids results here))
          ]
        ];
        known = λ {b} m u.
            let (b', m', e) = Memᴰ-set_sent ids results m in
            let (u', other) = or_split b'.sent (mem_id b'.id ids) (sym (ap (λ r. r.sent) e) ∙ u) in
            let same = e ∙ marked_row-same ids b' (rw (u', other) refl) in
            subst (λ r. Memᴰ r stored) (sym same) (a.known m' u');
        marked = λ {b} m sent.
            let (b', m', e) = Memᴰ-set_sent ids results m in
            elim (Bool-cases b'.sent) [
              | inl before ↦
                  let same = e ∙ marked_row-same ids b' (rw before refl) in
                  elim (a.marked m' before) [
                    | inl old ↦ inl (subst (λ r. Memᴰ r initial) (sym same) old)
                    | inr took ↦ inr (subst (Took confirmed) (sym same) took)
                  ]
              | inr unsent ↦
                  let listed : mem_id b'.id ids ≡ true =
                    ground (arith, sym (ap (λ r. r.sent) e) ∙ sent, unsent) in
                  inr (
                    subst (Took confirmed) (sym e) (
                      Took-marked_row b' confirmed ids
                        (Took-by_key rows b' taken (a.known m' unsent) listed)))
            ];
        genuine = a.genuine;
      }

  -- What ListUnsent hands out are entries of stored rows.
  pub listed-IsEntry :
      {e : ℕ × Result} (checks : List Row)
      → Memᴰ e (unsent_joined checks results)
      → IsEntry stored e
  listed-IsEntry checks m =
      let h = unsent_joined-IsEntry checks results m in
      record {
        row = h.row;
        member = a.known h.member h.unsent;
        unsent = h.unsent;
        guid = h.guid;
        form = h.form;
      }
