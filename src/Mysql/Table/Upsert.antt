-- ===== src/Mysql/Table/Upsert.antt =====
-- An insertion that keeps an earlier row, and the row that is read back for it.
use case_execution.Mysql.Table.{
  List, Table, IsTable, chosen, first_of, after-wrapped, found-ok, return-ok, first_of-some,
  wrapped, found,
}
use case_execution.Prelude.{
  some_inj, true, ◌≡◌, ◌⊎◌, inl, inr, some, is_nil, ◌∙◌, sym, ap, subst, ℕ, Bool,
}
use case_execution.Dispatch.Ports.{after, return, Action, ok}
use case_execution.Text.{Bytes}

-- `Where(p).First(row)` and the entity of the row.
abbrev pub selected : {D R S : Type 0} → Table D R → Bytes → (R → S) → (R → Bool) → Action D S
selected table prefix entity p d =
    after (wrapped prefix (found (table.first_where p d))) (λ stored. return (entity stored))

-- What the two statements do: the result is the first row that then meets the condition, and the table
-- has grown only where no row met it.
pub record Upserted {R S : Type 0} (entity : R → S) (p : R → Bool) (s : S) (rows rows' : List R)
    : Type 0 where
  pub row : R
  pub stands : first_of (chosen p rows') ≡ some row
  pub returned : s ≡ entity row
  pub grown : (is_nil (chosen p rows) ≡ true) ⊎ (rows' ≡ rows)

module _ {D R S : Type 0} (table : Table D R) (with_key : ℕ → R → R) (clash : R → R → Bool)
    (entity : R → S) where
  -- The insertion of a row whose clash is the condition, and the reading that follows.
  pub upsert-ok :
      (keep : Bool) (prefix : Bytes) (p : R → Bool) (r r' : R) (s : S) (d d1 d' : D)
      → IsTable with_key clash table
      → (λ old. clash old r) ≡ p
      → table.create keep r d ≡ (ok r', d1)
      → selected table prefix entity p d1 ≡ (ok s, d')
      → Upserted entity p s (table.rows_of d) (table.rows_of d')
  upsert-ok keep prefix p r r' s d d1 d' law met created done =
      let (row, d2, got, last) =
        after-wrapped prefix (found (table.first_where p d1)) (λ stored. return (entity stored)) s
          d' done in
      let (same, first_row) =
        law.firsts p d1 d2 (some row) (found-ok (table.first_where p d1) row d2 got) in
      let (read, ended) = return-ok (entity row) s d2 d' last in
      let same_rows : table.rows_of d' ≡ table.rows_of d1 = ap table.rows_of ended ∙ same in
      record {
        row = row;
        stands = subst (λ x. first_of (chosen p x) ≡ some row) (sym same_rows) (sym first_row);
        returned = read;
        grown = elim (law.creates keep r r' d d1 created) [
          | inl (k, keyed, grows, fresh) ↦
              inl (subst (λ q. is_nil (chosen q (table.rows_of d)) ≡ true) met fresh)
          | inr (kept, still) ↦ inr (same_rows ∙ still)
        ];
      }

module _ {R S : Type 0} (entity : R → S) where
  -- A second time nothing is inserted, and the same is returned.
  pub upsert_twice :
      (p : R → Bool) (s s' : S) (rows rows' rows'' : List R)
      → Upserted entity p s rows rows'
      → Upserted entity p s' rows' rows''
      → (s' ≡ s) × (rows'' ≡ rows')
  upsert_twice p s s' rows rows' rows'' one two =
      let same : rows'' ≡ rows' = elim two.grown [
        | inl fresh ↦ absurd (cc (first_of-some (chosen p rows') one.row one.stands, fresh))
        | inr same ↦ same
      ] in
      let row : two.row ≡ one.row =
        some_inj (sym two.stands ∙ (ap (λ x. first_of (chosen p x)) same ∙ one.stands)) in
      (two.returned ∙ (ap entity row ∙ sym one.returned), same)
