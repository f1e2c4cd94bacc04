-- ===== src/Mysql/Table/Updated.antt =====
-- The first row that meets a condition, after an update and after an insertion that keeps earlier rows.

use case_execution.Mysql.Table.{chosen, first_of, updated, first_of-some}
use case_execution.Mysql.Table.Upsert.{Upserted}
use case_execution.Prelude.{
  ◌≡◌, ◌∙◌, ◌∷◌, [], List, Bool, true, false, some, some_inj, inl, inr, sym, ap, refl,
  if◌then◌else◌,
}

-- The first row that meets a condition is still the first after an update that leaves the condition.
pub first_of-updated :
    {R : Type 0} (p q : R → Bool) (f : R → R) (rows : List R) (r : R)
    → ((x : R) → p (f x) ≡ p x)
    → first_of (chosen p rows) ≡ some r
    → first_of (chosen p (updated q f rows)) ≡ some (if q r then f r else r)
first_of-updated p q f [] r same e = absurd (cc e)
first_of-updated {R} p q f (x ∷ rows) r same e =
    one_of (p x) (q x) refl refl (first_of-updated p q f rows r same) e
  where
    one_of :
        (met changed : Bool)
        → p x ≡ met
        → q x ≡ changed
        → (first_of (chosen p rows) ≡ some r
            → first_of (chosen p (updated q f rows)) ≡ some (if q r then f r else r))
        → first_of (if met then x ∷ chosen p rows else chosen p rows) ≡ some r
        → first_of (
            if p (if changed then f x else x)
            then (if changed then f x else x) ∷ chosen p (updated q f rows)
            else chosen p (updated q f rows))
          ≡ some (if q r then f r else r)
    one_of true true met changed rest e =
        rw (same x ∙ met)
          (ap some (sym (ap (λ y. if q y then f y else y) (sym (some_inj e)) ∙ rw changed refl)))
    one_of true false met changed rest e =
        rw met
          (ap some (sym (ap (λ y. if q y then f y else y) (sym (some_inj e)) ∙ rw changed refl)))
    one_of false true met changed rest e = rw (same x ∙ met) (rest e)
    one_of false false met changed rest e = rw met (rest e)

pub chosen-met :
    {R : Type 0} (p : R → Bool) (rows : List R) (r : R)
    → first_of (chosen p rows) ≡ some r
    → p r ≡ true
chosen-met p [] r e = absurd (cc e)
chosen-met p (x ∷ rows) r e = one_of (p x) refl e (chosen-met p rows r)
  where
    one_of :
        (b : Bool)
        → p x ≡ b
        → first_of (if b then x ∷ chosen p rows else chosen p rows) ≡ some r
        → (first_of (chosen p rows) ≡ some r → p r ≡ true)
        → p r ≡ true
    one_of true met e rest = ap p (sym (some_inj e)) ∙ met
    one_of false met e rest = rest e

-- Where the row is there already, it is returned and nothing is inserted.
pub upsert_found :
    {R S : Type 0} (entity : R → S) (p : R → Bool) (s : S) (rows rows' : List R) (r : R)
    → first_of (chosen p rows) ≡ some r
    → Upserted entity p s rows rows'
    → (s ≡ entity r) × (rows' ≡ rows)
upsert_found entity p s rows rows' r there up =
    let same : rows' ≡ rows = elim up.grown [
      | inl fresh ↦ absurd (cc (first_of-some (chosen p rows) r there, fresh))
      | inr same ↦ same
    ] in
    let row : up.row ≡ r =
      some_inj (sym up.stands ∙ (ap (λ x. first_of (chosen p x)) same ∙ there)) in
    (up.returned ∙ ap entity row, same)
