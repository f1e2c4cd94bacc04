-- ===== src/Mysql/Executions/Forward.antt =====
-- What the updates of execution_repository.go leave alone.
use case_execution.Prelude.{
  sym, inl, inr, ◌⊎◌, true, false, [], ◌∷◌, ◌&&◌, ◌≡◌, ◌≤◌, ℕ, Pairs, ap, ◌∙◌, contains, length,
  arith, refl, count_absent, count-contains, if◌then◌else◌, Option, List, Bool,
}
use case_execution.Mysql.Table.{chosen, updated}
use case_execution.Mysql.Executions.{is_waiting}
use case_execution.Domain.Status.{ExecutionStatus}
use case_execution.Mysql.Rows.{ExecutionRow}
use case_execution.Mysql.Helpers.{unique_int64s, unique_int64s-count}
use case_execution.Mysql.Executions.Statuses.{with_status}

-- The row keeps its key, and all of itself once it has left WAIT.
abbrev pub Forward : ExecutionRow → ExecutionRow → Type 0
Forward r r' = (r'.execution_id ≡ r.execution_id) × ((r' ≡ r) ⊎ (is_waiting r ≡ true))

pub updated-Forward :
    (p : ExecutionRow → Bool) (f : ExecutionRow → ExecutionRow) (rows : List ExecutionRow)
    → ((r : ExecutionRow) → (f r).execution_id ≡ r.execution_id)
    → Pairs Forward rows (updated (λ r. p r && is_waiting r) f rows)
updated-Forward p f [] keyed = tt
updated-Forward p f (r ∷ rows) keyed =
    (one_of (p r) (is_waiting r) refl, updated-Forward p f rows keyed)
  where
    one_of : (b w : Bool) → is_waiting r ≡ w → Forward r (if b && w then f r else r)
    one_of true true e = (keyed r, inr e)
    one_of true false e = (refl, inl refl)
    one_of false w e = (refl, inl refl)

pub Forward-refl : (rows : List ExecutionRow) → Pairs Forward rows rows
Forward-refl [] = tt
Forward-refl (r ∷ rows) = ((refl, inl refl), Forward-refl rows)

pub Forward-trans :
    (rows rows' rows'' : List ExecutionRow)
    → Pairs Forward rows rows'
    → Pairs Forward rows' rows''
    → Pairs Forward rows rows''
Forward-trans [] [] rows'' one two = two
Forward-trans [] (r' ∷ rows') rows'' one two = absurd one
Forward-trans (r ∷ rows) [] rows'' one two = absurd one
Forward-trans (r ∷ rows) (r' ∷ rows') [] one two = absurd two
Forward-trans (r ∷ rows) (r' ∷ rows') (r'' ∷ rows'') one two = (
  (
    two.0.0 ∙ one.0.0,
    elim one.0.1 [
      | inr waits ↦ inr waits
      | inl same ↦ elim two.0.1 [
        | inl still ↦ inl (still ∙ same)
        | inr waits ↦ inr (ap is_waiting (sym same) ∙ waits)
      ]
    ],
  ),
  Forward-trans rows rows' rows'' one.1 two.1,
)

-- How many rows have one of the keys.
abbrev pub with_id : (ℕ → Bool) → List ExecutionRow → ℕ
with_id q rows = length (chosen (λ r. q r.execution_id) rows)

pub with_id-Forward :
    (q : ℕ → Bool) (rows rows' : List ExecutionRow)
    → Pairs Forward rows rows'
    → with_id q rows' ≡ with_id q rows
with_id-Forward q [] [] pairs = refl
with_id-Forward q [] (r' ∷ rows') pairs = absurd pairs
with_id-Forward q (r ∷ rows) [] pairs = absurd pairs
with_id-Forward q (r ∷ rows) (r' ∷ rows') pairs =
    ground (arith, ap q pairs.0.0, with_id-Forward q rows rows' pairs.1)

-- A condition more meets no more rows.
pub chosen_fewer :
    {R : Type 0} (p q : R → Bool) (rows : List R)
    → length (chosen (λ r. p r && q r) rows) ≤ length (chosen p rows)
chosen_fewer p q [] = omega arith
chosen_fewer p q (r ∷ rows) = ground (arith, chosen_fewer p q rows)

pub contains_unique : (a : ℕ) (ids : List ℕ) → contains (unique_int64s ids) a ≡ contains ids a
contains_unique a ids = ground (
  arith,
  unique_int64s-count a ids,
  count_absent a (unique_int64s ids),
  count-contains a (unique_int64s ids),
)

pub with_id-same :
    (q q' : ℕ → Bool) (rows : List ExecutionRow)
    → ((a : ℕ) → q a ≡ q' a)
    → with_id q rows ≡ with_id q' rows
with_id-same q q' [] same = refl
with_id-same q q' (r ∷ rows) same = ground (arith, same r.execution_id, with_id-same q q' rows same)

pub with_status-id :
    (status : ExecutionStatus) (finish_at : Option ℕ) (r : ExecutionRow)
    → (with_status status finish_at r).execution_id ≡ r.execution_id
unfolding with_status
with_status-id status finish_at r = ground arith
