-- ===== src/Mysql/Executions/Batches.antt =====
-- BatchAdd of execution_repository.go.
use case_execution.Prelude.{
  refl, subst, Pairs-imp, Each-imp, ==_iff, Each-map, ◌∙◌, sym, inl, inr, Bool-cases, ap, arith,
  Each, Pairs, ◌≡◌, contains, ◌||◌, if◌then◌else◌, Bool, List, true, false, [], ◌∷◌, ◌++◌, ◌&&◌,
  not, ℕ, map,
}
use case_execution.Mysql.Table.Reload.{lookup-assign, Read, reload-Pairs, by_key, reload}
use case_execution.Text.{str_eq→eq, format_int, lit, is_empty, str_eq, Bytes}
use case_execution.Mysql.Table.{after-wrapped, Table, wrapped}
use case_execution.Mysql.Executions.{is_for, IsExecutionTable, is_request}
use mathlib.Core.List.{Mem}
use case_execution.Domain.Errs.{GoError, opaque}
use case_execution.Mysql.Rows.{from_execution_record, record_of_row, ExecutionRow}
use case_execution.Dispatch.Ports.{after, err, ok, Action, Ctx}
use case_execution.Domain.Entity.{ExecutionRecord}

abbrev case_missing : ℕ → GoError
case_missing case_id = opaque (
    lit "select idempotent execution_record batch: case_id="
    ++ (format_int case_id ++ lit " missing"))

abbrev pub case_of : ExecutionRecord → ℕ
case_of r = r.case_id

abbrev is_mixed : Bytes → List ExecutionRecord → Bool
is_mixed request_id [] = false
is_mixed request_id (r ∷ rs) = not (str_eq r.request_id request_id) || is_mixed request_id rs

stored_for :
    (weight : Bytes → Bytes) (r : ExecutionRecord) (row : ExecutionRow) (request_id : Bytes)
    → str_eq r.request_id request_id ≡ true
    → is_request weight request_id row.request_id ≡ true
    → row.case_id ≡ r.case_id
    → is_for weight r.request_id r.case_id row ≡ true
stored_for weight r row request_id same asked key = ground (
  arith,
  ap (λ q. is_request weight q row.request_id) (str_eq→eq r.request_id request_id same),
  ==_iff row.case_id r.case_id,
)

-- The record is read from a row of the table, for its case and a request that the collation takes for its
-- own.
abbrev pub Stored : (Bytes → Bytes) → List ExecutionRow → ExecutionRecord → ExecutionRecord → Type 0
Stored weight rows r s =
    (row : ExecutionRow) × Mem row rows
    × (is_for weight r.request_id r.case_id row ≡ true)
    × (s ≡ record_of_row row)

abbrev Holds : (Bytes → Bytes) → Bytes → List ExecutionRow → ℕ → ExecutionRow → Type 0
Holds weight request_id rows k row =
    Mem row rows × (is_request weight request_id row.request_id ≡ true) × (row.case_id ≡ k)

module _ {D : Type 0} (table : Table D ExecutionRow) where
  -- After the insertion.
  reread_batch : Bytes → List ExecutionRecord → List ExecutionRow → Action D (List ExecutionRecord)
  unfolding reload
  reread_batch request_id records rows d =
      if is_empty request_id
      then (ok (map record_of_row rows), d)
      else after
          (wrapped (lit "select idempotent execution_record batch: ") (
            table.find_where
              (λ r.
                is_request table.weight request_id r.request_id
                && contains (map (λ rec. rec.case_id) records) r.case_id)
              d))
          (λ persisted d1. (
            reload case_missing case_of record_of_row (by_key (λ r. r.case_id) persisted) records,
            d1,
          ))

  insert_batch : Bytes → List ExecutionRecord → Action D (List ExecutionRecord)
  unfolding reread_batch
  insert_batch request_id records d =
      if is_mixed request_id records
      then (err (opaque (lit "batch insert execution_record: mixed request_id values")), d)
      else after
          (wrapped (lit "batch insert execution_record: ") (
            table.create_in_batches (not (is_empty request_id)) (map from_execution_record records)
              200 d))
          (reread_batch request_id records)

  unfoldable pub batch_add : Ctx → List ExecutionRecord → Action D (List ExecutionRecord)
  unfolding insert_batch
  batch_add ctx [] d = (ok [], d)
  batch_add ctx (r ∷ rs) d = insert_batch r.request_id (r ∷ rs) d

  unmixed :
      (request_id : Bytes) (rs : List ExecutionRecord)
      → is_mixed request_id rs ≡ false
      → Each (λ r. str_eq r.request_id request_id ≡ true) rs
  unmixed request_id [] h = tt
  unmixed request_id (r ∷ rs) h = (ground arith, unmixed request_id rs (ground arith))

  reread_batch-ok :
      (request_id : Bytes) (records : List ExecutionRecord) (rows : List ExecutionRow)
      (out : List ExecutionRecord) (d d' : D)
      → IsExecutionTable table
      → is_empty request_id ≡ false
      → is_mixed request_id records ≡ false
      → reread_batch request_id records rows d ≡ (ok out, d')
      → (table.rows_of d' ≡ table.rows_of d)
        × Pairs (Stored table.weight (table.rows_of d')) records out
  unfolding reread_batch
  reread_batch-ok request_id records rows out d d' law named same_id done =
      let p : ExecutionRow → Bool = λ r.
        is_request table.weight request_id r.request_id
        && contains (map (λ rec. rec.case_id) records) r.case_id in
      let (persisted, d1, got, last) =
        after-wrapped (lit "select idempotent execution_record batch: ") (table.find_where p d) _
          out d' (rw named at done) in
      let (same, each) = law.finds p d d1 persisted got in
      let read =
        reload-Pairs case_missing case_of record_of_row (by_key (λ r. r.case_id) persisted) records
          out (ap (λ r. r.0) last) in
      let ended : d1 ≡ d' = ap (λ r. r.1) last in
      let now_same : table.rows_of d' ≡ table.rows_of d = ap table.rows_of (sym ended) ∙ same in
      let entries : Each (λ e. Holds table.weight request_id (table.rows_of d) e.0 e.1)
          (map (λ r. (r.case_id, r)) persisted) =
        Each-map (λ e. Holds table.weight request_id (table.rows_of d) e.0 e.1)
          (λ r. (r.case_id, r)) persisted
          (Each-imp (λ r. (p r ≡ true) × Mem r (table.rows_of d))
            (λ r. Holds table.weight request_id (table.rows_of d) r.case_id r) persisted
            (λ r met. (met.1, ground arith, refl)) each) in
      let pairs : Pairs (Stored table.weight (table.rows_of d)) records out =
        Pairs-imp (λ r. str_eq r.request_id request_id ≡ true)
          (Read case_missing case_of record_of_row (by_key (λ r. r.case_id) persisted))
          (Stored table.weight (table.rows_of d)) records out
          (λ r s same_request seen.
            let (row, held, made) = seen in
            let (mem, asked, key) =
              lookup-assign (Holds table.weight request_id (table.rows_of d)) (case_of r) row []
                (map (λ r. (r.case_id, r)) persisted) entries tt held in
            (row, mem, stored_for table.weight r row request_id same_request asked key, made))
          (unmixed request_id records same_id) read in
      (now_same, subst (λ x. Pairs (Stored table.weight x) records out) (sym now_same) pairs)

  insert_batch-ok :
      (request_id : Bytes) (records out : List ExecutionRecord) (d d' : D)
      → IsExecutionTable table
      → is_empty request_id ≡ false
      → insert_batch request_id records d ≡ (ok out, d')
      → ((new : List ExecutionRow) × (table.rows_of d' ≡ table.rows_of d ++ new))
        × Pairs (Stored table.weight (table.rows_of d')) records out
  unfolding insert_batch
  insert_batch-ok request_id records out d d' law named done =
      elim (Bool-cases (is_mixed request_id records)) [
        | inl e ↦ absurd (cc (ap (λ r. r.0) (rw e at done)))
        | inr e ↦
            let (rows, d1, created, last) =
              after-wrapped (lit "batch insert execution_record: ")
                (table.create_in_batches (not (is_empty request_id))
                  (map from_execution_record records) 200 d)
                (reread_batch request_id records) out d' (rw e at done) in
            let (new, grown, whole) = law.creates_many _ _ rows 200 d d1 created in
            let (same, pairs) =
              reread_batch-ok request_id records rows out d1 d' law named e last in
            ((new, same ∙ grown), pairs)
      ]

  -- An addition of a batch that succeeds, for records with a request identifier, returns for each record,
  -- in order, a row that the table then has for its case and its request, under the collation of request_id, and leaves every row that was
  -- there.
  pub batch_add_lem :
      (ctx : Ctx) (r : ExecutionRecord) (rs out : List ExecutionRecord) (d d' : D)
      → IsExecutionTable table
      → is_empty r.request_id ≡ false
      → batch_add ctx (r ∷ rs) d ≡ (ok out, d')
      → ((new : List ExecutionRow) × (table.rows_of d' ≡ table.rows_of d ++ new))
        × Pairs (Stored table.weight (table.rows_of d')) (r ∷ rs) out
  unfolding batch_add
  batch_add_lem ctx r rs out d d' law named done =
      insert_batch-ok r.request_id (r ∷ rs) out d d' law named done
