-- ===== src/Mysql/Executions/Idempotent.antt =====
-- A record that is added twice.
use case_execution.Prelude.{if-false, sym, ◌∙◌, refl, false, [], ◌∷◌, ◌&&◌, ◌==◌, ◌≡◌, some, ap}
use case_execution.Mysql.Executions.{not, add, reread, is_for, IsExecutionTable, same_request}
use case_execution.Text.{lit, is_empty, Bytes}
use case_execution.Mysql.Rows.{record_of_row, optional_string, from_execution_record, ExecutionRow}
use case_execution.Dispatch.Ports.{ok, Ctx}
use case_execution.Domain.Entity.{ExecutionRecord}
use case_execution.Mysql.Table.{Table, after-wrapped}
use case_execution.Mysql.Table.Upsert.{Upserted, upsert-ok, upsert_twice}

optional_string-some : (s : Bytes) → is_empty s ≡ false → optional_string s ≡ some s
optional_string-some [] h = absurd (cc h)
optional_string-some (c ∷ s) h = refl

module _ {D : Type 0} (table : Table D ExecutionRow) where
  pub add-Upserted :
      (ctx : Ctx) (r s : ExecutionRecord) (d d' : D)
      → IsExecutionTable table
      → is_empty r.request_id ≡ false
      → add table ctx r d ≡ (ok s, d')
      → Upserted record_of_row
          (is_for table.weight r.request_id r.case_id)
          s
          (table.rows_of d)
          (table.rows_of d')
  unfolding add reread from_execution_record
  add-Upserted ctx r s d d' law named done =
      let (row, d1, created, last) =
        after-wrapped (lit "insert execution_record: ")
          (table.create (not (is_empty r.request_id)) (from_execution_record r) d) (reread table r)
          s d' done in
      upsert-ok table _ _ record_of_row (not (is_empty r.request_id))
        (lit "select idempotent execution_record: ") (is_for table.weight r.request_id r.case_id)
        (from_execution_record r) row s d d1 d' law
        (ap
          (λ t. λ (old : ExecutionRow).
            same_request table.weight old.request_id t && old.case_id == r.case_id)
          (optional_string-some r.request_id named))
        created (sym (if-false _ _ (is_empty r.request_id) named) ∙ last)

  -- A request that comes again finds its record: a second addition for the same request and case
  -- inserts nothing and returns the record that the first one returned.
  pub add_twice :
      (ctx : Ctx) (r s r' s' : ExecutionRecord) (d d' d'' : D)
      → IsExecutionTable table
      → is_empty r.request_id ≡ false
      → r'.request_id ≡ r.request_id
      → r'.case_id ≡ r.case_id
      → add table ctx r d ≡ (ok s, d')
      → add table ctx r' d' ≡ (ok s', d'')
      → (s' ≡ s) × (table.rows_of d'' ≡ table.rows_of d')
  add_twice ctx r s r' s' d d' d'' law named same_id same_case done again =
      let two = add-Upserted ctx r' s' d' d'' law (rw same_id named) again in
      upsert_twice record_of_row (is_for table.weight r.request_id r.case_id) s s' (table.rows_of d)
        (table.rows_of d') (table.rows_of d'') (add-Upserted ctx r s d d' law named done)
        (rw (same_id, same_case) at two)
