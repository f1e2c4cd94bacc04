-- ===== src/Mysql/Executions.antt =====
-- internal/infrastructure/persistence/mysql/execution_repository.go: Add, FindByID and Save. A record
-- that Go fills in through its pointer is returned.
pub mod Batches
pub mod Statuses
pub mod Forward
pub mod Conditional
pub mod Idempotent
use case_execution.Mysql.Table.Upsert.{selected}
use case_execution.Mysql.Table.{Table, IsTable, wrapped}
use case_execution.Mysql.Rows.{ExecutionRow, record_of_row, from_execution_record}
use case_execution.Dispatch.Ports.{Ctx, Action, ok, err, after, return}
use case_execution.Domain.Entity.{ExecutionRecord}
use case_execution.Domain.Status.{wait, status_text}
use case_execution.Domain.Errs.{opaque}
use case_execution.Text.{Bytes, lit, str_eq, is_empty, format_int}
use case_execution.Prelude.{
  ℕ, ◌++◌, ◌&&◌, ◌==◌, not, Bool, false, Option, none, some, if◌then◌else◌,
}

-- `request_id = ?` under the collation of the table, which NULL never meets.
abbrev pub is_request : (Bytes → Bytes) → Bytes → Option Bytes → Bool
is_request weight request_id none = false
is_request weight request_id (some s) = str_eq (weight s) (weight request_id)

abbrev pub is_for : (Bytes → Bytes) → Bytes → ℕ → ExecutionRow → Bool
is_for weight request_id case_id r =
    is_request weight request_id r.request_id && r.case_id == case_id

-- The unique index on request_id and case_id, under the same collation.
abbrev pub same_request : (Bytes → Bytes) → Option Bytes → Option Bytes → Bool
same_request weight s none = false
same_request weight s (some t) = is_request weight t s

-- The table execution_record.
abbrev pub IsExecutionTable : {D : Type 0} → Table D ExecutionRow → Type 0
IsExecutionTable table =
    IsTable (λ k r. record r { execution_id = k })
      (λ r s. same_request table.weight r.request_id s.request_id && r.case_id == s.case_id) table

abbrev pub is_waiting : ExecutionRow → Bool
is_waiting r = str_eq r.execution_status (status_text wait)

abbrev pub saved : ExecutionRecord → ExecutionRow → ExecutionRow
saved source r = record r {
  execution_status = status_text source.status;
  execute_at = source.execute_at;
  finish_at = source.finish_at;
}

module _ {D : Type 0} (table : Table D ExecutionRow) where
  -- Without a request identifier the record is what Create has stored; with one it is the row that
  -- the table has for it, an earlier one included.
  unfoldable pub reread : ExecutionRecord → ExecutionRow → Action D ExecutionRecord
  reread r row d =
      if is_empty r.request_id
      then (ok (record_of_row row), d)
      else selected table (lit "select idempotent execution_record: ") record_of_row
          (is_for table.weight r.request_id r.case_id) d

  unfoldable pub add : Ctx → ExecutionRecord → Action D ExecutionRecord
  unfolding reread
  add ctx r d =
      after
        (wrapped (lit "insert execution_record: ")
          (table.create (not (is_empty r.request_id)) (from_execution_record r) d))
        (reread r)

  unfoldable pub find_by_id : Ctx → ℕ → Action D (Option ExecutionRecord)
  find_by_id ctx execution_id d =
      after
        (wrapped (lit "select execution_record by id: ")
          (table.first_where (λ r. r.execution_id == execution_id) d))
        (λ row. return (elim row [ none ↦ none | some r ↦ some (record_of_row r) ]))

  -- The test of a conditional update that has met no row.
  unfoldable pub is_there : ℕ → Option ExecutionRow → Action D (Unit {0})
  is_there execution_id none d = (
    err (opaque (lit "update execution_record: no row matched id=" ++ format_int execution_id)),
    d,
  )
  is_there execution_id (some row) d = (ok tt, d)

  unfoldable pub check_saved : ℕ → ℕ → Action D (Unit {0})
  unfolding is_there
  check_saved execution_id affected d =
      if affected == 0
      then after
          (wrapped (lit "verify execution_record after conditional update: ")
            (table.first_where (λ r. r.execution_id == execution_id) d))
          (is_there execution_id)
      else (ok tt, d)

  unfoldable pub save : Ctx → ExecutionRecord → Action D (Unit {0})
  unfolding check_saved
  save ctx r d =
      after
        (wrapped (lit "update execution_record: ") (
          table.update_where (λ row. row.execution_id == r.execution_id && is_waiting row)
            (λ _. saved r) d))
        (check_saved r.execution_id)
