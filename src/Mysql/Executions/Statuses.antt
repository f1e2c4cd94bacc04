-- ===== src/Mysql/Executions/Statuses.antt =====
-- BatchUpdateStatus of execution_repository.go.
use case_execution.Domain.Errs.{opaque}
use case_execution.Mysql.Helpers.{unique_int64s}
use case_execution.Domain.Status.{wait, status_text, is_terminal, ExecutionStatus}
use case_execution.Dispatch.Ports.{err, after, ok, Ctx, Action}
use case_execution.Mysql.Executions.{is_waiting}
use case_execution.Prelude.{
  length, contains, ltb, ◌==◌, Option, if◌then◌else◌, List, [], ◌∷◌, ◌++◌, ◌&&◌, none, some, ℕ,
}
use case_execution.Text.{lit, str_eq, Bytes}
use case_execution.Domain.Entity.{ExecutionRecord}
use case_execution.Mysql.Rows.{ExecutionRow}
use case_execution.Mysql.Table.{Table, wrapped}

-- The identifiers under each status but WAIT, `append(grouped[status], id)`.
unfoldable pub add_to_group :
    ExecutionStatus → ℕ → List (ExecutionStatus × List ℕ) → List (ExecutionStatus × List ℕ)
add_to_group status id [] = (status, id ∷ []) ∷ []
add_to_group status id ((other_status, ids) ∷ groups) =
    let rest = add_to_group status id groups in
    if str_eq (status_text other_status) (status_text status)
    then (other_status, ids ++ id ∷ []) ∷ groups
    else (other_status, ids) ∷ rest

unfoldable pub grouped :
    List (ExecutionStatus × List ℕ) → List ExecutionRecord → List (ExecutionStatus × List ℕ)
unfolding add_to_group
grouped groups [] = groups
grouped groups (r ∷ rs) =
    grouped
      (if str_eq (status_text r.status) (status_text wait)
        then groups
        else add_to_group r.status r.execution_id groups)
      rs

unfoldable pub record_finish_time : List ExecutionRecord → List ℕ → Option ℕ
record_finish_time [] ids = none
record_finish_time (r ∷ rs) ids =
    let rest = record_finish_time rs ids in
    if contains ids r.execution_id then elim r.finish_at [ none ↦ rest | some t ↦ some t ] else rest

-- The columns that one UPDATE sets: the finish only for a terminal status.
unfoldable pub with_status : ExecutionStatus → Option ℕ → ExecutionRow → ExecutionRow
with_status status finish_at r =
    if is_terminal status
    then record r { execution_status = status_text status; finish_at = finish_at }
    else record r { execution_status = status_text status }

abbrev group_error : ExecutionStatus → Bytes → Bytes
group_error status rest = lit "bulk update execution_status=" ++ (status_text status ++ rest)

module _ {D : Type 0} (table : Table D ExecutionRow) where
  unfoldable pub check_existing : ExecutionStatus → List ℕ → ℕ → Action D (Unit {0})
  check_existing status unique existing d =
      if existing == length unique
      then (ok tt, d)
      else (err (opaque (group_error status (lit ": one or more rows are missing"))), d)

  unfoldable pub check_group : ExecutionStatus → List ℕ → ℕ → Action D (Unit {0})
  unfolding check_existing
  check_group status unique affected d =
      if ltb affected (length unique)
      then after
          (wrapped (lit "verify execution_record batch after conditional update: ")
            (table.count_where (λ r. contains unique r.execution_id) d))
          (check_existing status unique)
      else (ok tt, d)

  unfoldable pub update_group :
      List ExecutionRecord → ExecutionStatus → List ℕ → Action D (Unit {0})
  unfolding check_group with_status record_finish_time
  update_group records status ids d =
      after
        (wrapped (group_error status (lit ": ")) (
          table.update_where (λ r. contains ids r.execution_id && is_waiting r)
            (λ _. with_status status (record_finish_time records ids)) d))
        (check_group status (unique_int64s ids))

  unfoldable pub update_groups :
      List ExecutionRecord → List (ExecutionStatus × List ℕ) → Action D (Unit {0})
  unfolding update_group
  update_groups records [] d = (ok tt, d)
  update_groups records ((status, ids) ∷ groups) d =
      after (update_group records status ids d) (λ u. update_groups records groups)

  -- Go visits the groups of its map in any order, `visit`.
  unfoldable pub batch_update_status :
      (List (ExecutionStatus × List ℕ) → List (ExecutionStatus × List ℕ))
      → Ctx
      → List ExecutionRecord
      → Action D (Unit {0})
  unfolding update_groups grouped
  batch_update_status visit ctx [] d = (ok tt, d)
  batch_update_status visit ctx (r ∷ rs) d =
      let records = r ∷ rs in update_groups records (visit (grouped [] records)) d
