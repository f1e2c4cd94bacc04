-- ===== src/Mysql/Repositories.antt =====
-- The repositories of internal/infrastructure/persistence/mysql as the interfaces that the use cases take,
-- and TxRunner of its db.go. A repository works in the transaction of its context, where that carries
-- one; here both are the state that it is given.
use case_execution.Prelude.{ℕ, List}
use case_execution.Domain.Status.{ExecutionStatus}
use case_execution.Text.{Bytes}
use case_execution.Mysql.Table.{Table}
use case_execution.Mysql.Rows.{ExecutionRow, OutboxRow, CaseRow}
use case_execution.Mysql.Executions
use case_execution.Mysql.Executions.Batches
use case_execution.Mysql.Executions.Statuses
use case_execution.Mysql.Outbox
use case_execution.Mysql.Claim
use case_execution.Mysql.Lease
use case_execution.Mysql.Cases
use case_execution.Dispatch.Ports.{
  ExecutionRepository, OutboxRepository, UtCaseRepository, TxRunner, Action, Reply,
}

module _ {D : Type 0} where
  unfoldable pub new_execution_repository :
      Table D ExecutionRow
      → (List (ExecutionStatus × List ℕ) → List (ExecutionStatus × List ℕ))
      → ExecutionRepository D
  new_execution_repository table visit = record {
    add = Executions.add table;
    batch_add = Batches.batch_add table;
    find_by_id = Executions.find_by_id table;
    save = Executions.save table;
    batch_update_status = Statuses.batch_update_status table visit;
  }

  -- `draw` is what crypto/rand fills in for a claim.
  unfoldable pub new_outbox_repository :
      Table D OutboxRow → TxRunner D → (D → Reply Bytes) → OutboxRepository D
  new_outbox_repository table tx draw = record {
    add = Outbox.add table;
    batch_add = Outbox.batch_add table;
    claim_pending = λ ctx limit now lease_until d.
        Claim.claim_pending table tx (draw d) ctx limit now lease_until d;
    mark_published = λ ctx. Lease.mark_published table;
    mark_retry = λ ctx. Lease.mark_retry table;
    mark_dead = λ ctx. Lease.mark_dead table;
  }

  unfoldable pub new_ut_case_repository : Table D CaseRow → UtCaseRepository D
  new_ut_case_repository table = record { find_by_id = Cases.find_by_id table }

  -- gorm's Transaction is a parameter: it runs the function between BEGIN and COMMIT, or ROLLBACK.
  unfoldable pub new_tx_runner : ((A : Type 0) → Action D A → Action D A) → TxRunner D
  new_tx_runner transaction = record { run = λ A ctx f. transaction A f }
