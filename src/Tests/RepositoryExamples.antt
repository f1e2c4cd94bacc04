-- ===== src/Tests/RepositoryExamples.antt =====
-- Examples for the repositories, over tables that are lists.
use case_execution.Domain.Status.{is_terminal, dispatch_failed}
use case_execution.Mysql.Helpers.{unique_int64s, new_lease_token}
use case_execution.Tests.Tables.{
  outbox_table, outbox_table-IsOutboxTable, execution_table, execution_table-IsExecutionTable,
  list_tx, list_tx-IsTxRunner,
}
use case_execution.Tests.ChunkExamples.{stored, queued}
use case_execution.Tests.DomainExamples.{zeros}
use case_execution.Mysql.Table.{updated}
use case_execution.Mysql.Rows.{
  OutboxRow, ExecutionRow, from_outbox_message, message_of_row, from_execution_record,
  record_of_row,
}
use case_execution.Mysql.Lease.{touched}
use case_execution.Mysql.Claim.{Claims, claim_pending, claim_pending_lem, leased, claim_limit}
use case_execution.Mysql.Claim.Disjoint.{claims_disjoint, IsUnclaimed}
use case_execution.Mysql.Executions.{save, saved, is_waiting}
use case_execution.Mysql.Executions.Batches.{batch_add, batch_add_lem, Stored}
use case_execution.Mysql.Executions.Statuses.{batch_update_status, grouped}
use case_execution.Mysql.Executions.Forward.{Forward, with_id}
use case_execution.Mysql.Executions.Conditional.{batch_update_status_lem, save_lem, Covers}
use case_execution.Dispatch.Ports.{request, ok}
use case_execution.Domain.Entity.{OutboxMessage, ExecutionRecord}
use case_execution.Text.{Bytes}
use case_execution.Text.Hex.{hex_encode}
use case_execution.Prelude.{
  ◌≡◌, ◌≤◌, ◌<◌, ◌∷◌, ◌++◌, [], List, refl, some, Each, Pairs, arith, ◌==◌, ◌&&◌,
}

abbrev waiting_rows : List OutboxRow
waiting_rows =
    record (from_outbox_message (queued 1)) { outbox_id = 1 }
    ∷ record (from_outbox_message (queued 2)) { outbox_id = 2 }
    ∷ []

abbrev one_leased : List OutboxRow
one_leased =
    touched (leased (hex_encode zeros) 900) 700
      (record (from_outbox_message (queued 1)) { outbox_id = 1 })
    ∷ record (from_outbox_message (queued 2)) { outbox_id = 2 }
    ∷ []

abbrev claimed_first : List OutboxMessage
claimed_first =
    message_of_row
      (leased (hex_encode zeros) 900 (record (from_outbox_message (queued 1)) { outbox_id = 1 }))
    ∷ []

claims_first :
    claim_pending outbox_table list_tx (ok zeros) request 1 500 900 waiting_rows
    ≡ (ok claimed_first, one_leased)
unfolding claim_pending outbox_table list_tx from_outbox_message message_of_row new_lease_token
claims_first = refl

claim_pending_example :
    (1 ≤ claim_limit 1)
    × (token : Bytes) × (new_lease_token (ok zeros) ≡ ok token)
    × Claims outbox_table token (claim_limit 1) 500 900 claimed_first waiting_rows one_leased
claim_pending_example =
    claim_pending_lem outbox_table list_tx (ok zeros) request 1 500 900 claimed_first waiting_rows
      one_leased outbox_table-IsOutboxTable list_tx-IsTxRunner claims_first

abbrev both_leased : List OutboxRow
both_leased =
    touched (leased (hex_encode zeros) 900) 700
      (record (from_outbox_message (queued 1)) { outbox_id = 1 })
    ∷ touched (leased (hex_encode zeros) 950) 700
        (record (from_outbox_message (queued 2)) { outbox_id = 2 })
    ∷ []

abbrev claimed_second : List OutboxMessage
claimed_second =
    message_of_row
      (leased (hex_encode zeros) 950 (record (from_outbox_message (queued 2)) { outbox_id = 2 }))
    ∷ []

claims_second :
    claim_pending outbox_table list_tx (ok zeros) request 0 550 950 one_leased
    ≡ (ok claimed_second, both_leased)
unfolding claim_pending outbox_table list_tx from_outbox_message message_of_row new_lease_token
claims_second = refl

claims_disjoint_example : Each (IsUnclaimed claimed_first) claimed_second
claims_disjoint_example =
    claims_disjoint outbox_table list_tx (ok zeros) (ok zeros) request request 1 0 500 550 900 950
      claimed_first claimed_second waiting_rows one_leased both_leased outbox_table-IsOutboxTable
      list_tx-IsTxRunner claims_first claims_second (omega arith)

abbrev stored_row : ExecutionRow
stored_row = from_execution_record (stored 1 100)

batch_add_example :
    ((new : List ExecutionRow) × ((stored_row ∷ from_execution_record (stored 2 101) ∷ [])
        ≡ (stored_row ∷ []) ++ new))
    × Pairs
        (Stored (λ s. s) (stored_row ∷ from_execution_record (stored 2 101) ∷ []))
        (stored 1 300 ∷ stored 2 101 ∷ [])
        (stored 1 100 ∷ stored 2 101 ∷ [])
unfolding batch_add execution_table record_of_row from_execution_record
batch_add_example =
    batch_add_lem execution_table request (stored 1 300) (stored 2 101 ∷ [])
      (stored 1 100 ∷ stored 2 101 ∷ []) (stored_row ∷ [])
      (stored_row ∷ from_execution_record (stored 2 101) ∷ []) execution_table-IsExecutionTable refl
      refl

abbrev failed_first : ExecutionRecord
failed_first = record (stored 1 100) { status = dispatch_failed; finish_at = some 200 }

abbrev failed_row : ExecutionRow
failed_row = from_execution_record failed_first

save_example :
    (0 < with_id (λ k. k == 1) (stored_row ∷ []))
    × ((failed_row ∷ [])
        ≡ updated
            (λ row. row.execution_id == 1 && is_waiting row)
            (saved failed_first)
            (stored_row ∷ []))
unfolding save execution_table from_execution_record
save_example =
    save_lem execution_table request failed_first (stored_row ∷ []) (failed_row ∷ [])
      execution_table-IsExecutionTable refl

batch_update_status_example :
    Pairs Forward (stored_row ∷ []) (failed_row ∷ [])
    × Each (λ g. Covers g.1 (stored_row ∷ [])) (grouped [] (failed_first ∷ []))
unfolding batch_update_status execution_table from_execution_record unique_int64s is_terminal
batch_update_status_example =
    batch_update_status_lem execution_table (λ groups. groups) request failed_first []
      (stored_row ∷ []) (failed_row ∷ []) execution_table-IsExecutionTable refl
