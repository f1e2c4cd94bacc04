-- ===== src/Tests/RetryExamples.antt =====
-- A call that the broker has refused, made again over the database of Tests.Stores.
use case_execution.Text.Trim.{peel, trim_space}
use case_execution.Prelude.{◌≡◌, ◌∷◌, [], none, some, refl}
use case_execution.Mysql.Rows.{
  message_of_row, case_of_row, record_of_row, from_outbox_message, from_execution_record,
}
use case_execution.Domain.Entity.{new_outbox_message, dead, mark_as_dispatch_failed}
use case_execution.Domain.Service.{create_execution_record_for_request}
use case_execution.Tests.ChunkExamples.{queued, stored}
use case_execution.Tests.Tables.{list_tx, list_tx-IsTxRunner}
use case_execution.Tests.Memory.{Broker, broker, times}
use case_execution.Tests.DomainExamples.{zeros}
use case_execution.Mysql.Retry.{retry_answers}
use case_execution.Dispatch.Single.Retry.{IsAccepted}
use case_execution.Dispatch.RequestId.{normalize_request_id}
use case_execution.Domain.Status.{dispatch_failed, can_transit_to, is_terminal}
use case_execution.Mysql.Acceptance.{mysql_app}
use case_execution.Dispatch.Ports.{ok}
use case_execution.Dispatch.Single.{accept_case, execute_case_with_request, Accepted, Outcome}
use case_execution.Text.{lit}
use case_execution.Dispatch.App.{replay_dispatched_status}
use case_execution.Mysql.Helpers.{unique_int64s, truncate_outbox_error}
use case_execution.Domain.Errs.{error_text}
use case_execution.Tests.Stores.{
  Store, cases, executions, outbox, executions-IsExecutionTable, outbox-IsOutboxTable,
  tables-AreApart, backend, one_case, accepted_once, accepted, first_time,
}

-- The broker refuses the task, and the third phase records that.
abbrev failed_store : Store
failed_store = record one_case {
  execution_rows =
      from_execution_record
        (record (stored 1 100) { status = dispatch_failed; finish_at = some 120 })
      ∷ [];
  outbox_rows =
      record (from_outbox_message (queued 1)) {
        outbox_id = 1;
        state = lit "DEAD";
        last_error = lit "nack";
        updated_at = 700;
      }
      ∷ [];
}

abbrev refusing : Broker
refusing = record broker { refuses = 1 ∷ [] }

abbrev failed_again : Accepted
failed_again = record {
  accepted = record (stored 1 100) { status = dispatch_failed; finish_at = some 120 };
  case_name = lit "login";
  message = some (record (queued 1) {
    outbox_id = 1;
    state = dead;
    last_error = lit "nack";
    updated_at = 700;
  });
}

abbrev failed_outcome : Outcome
failed_outcome = record { execution_id = 1; status = dispatch_failed; error = none }

first_request :
    IsAccepted
      (mysql_app backend)
      times
      (ok zeros)
      (lit "r1")
      1
      (lit "26B")
      (lit "ann")
      one_case
      accepted
      accepted_once
unfolding normalize_request_id trim_space peel
first_request = record {
  request_id = lit "r1";
  has_version = refl;
  normalized = refl;
  inserted = first_time;
  same_version = refl;
}

failed_call :
    execute_case_with_request
      (mysql_app backend)
      times
      (ok zeros)
      (lit "r1")
      1
      (lit "26B")
      (lit "ann")
      one_case
      refusing
    ≡ (failed_outcome, failed_store, refusing)
unfolding execute_case_with_request normalize_request_id trim_space peel accept_case mysql_app
    list_tx case_execution.Mysql.Cases.find_by_id cases case_execution.Mysql.Executions.add
    executions create_execution_record_for_request from_execution_record
    case_execution.Mysql.Outbox.add outbox from_outbox_message new_outbox_message record_of_row
    case_of_row message_of_row replay_dispatched_status case_execution.Mysql.Executions.find_by_id
    mark_as_dispatch_failed can_transit_to case_execution.Mysql.Executions.save is_terminal
    case_execution.Mysql.Lease.mark_dead unique_int64s truncate_outbox_error error_text
failed_call = refl

second_request :
    IsAccepted
      (mysql_app backend)
      times
      (ok zeros)
      (lit "r1")
      1
      (lit "26B")
      (lit "bob")
      failed_store
      failed_again
      failed_store
unfolding normalize_request_id trim_space peel accept_case mysql_app list_tx
    case_execution.Mysql.Cases.find_by_id cases case_execution.Mysql.Executions.add executions
    create_execution_record_for_request from_execution_record case_execution.Mysql.Outbox.add outbox
    from_outbox_message new_outbox_message record_of_row case_of_row message_of_row
second_request = record {
  request_id = lit "r1";
  has_version = refl;
  normalized = refl;
  inserted = refl;
  same_version = refl;
}

retry_answers_example :
    (execute_case_with_request
        (mysql_app backend)
        times
        (ok zeros)
        (lit "r1")
        1
        (lit "26B")
        (lit "bob")
        failed_store
        broker
      ≡ (failed_outcome, failed_store, broker))
    × (failed_store.execution_rows ≡ failed_store.execution_rows)
    × (failed_store.outbox_rows ≡ failed_store.outbox_rows)
unfolding executions outbox first_request second_request
retry_answers_example =
    retry_answers backend executions-IsExecutionTable outbox-IsOutboxTable tables-AreApart times
      times (ok zeros) (ok zeros) (lit "r1") (lit "r1") 1 (lit "26B") (lit "ann") (lit "bob")
      accepted failed_again one_case accepted_once failed_store failed_store refusing refusing
      broker failed_outcome (record (queued 1) { outbox_id = 1 }) list_tx-IsTxRunner first_request
      refl refl refl failed_call refl second_request refl
