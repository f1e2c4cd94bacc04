-- ===== src/Domain/Entity/Record.antt =====
-- The aggregate of one execution, internal/domain/entity/execution_record.go. Identifiers are the
-- keys that the database counts up from 1, so they are numbers; a time is a number too. What the
-- code reads from time.Now is an argument.
use case_execution.Prelude.{ℕ, Option, none, some, [], if◌then◌else◌}
use case_execution.Text.{Bytes}
use case_execution.Domain.Status.{
  ExecutionStatus, wait, running, failed, dispatch_failed, status_text, is_terminal, can_transit_to,
}
use case_execution.Domain.Errs.{GoError, new_illegal_status_transition}

pub record ExecutionRecord : Type 0 where
  pub execution_id : ℕ
  pub request_id : Bytes
  pub case_id : ℕ
  pub version : Bytes
  pub create_by : Bytes
  pub status : ExecutionStatus
  pub create_at : ℕ
  pub execute_at : Option ℕ
  pub finish_at : Option ℕ

-- The database fills in the key, which is 0 until then.
unfoldable pub new_execution_record_for_request : ℕ → Bytes → ℕ → Bytes → Bytes → ExecutionRecord
new_execution_record_for_request now request_id case_id v user = record {
  execution_id = 0;
  request_id = request_id;
  case_id = case_id;
  version = v;
  create_by = user;
  status = wait;
  create_at = now;
  execute_at = none;
  finish_at = none;
}

unfoldable pub new_execution_record : ℕ → ℕ → Bytes → Bytes → ExecutionRecord
unfolding new_execution_record_for_request
new_execution_record now case_id v user = new_execution_record_for_request now [] case_id v user

-- `transit` with the record that it leaves and the error that it returns.
unfoldable pub transit : ℕ → ExecutionRecord → ExecutionStatus → ExecutionRecord × Option GoError
transit now r next =
    if can_transit_to r.status next
    then (
      if is_terminal next
          then record r { status = next; finish_at = some now }
          else record r { status = next },
      none,
    )
    else (
      r,
      some (new_illegal_status_transition r.execution_id (status_text r.status) (status_text next)),
    )

unfoldable pub mark_as_dispatch_failed : ℕ → ExecutionRecord → ExecutionRecord × Option GoError
unfolding transit
mark_as_dispatch_failed now r = transit now r dispatch_failed

unfoldable pub mark_as_failed : ℕ → ExecutionRecord → ExecutionRecord × Option GoError
unfolding transit
mark_as_failed now r = transit now r failed

-- The first time is read before the transition, the second inside it.
unfoldable pub mark_as_running : ℕ → ℕ → ExecutionRecord → ExecutionRecord × Option GoError
unfolding transit
mark_as_running now later r =
    let (moved, e) = transit later r running in
    elim e [ some err ↦ (moved, some err) | none ↦ (record moved { execute_at = some now }, none) ]
