-- ===== src/Dispatch/App.antt =====
-- The application service of internal/usecase/dispatch_app_service.go: its parts, and the helpers
-- that both the single and the batch dispatch call. Logging is left out.
use case_execution.Prelude.{ℕ, Option, none, some, ◌++◌, if◌then◌else◌}
use case_execution.Text.{Bytes, lit, is_empty}
use case_execution.Domain.Status.{ExecutionStatus, wait, running, success, failed, dispatch_failed}
use case_execution.Domain.Entity.{ExecutionRecord, OutboxMessage, replay_status}
use case_execution.Dispatch.Ports.{
  TxRunner, UtCaseRepository, ExecutionRepository, OutboxRepository, UtCaseExecutorClient,
}

-- The service's dependencies, and the delay after which the relay may take a message over. The
-- outbox is `none` where WithOutbox was not called.
pub record App (D Q : Type 0) : Type 1 where
  pub grace : ℕ
  pub tx : TxRunner D
  pub case_repo : UtCaseRepository D
  pub exec_repo : ExecutionRepository D
  pub outbox_repo : Option (OutboxRepository D)
  pub executor : UtCaseExecutorClient Q

-- What one call reads from time.Now: at the creation of each record, before the outbox messages, at
-- the transition of each failed record, and before the write-back.
pub record Times : Type 0 where
  pub created : ℕ → ℕ
  pub enqueued : ℕ
  pub failed_at : ℕ → ℕ
  pub published : ℕ

-- The write-back runs without the caller's cancellation, for five seconds at most.
abbrev pub write_back_seconds : ℕ
write_back_seconds = 5

-- Without an outbox message the record's own status tells whether it was dispatched.
abbrev status_replay : ExecutionStatus → Option ExecutionStatus
status_replay dispatch_failed = some dispatch_failed
status_replay failed = some wait
status_replay running = some wait
status_replay success = some wait
status_replay _ = none

-- `none` is the result `"", false`.
unfoldable pub replay_dispatched_status :
    Option OutboxMessage → ExecutionRecord → Option ExecutionStatus
unfolding replay_status
replay_dispatched_status (some message) r = replay_status message
replay_dispatched_status none r = status_replay r.status

unfoldable pub append_error_message : Bytes → Bytes → Bytes
append_error_message current next = if is_empty current then next else current ++ (lit "; " ++ next)
