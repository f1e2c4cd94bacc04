-- ===== src/Dispatch/Single.antt =====
-- ExecuteCaseWithRequest of internal/usecase/dispatch_app_service.go: one case goes into the
-- database, to the broker and back into the database.
pub mod Publishing
pub mod Retry
pub mod WriteBack
use case_execution.Prelude.{ℕ, ◌+◌, Option, none, some, [], ◌∷◌, if◌then◌else◌}
use case_execution.Text.{Bytes, lit, is_empty, str_eq}
use case_execution.Domain.Status.{ExecutionStatus, wait, dispatch_failed, no_status}
use case_execution.Domain.Errs.{
  GoError, error_text, new_case_not_exist, new_execution_not_found, new_invalid_argument,
}
use case_execution.Domain.Entity.{
  ExecutionRecord, UtCase, OutboxMessage, new_outbox_message, mark_as_dispatch_failed,
}
use case_execution.Domain.Service.{create_execution_record_for_request}
use case_execution.Dispatch.Ports.{
  ◌>>=◌, ◌>>◌, Reply, ok, err, Ctx, request, without_cancel, Action, return, fail,
}
use case_execution.Dispatch.RequestId.{normalize_request_id}
use case_execution.Dispatch.App.{App, Times, write_back_seconds, replay_dispatched_status}

-- The execution number, the status and the error that the call returns.
pub record Outcome : Type 0 where
  pub execution_id : ℕ
  pub status : ExecutionStatus
  pub error : Option GoError

abbrev pub refused : GoError → Outcome
refused e = record { execution_id = 0; status = no_status; error = some e }

-- What the first phase's function leaves in the variables that it captures.
pub record Accepted : Type 0 where
  pub accepted : ExecutionRecord
  pub case_name : Bytes
  pub message : Option OutboxMessage

abbrev pub final_status : Option GoError → ExecutionStatus
final_status none = wait
final_status (some e) = dispatch_failed

abbrev pub written_error : Reply (Unit {0}) → Option GoError
written_error (ok a) = none
written_error (err e) = some e

module _ {D Q : Type 0} (app : App D Q) where
  unfoldable pub enqueue : Times → ExecutionRecord → Bytes → Action D Accepted
  enqueue times r name = elim app.outbox_repo [
    | none ↦ return (record { accepted = r; case_name = name; message = none })
    | some outbox ↦ do
      m ← outbox.add request (new_outbox_message r name (times.enqueued + app.grace))
      return (record { accepted = r; case_name = name; message = some m })
  ]

  unfoldable pub insert_found :
      Times → Bytes → ℕ → Bytes → Bytes → Option UtCase → Action D Accepted
  unfolding enqueue
  insert_found times request_id case_id v user none = fail (new_case_not_exist case_id)
  insert_found times request_id case_id v user (some ut) = do
    r ←
        app.exec_repo.add request
          (create_execution_record_for_request (times.created 0) request_id case_id v user)
    enqueue times r ut.case_name

  -- The first phase's function.
  unfoldable pub insert_case : Times → Bytes → ℕ → Bytes → Bytes → Action D Accepted
  unfolding insert_found
  insert_case times request_id case_id v user = do
    found ← app.case_repo.find_by_id request case_id
    insert_found times request_id case_id v user found

  unfoldable pub accept_case : Times → Bytes → ℕ → Bytes → Bytes → Action D Accepted
  unfolding insert_case
  accept_case times request_id case_id v user =
      app.tx.run _ request (insert_case times request_id case_id v user)

  save_failed : ExecutionRecord → Option GoError → Ctx → Action D (Unit {0})
  save_failed r none ctx = app.exec_repo.save ctx r
  save_failed r (some e) ctx = fail e

  pub mark_found : Times → ℕ → Ctx → Option ExecutionRecord → Action D (Unit {0})
  unfolding save_failed
  mark_found times execution_id ctx none = fail (new_execution_not_found execution_id)
  mark_found times execution_id ctx (some cur) =
      let (r, e) = mark_as_dispatch_failed (times.failed_at 0) cur in save_failed r e ctx

  unfoldable pub mark_outbox_dead : ℕ → GoError → Ctx → Action D (Unit {0})
  mark_outbox_dead execution_id e ctx = elim app.outbox_repo [
    | none ↦ return tt
    | some outbox ↦ outbox.mark_dead ctx (execution_id ∷ []) [] (error_text e)
  ]

  -- The third phase's function: after an error of the broker the record and the message are failed,
  -- and otherwise the message is marked as published.
  unfoldable pub record_result : Times → ℕ → Option GoError → Ctx → Action D (Unit {0})
  unfolding mark_found mark_outbox_dead
  record_result times execution_id none ctx = elim app.outbox_repo [
    | none ↦ return tt
    | some outbox ↦ outbox.mark_published ctx (execution_id ∷ []) [] times.published
  ]
  record_result times execution_id (some e) ctx = do
    cur ← app.exec_repo.find_by_id ctx execution_id
    mark_found times execution_id ctx cur
    mark_outbox_dead execution_id e ctx

  -- The second and the third phase.
  unfoldable pub publish_case : Times → Accepted → D → Q → Outcome × D × Q
  unfolding record_result
  publish_case times a d q =
      let (mq_error, q') = app.executor.execute request a.accepted a.case_name q in
      let ctx = without_cancel write_back_seconds in
      let (written, d') =
        app.tx.run _ ctx (record_result times a.accepted.execution_id mq_error ctx) d in
      (
        record {
          execution_id = a.accepted.execution_id;
          status = final_status mq_error;
          error = written_error written;
        },
        d',
        q',
      )

  -- An earlier try of the request that was dispatched is answered from what it left.
  unfoldable pub replay_or_publish :
      Times → Accepted → Option ExecutionStatus → D → Q → Outcome × D × Q
  unfolding publish_case
  replay_or_publish times a (some status) d q =
      (record { execution_id = a.accepted.execution_id; status = status; error = none }, d, q)
  replay_or_publish times a none d q = publish_case times a d q

  after_accept : Times → Bytes → Reply Accepted × D → Q → Outcome × D × Q
  unfolding replay_or_publish
  after_accept times v (err e, d) q = (refused e, d, q)
  after_accept times v (ok a, d) q =
      if str_eq a.accepted.version v
      then replay_or_publish times a (replay_dispatched_status a.message a.accepted) d q
      else (
        record {
          execution_id = a.accepted.execution_id;
          status = no_status;
          error =
              some
                (new_invalid_argument (lit "request_id was already used with a different version"));
        },
        d,
        q,
      )

  pub execute_normalized : Times → Reply Bytes → ℕ → Bytes → Bytes → D → Q → Outcome × D × Q
  unfolding after_accept
  execute_normalized times (err e) case_id v user d q = (refused e, d, q)
  execute_normalized times (ok request_id) case_id v user d q =
      after_accept times v (accept_case times request_id case_id v user d) q

  unfoldable pub execute_case_with_request :
      Times → Reply Bytes → Bytes → ℕ → Bytes → Bytes → D → Q → Outcome × D × Q
  unfolding execute_normalized
  execute_case_with_request times random request_id case_id v user d q =
      if is_empty v
      then (refused (new_invalid_argument (lit "version is required")), d, q)
      else execute_normalized times (normalize_request_id random request_id) case_id v user d q

  unfoldable pub execute_case : Times → Reply Bytes → ℕ → Bytes → Bytes → D → Q → Outcome × D × Q
  unfolding execute_case_with_request
  execute_case times random case_id v user d q =
      execute_case_with_request times random [] case_id v user d q
