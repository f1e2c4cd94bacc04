-- ===== src/Dispatch/Single/Retry.antt =====
-- ExecuteCaseWithRequest of internal/usecase/dispatch_app_service.go on a request that is valid and
-- accepted.
use case_execution.Dispatch.Ports.{Reply, ok}
use case_execution.Dispatch.Single.{
  Outcome, Accepted, accept_case, replay_or_publish, execute_case_with_request,
}
use case_execution.Prelude.{ℕ, ◌≡◌, true, false}
use case_execution.Text.{Bytes, is_empty, str_eq}
use case_execution.Dispatch.RequestId.{normalize_request_id}
use case_execution.Dispatch.App.{App, Times, replay_dispatched_status}

-- The request is valid and its record has the request's version; the database is then in this state.
pub record IsAccepted {D Q : Type 0} (app : App D Q) (times : Times) (random : Reply Bytes)
    (raw : Bytes) (case_id : ℕ) (v user : Bytes) (d : D) (a : Accepted) (committed : D)
    : Type 0 where
  pub request_id : Bytes
  pub has_version : is_empty v ≡ false
  pub normalized : normalize_request_id random raw ≡ ok request_id
  pub inserted : accept_case app times request_id case_id v user d ≡ (ok a, committed)
  pub same_version : str_eq a.accepted.version v ≡ true

module _ {D Q : Type 0} (app : App D Q) (times : Times) (random : Reply Bytes) (raw : Bytes)
    (case_id : ℕ) (v user : Bytes) (d : D) (a : Accepted) (committed : D)
    (valid : IsAccepted app times random raw case_id v user d a committed) (q : Q) where
  abbrev pub result : Outcome × D × Q
  result = execute_case_with_request app times random raw case_id v user d q

  pub accepted_lem :
      result
      ≡ replay_or_publish app times a (replay_dispatched_status a.message a.accepted) committed q
  unfolding execute_case_with_request
  accepted_lem = rw (valid.has_version, valid.normalized, valid.inserted, valid.same_version)
