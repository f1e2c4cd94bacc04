-- ===== src/Grpc/Handler.antt =====
-- ExecuteCase of internal/infrastructure/grpcserver/handler.go.
use case_execution.Prelude.{
  Bool-cases, inr, inl, ◌⊎◌, true, false, ◌≡◌, Option, none, some, pos_part, non_positive, ℤ, ℕ,
  refl, if◌then◌else◌,
}
use case_execution.Dispatch.RequestId.{normalize_twice, IsRandom, new_version, normalize_request_id}
use case_execution.Domain.Errs.{GoError}
use case_execution.Dispatch.Single.{execute_normalized, Outcome, execute_case_with_request}
use case_execution.Text.{is_empty, lit, Bytes}
use case_execution.Dispatch.Ports.{ok, err, Reply}
use case_execution.Grpc.Errors.{
  to_pb_dispatch_status, to_grpc_err, GrpcStatus, invalid_argument_code, DispatchStatus,
}
use case_execution.Dispatch.App.{Times, App}

pub record ExecuteCaseRequest : Type 0 where
  pub case_id : ℤ
  pub version : Bytes
  pub user : Bytes
  pub request_id : Bytes

pub record ExecuteCaseResponse : Type 0 where
  pub execution_id : ℕ
  pub status : DispatchStatus
  pub request_id : Bytes

-- A response or a status.
pub data Answer : Type 0 where
  response : ExecuteCaseResponse → Answer
  refusal : Option GrpcStatus → Answer

abbrev case_id_required : Answer
case_id_required =
    refusal (some (record { code = invalid_argument_code; message = lit "case_id is required" }))

abbrev pub answer_of : Bytes → Outcome → Answer
answer_of request_id outcome = elim outcome.error [
  | some e ↦ refusal (to_grpc_err (some e))
  | none ↦ response (record {
    execution_id = outcome.execution_id;
    status = to_pb_dispatch_status outcome.status;
    request_id = request_id;
  })
]

module _ {D Q : Type 0} (app : App D Q) where
  -- The call of the application service under a normalised identifier, which it normalises again.
  call_app : Times → Reply Bytes → Reply Bytes → ExecuteCaseRequest → ℕ → D → Q → Answer × D × Q
  unfolding execute_case_with_request new_version to_grpc_err
  call_app times random (err e) req case_id d q = (refusal (to_grpc_err (some e)), d, q)
  call_app times random (ok request_id) req case_id d q =
      let (outcome, d', q') =
        execute_case_with_request app times random request_id case_id (new_version req.version)
          req.user d q in
      (answer_of request_id outcome, d', q')

  -- A request that is nil is `none`. The two readings of the random source are of the two calls of
  -- NormalizeRequestID.
  unfoldable pub handle_execute_case :
      Times → Reply Bytes → Reply Bytes → Option ExecuteCaseRequest → D → Q → Answer × D × Q
  unfolding call_app normalize_request_id
  handle_execute_case times random again none d q = (case_id_required, d, q)
  handle_execute_case times random again (some req) d q =
      if non_positive req.case_id
      then (case_id_required, d, q)
      else call_app times again (normalize_request_id random req.request_id) req
          (pos_part req.case_id) d q

  -- A request without a positive case, or whose identifier is not valid, is answered with an error and
  -- reaches neither the database nor the broker.
  pub handle_refuses :
      (times : Times) (random again : Reply Bytes) (req : ExecuteCaseRequest) (d : D) (q : Q)
      → ((non_positive req.case_id ≡ true)
          ⊎ ((e : GoError) × (normalize_request_id random req.request_id ≡ err e)))
      → let (answer, d', q') = handle_execute_case times random again (some req) d q in
        ((s : GrpcStatus) × (answer ≡ refusal (some s))) × (d' ≡ d) × (q' ≡ q)
  unfolding handle_execute_case call_app to_grpc_err
  handle_refuses times random again req d q (inl bad) = rw bad ((_, refl), refl, refl)
  handle_refuses times random again req d q (inr (e, failed)) =
      elim (Bool-cases (non_positive req.case_id)) [
        | inl bad ↦ rw bad ((_, refl), refl, refl)
        | inr good ↦ rw (good, failed) ((_, refl), refl, refl)
      ]

  -- A request with a case and a version is executed under the one identifier that the answer names:
  -- the second normalisation, in the application service, changes nothing and draws no other.
  pub handle_one_identifier :
      (times : Times) (random again : Reply Bytes) (req : ExecuteCaseRequest) (request_id : Bytes)
      (d : D) (q : Q)
      → IsRandom random
      → normalize_request_id random req.request_id ≡ ok request_id
      → non_positive req.case_id ≡ false
      → is_empty (new_version req.version) ≡ false
      → let (outcome, d', q') =
          execute_normalized app times
            (ok request_id)
            (pos_part req.case_id)
            (new_version req.version)
            req.user
            d
            q in
        handle_execute_case times random again (some req) d q
        ≡ (answer_of request_id outcome, d', q')
  unfolding handle_execute_case call_app execute_case_with_request
  handle_one_identifier times random again req request_id d q drawn normal good present =
      let (_, still) = normalize_twice random again req.request_id request_id drawn normal in
      rw (good, normal) (rw (present, still) refl)
