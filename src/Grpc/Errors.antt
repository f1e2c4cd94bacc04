-- ===== src/Grpc/Errors.antt =====
-- toGRPCErr and toPbDispatchStatus of internal/infrastructure/grpcserver/handler.go.
use case_execution.Prelude.{ap, Option, none, some, ◌≡◌, refl, if◌then◌else◌}
use case_execution.Domain.Status.{wait, dispatch_failed, ExecutionStatus}
use case_execution.Domain.Errs.{
  sentinel, opaque, wrap, canceled, deadline_exceeded, case_not_exist, execution_not_found,
  illegal_status_transition, invalid_argument, client_closed, confirm_timeout, Sentinel, error_text,
  GoError, is_err,
}
use case_execution.Text.{Bytes}

-- The codes that the handlers answer with.
pub data Code : Type 0 where
  canceled_code deadline_code not_found failed_precondition invalid_argument_code internal : Code

pub record GrpcStatus : Type 0 where
  pub code : Code
  pub message : Bytes

-- The switch, in its order.
abbrev pub code_of : GoError → Code
code_of e =
    if is_err e canceled
    then canceled_code
    else if is_err e deadline_exceeded
    then deadline_code
    else if is_err e case_not_exist
    then not_found
    else if is_err e execution_not_found
    then not_found
    else if is_err e illegal_status_transition
    then failed_precondition
    else if is_err e invalid_argument
    then invalid_argument_code
    else internal

unfoldable pub to_grpc_err : Option GoError → Option GrpcStatus
unfolding error_text
to_grpc_err none = none
to_grpc_err (some e) = some (record { code = code_of e; message = error_text e })

pub data DispatchStatus : Type 0 where
  unspecified_status wait_status failed_status : DispatchStatus

unfoldable pub to_pb_dispatch_status : ExecutionStatus → DispatchStatus
to_pb_dispatch_status wait = wait_status
to_pb_dispatch_status dispatch_failed = failed_status
to_pb_dispatch_status _ = unspecified_status

-- The sentinel at the end of the wraps; every error has one or none.
abbrev pub root : GoError → Option Sentinel
root (sentinel s) = some s
root (opaque m) = none
root (wrap before e after) = root e

-- The code that the sentinels stand for.
abbrev pub root_code : Option Sentinel → Code
root_code (some canceled) = canceled_code
root_code (some deadline_exceeded) = deadline_code
root_code (some case_not_exist) = not_found
root_code (some execution_not_found) = not_found
root_code (some illegal_status_transition) = failed_precondition
root_code (some invalid_argument) = invalid_argument_code
root_code _ = internal

code_of-root : (e : GoError) → code_of e ≡ root_code (root e)
unfolding is_err
code_of-root (sentinel canceled) = refl
code_of-root (sentinel deadline_exceeded) = refl
code_of-root (sentinel case_not_exist) = refl
code_of-root (sentinel execution_not_found) = refl
code_of-root (sentinel illegal_status_transition) = refl
code_of-root (sentinel invalid_argument) = refl
code_of-root (sentinel client_closed) = refl
code_of-root (sentinel confirm_timeout) = refl
code_of-root (opaque m) = refl
code_of-root (wrap before e after) = code_of-root e

-- The code depends on the innermost error alone, however often it has been wrapped: an error of the
-- domain or of the context keeps its own code, and any other is internal. The message is the whole
-- text of the error.
pub to_grpc_err_lem :
    (e : GoError)
    → to_grpc_err (some e) ≡ some (record { code = root_code (root e); message = error_text e })
unfolding to_grpc_err
to_grpc_err_lem e = ap (λ c. some (record { code = c; message = error_text e })) (code_of-root e)
