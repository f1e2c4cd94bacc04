-- ===== src/Domain/Errs.antt =====
-- internal/domain/errs/errors.go, with the error values that the other packages wrap.
use case_execution.Prelude.{ℕ, Bool, true, false, [], ◌++◌}
use case_execution.Text.{Bytes, lit, format_int}

-- The values that errors.Is compares with.
pub data Sentinel : Type 0 where
  canceled deadline_exceeded : Sentinel
  case_not_exist execution_not_found illegal_status_transition invalid_argument : Sentinel
  client_closed confirm_timeout : Sentinel

-- An error is a sentinel, an error of other code with its text, or a `%w` around another.
pub data GoError : Type 0 where
  sentinel : Sentinel → GoError
  opaque : Bytes → GoError
  wrap : Bytes → GoError → Bytes → GoError

abbrev pub sentinel_eq : Sentinel → Sentinel → Bool
sentinel_eq canceled canceled = true
sentinel_eq deadline_exceeded deadline_exceeded = true
sentinel_eq case_not_exist case_not_exist = true
sentinel_eq execution_not_found execution_not_found = true
sentinel_eq illegal_status_transition illegal_status_transition = true
sentinel_eq invalid_argument invalid_argument = true
sentinel_eq client_closed client_closed = true
sentinel_eq confirm_timeout confirm_timeout = true
sentinel_eq _ _ = false

-- errors.Is.
unfoldable pub is_err : GoError → Sentinel → Bool
is_err (sentinel s) t = sentinel_eq s t
is_err (opaque m) t = false
is_err (wrap before e after) t = is_err e t

sentinel_text : Sentinel → Bytes
sentinel_text canceled = lit "context canceled"
sentinel_text deadline_exceeded = lit "context deadline exceeded"
sentinel_text case_not_exist = lit "case not exist"
sentinel_text execution_not_found = lit "execution record not found"
sentinel_text illegal_status_transition = lit "illegal execution status transition"
sentinel_text invalid_argument = lit "invalid argument"
sentinel_text client_closed = lit "rabbitmq client closed"
sentinel_text confirm_timeout = lit "publisher confirm timed out"

-- The Error method.
unfoldable pub error_text : GoError → Bytes
unfolding sentinel_text
error_text (sentinel s) = sentinel_text s
error_text (opaque m) = m
error_text (wrap before e after) = before ++ (error_text e ++ after)

unfoldable pub new_case_not_exist : ℕ → GoError
new_case_not_exist case_id =
    wrap [] (sentinel case_not_exist) (lit ": caseID=" ++ format_int case_id)

unfoldable pub new_execution_not_found : ℕ → GoError
new_execution_not_found execution_id =
    wrap [] (sentinel execution_not_found) (lit ": executionID=" ++ format_int execution_id)

unfoldable pub new_illegal_status_transition : ℕ → Bytes → Bytes → GoError
new_illegal_status_transition execution_id from to =
    wrap [] (sentinel illegal_status_transition)
      (lit ": executionID=" ++ (format_int execution_id ++ (lit " " ++ (from ++ (lit "->" ++ to)))))

unfoldable pub new_invalid_argument : Bytes → GoError
new_invalid_argument msg = wrap [] (sentinel invalid_argument) (lit ": " ++ msg)
