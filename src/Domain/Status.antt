-- ===== src/Domain/Status.antt =====
-- The execution status and its state machine, internal/domain/vo/execution_status.go.
pub mod Paths
use case_execution.Prelude.{Bool, true, false, ◌||◌, []}
use case_execution.Text.{Bytes, lit, str_eq}

-- The Go type is a string: a text that is none of the five constants is `other`.
pub data ExecutionStatus : Type 0 where
  wait running success failed dispatch_failed : ExecutionStatus
  other : Bytes → ExecutionStatus

-- The zero value, "".
abbrev pub no_status : ExecutionStatus
no_status = other []

abbrev pub status_text : ExecutionStatus → Bytes
status_text wait = lit "WAIT"
status_text running = lit "RUNNING"
status_text success = lit "SUCCESS"
status_text failed = lit "FAILED"
status_text dispatch_failed = lit "DISPATCH_FAILED"
status_text (other s) = s

-- Go's `==` on the type.
abbrev pub status_eq : ExecutionStatus → ExecutionStatus → Bool
status_eq wait wait = true
status_eq running running = true
status_eq success success = true
status_eq failed failed = true
status_eq dispatch_failed dispatch_failed = true
status_eq (other s) (other t) = str_eq s t
status_eq _ _ = false

unfoldable pub is_terminal : ExecutionStatus → Bool
is_terminal s = status_eq s success || status_eq s failed || status_eq s dispatch_failed

unfoldable pub can_transit_to : ExecutionStatus → ExecutionStatus → Bool
can_transit_to wait next =
    status_eq next running
    || status_eq next failed
    || status_eq next success
    || status_eq next dispatch_failed
can_transit_to running next = status_eq next success || status_eq next failed
can_transit_to _ next = false

-- The diagram of the comment on CanTransitTo.
pub data Edge : ExecutionStatus → ExecutionStatus → Type 0 where
  start : Edge wait running
  wait_success : Edge wait success
  wait_failed : Edge wait failed
  wait_dispatch_failed : Edge wait dispatch_failed
  finish : Edge running success
  fail : Edge running failed

pub data Reach (s : ExecutionStatus) : ExecutionStatus → Type 0 where
  here : Reach s s
  next : {t u : ExecutionStatus} → Reach s t → Edge t u → Reach s u
