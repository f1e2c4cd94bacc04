-- ===== src/Relay/Claim.antt =====
-- The first part of DispatchOnce of internal/usecase/outbox_relay.go: the claimed messages go to the
-- broker and are sorted by its answer. Logging is left out.
pub mod Sorting
pub mod Fate
use case_execution.Text.{format_int, Bytes, lit, str_eq, is_empty}
use case_execution.Domain.Errs.{wrap, opaque, GoError}
use case_execution.Prelude.{
  some, true, lookup, length, ◌∷◌, is_nil, ◌++◌, not, none, ◌&&◌, map, ltb, false, max,
  if◌then◌else◌, assign, [], Option, Bool, List, ℕ,
}
use case_execution.Dispatch.Chunk.{with_error}
use case_execution.Dispatch.Ports.{
  UtCaseExecutorClient, ExecutionRepository, OutboxRepository, TxRunner, Reply, ok, err,
}
use case_execution.Domain.Status.{no_status, wait}
use case_execution.Domain.Entity.{
  OutboxMessage, ExecutionRecord, BatchResult, mark_as_dispatch_failed,
}
use case_execution.Relay.Config.{relay_defaults, OutboxRelayConfig}
use case_execution.Dispatch.Partition.{complete_batch_result}

-- The relay's dependencies.
pub record OutboxRelay (D Q : Type 0) : Type 1 where
  pub cfg : OutboxRelayConfig
  pub tx : TxRunner D
  pub outbox : OutboxRepository D
  pub exec_repo : ExecutionRepository D
  pub executor : UtCaseExecutorClient Q

unfoldable pub new_outbox_relay :
    {D Q : Type 0}
    → OutboxRelayConfig
    → TxRunner D
    → OutboxRepository D
    → ExecutionRepository D
    → UtCaseExecutorClient Q
    → OutboxRelay D Q
unfolding relay_defaults
new_outbox_relay cfg tx outbox exec_repo executor = record {
  cfg = relay_defaults cfg;
  tx = tx;
  outbox = outbox;
  exec_repo = exec_repo;
  executor = executor;
}

-- The error of a batch that no lease token owns, or that several own.
abbrev pub mixed_tokens : Bytes → List OutboxMessage → Bool
mixed_tokens token [] = false
mixed_tokens token (m ∷ ms) =
    let rest = mixed_tokens token ms in if str_eq m.lease_token token then rest else true

unfoldable pub token_error : OutboxMessage → List OutboxMessage → Option GoError
token_error first ms =
    if is_empty first.lease_token
    then some (opaque (lit "claimed outbox batch has an empty lease token"))
    else if mixed_tokens first.lease_token ms
    then some (opaque (lit "claimed outbox batch contains mixed lease tokens"))
    else none

-- `&entity.ExecutionRecord{ExecutionID: id}`, whose other fields are zero.
abbrev pub bare_record : ℕ → ExecutionRecord
bare_record id = record {
  execution_id = id;
  request_id = [];
  case_id = 0;
  version = [];
  create_by = [];
  status = no_status;
  create_at = 0;
  execute_at = none;
  finish_at = none;
}

-- The record of a message without attempts left, before its transition.
abbrev pub exhausted_record : ℕ → OutboxMessage → ExecutionRecord
exhausted_record id m = record (bare_record id) {
  case_id = m.case_id;
  version = m.version;
  status = wait;
}

-- The map from an execution to its message; of two messages the later one counts.
unfoldable pub message_by_id : List OutboxMessage → List (ℕ × OutboxMessage)
message_by_id ms = assign [] (map (λ m. (m.execution_id, m)) ms)

-- What becomes of the messages of a pass.
pub record Settlement : Type 0 where
  pub success_ids : List ℕ
  pub retry_ids : List ℕ
  pub dead_ids : List ℕ
  pub dead_records : List ExecutionRecord
  pub max_attempt : ℕ
  pub error_message : Bytes

bury : ℕ → Settlement → ExecutionRecord × Option GoError → Reply Settlement
bury id acc (r, none) =
    ok
      (record acc { dead_records = acc.dead_records ++ r ∷ []; dead_ids = acc.dead_ids ++ id ∷ [] })
bury id acc (r, some e) =
    err (wrap (lit "mark exhausted execution " ++ (format_int id ++ lit " DISPATCH_FAILED: ")) e [])

-- One round of the loop over the failed identifiers: a message with attempts left is retried, and
-- one without is dead. `failed_at` gives the time that the transition number so and so reads.
settle_message : ℕ → (ℕ → ℕ) → ℕ → Settlement → OutboxMessage → Reply Settlement
unfolding bury mark_as_dispatch_failed
settle_message max_attempts failed_at id acc m =
    let counted : Settlement = record acc { max_attempt = max acc.max_attempt m.attempts } in
    if ltb m.attempts max_attempts
    then ok (record counted { retry_ids = counted.retry_ids ++ id ∷ [] })
    else bury id counted
        (mark_as_dispatch_failed (failed_at (length counted.dead_ids)) (exhausted_record id m))

pub settle_failed : ℕ → (ℕ → ℕ) → List (ℕ × OutboxMessage) → Settlement → List ℕ → Reply Settlement
unfolding settle_message
settle_failed max_attempts failed_at by_id acc [] = ok acc
settle_failed max_attempts failed_at by_id acc (id ∷ ids) = elim (lookup id by_id) [
  | none ↦ settle_failed max_attempts failed_at by_id acc ids
  | some m ↦ elim (settle_message max_attempts failed_at id acc m) [
    | ok acc' ↦ settle_failed max_attempts failed_at by_id acc' ids
    | err e ↦ err e
  ]
]

-- The message of a pass in which some message failed without a reason.
abbrev pub unconfirmed : BatchResult → BatchResult
unconfirmed result =
    if is_empty result.error_message && not (is_nil result.failed_ids)
    then record result { error_message = lit "outbox publish was not confirmed" }
    else result

-- The broker's result, completed for the messages and with its error.
unfoldable pub relay_result : List OutboxMessage → BatchResult → Option GoError → BatchResult
unfolding complete_batch_result
relay_result ms raw e =
    unconfirmed
      (with_error e (complete_batch_result (map (λ m. bare_record m.execution_id) ms) raw))

-- The variables of the loop at its start.
abbrev pub unsettled : BatchResult → Settlement
unsettled result = record {
  success_ids = result.success_ids;
  retry_ids = [];
  dead_ids = [];
  dead_records = [];
  max_attempt = 1;
  error_message = result.error_message;
}

unfoldable pub settle : ℕ → (ℕ → ℕ) → List OutboxMessage → BatchResult → Reply Settlement
unfolding settle_failed message_by_id
settle max_attempts failed_at ms result =
    settle_failed max_attempts failed_at (message_by_id ms) (unsettled result) result.failed_ids
