-- ===== src/Domain/Entity/Outbox.antt =====
-- The outbox message, internal/domain/entity/outbox_message.go; the task for the broker,
-- execution_task.go; the case, ut_case.go; and the result of a batch, internal/domain/vo.
use case_execution.Prelude.{ℕ, Option, none, some, List, [], ◌∷◌, lookup}
use case_execution.Text.{Bytes}
use case_execution.Domain.Status.{ExecutionStatus, wait, dispatch_failed}
use case_execution.Domain.Entity.Record.{ExecutionRecord}

pub record UtCase : Type 0 where
  pub case_id : ℕ
  pub case_name : Bytes
  pub version : Bytes
  pub channel : Bytes

pub record ExecutionTask : Type 0 where
  pub execution_id : ℕ
  pub case_id : ℕ
  pub case_name : Bytes
  pub version : Bytes

pub record BatchResult : Type 0 where
  pub success_ids : List ℕ
  pub failed_ids : List ℕ
  pub error_message : Bytes

-- A record whose case has no name is skipped.
unfoldable pub batch_assemble : List ExecutionRecord → List (ℕ × Bytes) → List ExecutionTask
batch_assemble [] names = []
batch_assemble (r ∷ rs) names =
    let rest = batch_assemble rs names in
    elim (lookup r.case_id names) [
      | none ↦ rest
      | some name ↦
          record {
            execution_id = r.execution_id;
            case_id = r.case_id;
            case_name = name;
            version = r.version;
          }
          ∷ rest
    ]

pub data OutboxState : Type 0 where
  pending processing published dead : OutboxState
  other_state : Bytes → OutboxState

pub record OutboxMessage : Type 0 where
  pub outbox_id : ℕ
  pub execution_id : ℕ
  pub case_id : ℕ
  pub case_name : Bytes
  pub version : Bytes
  pub state : OutboxState
  pub attempts : ℕ
  pub available_at : ℕ
  pub lease_until : Option ℕ
  pub lease_token : Bytes
  pub last_error : Bytes
  pub created_at : ℕ
  pub updated_at : ℕ
  pub published_at : Option ℕ

-- Fields that the code does not name have their zero value.
unfoldable pub new_outbox_message : ExecutionRecord → Bytes → ℕ → OutboxMessage
new_outbox_message r name available_at = record {
  outbox_id = 0;
  execution_id = r.execution_id;
  case_id = r.case_id;
  case_name = name;
  version = r.version;
  state = pending;
  attempts = 0;
  available_at = available_at;
  lease_until = none;
  lease_token = [];
  last_error = [];
  created_at = 0;
  updated_at = 0;
  published_at = none;
}

unfoldable pub task : OutboxMessage → ExecutionTask
task m = record {
  execution_id = m.execution_id;
  case_id = m.case_id;
  case_name = m.case_name;
  version = m.version;
}

abbrev pub replay_state : OutboxState → Option ExecutionStatus
replay_state dead = some dispatch_failed
replay_state published = some wait
replay_state processing = some wait
replay_state _ = none

-- `none` is the result `"", false`.
unfoldable pub replay_status : OutboxMessage → Option ExecutionStatus
replay_status m = replay_state m.state
