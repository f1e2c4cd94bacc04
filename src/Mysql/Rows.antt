-- ===== src/Mysql/Rows.antt =====
-- The rows of internal/infrastructure/persistence/mysql/po and their conversions.
use case_execution.Text.{lit, str_eq, Bytes}
use case_execution.Domain.Status.{
  status_text, ExecutionStatus, wait, running, success, failed, dispatch_failed, other,
}
use case_execution.Prelude.{◌≡◌, ◌∷◌, ℕ, refl, none, some, [], Option, if◌then◌else◌}
use case_execution.Domain.Entity.{
  OutboxState, ExecutionRecord, OutboxMessage, UtCase, pending, processing, published, dead,
  other_state,
}

pub record ExecutionRow : Type 0 where
  pub execution_id : ℕ
  pub request_id : Option Bytes
  pub case_id : ℕ
  pub version : Bytes
  pub create_by : Bytes
  pub execution_status : Bytes
  pub create_at : ℕ
  pub execute_at : Option ℕ
  pub finish_at : Option ℕ

-- A conversion of a text to the status type.
abbrev pub status_of : Bytes → ExecutionStatus
status_of s =
    if str_eq s (lit "WAIT")
    then wait
    else if str_eq s (lit "RUNNING")
    then running
    else if str_eq s (lit "SUCCESS")
    then success
    else if str_eq s (lit "FAILED")
    then failed
    else if str_eq s (lit "DISPATCH_FAILED")
    then dispatch_failed
    else other s

-- NULL stands for the empty text.
abbrev pub optional_string : Bytes → Option Bytes
optional_string [] = none
optional_string (c ∷ s) = some (c ∷ s)

abbrev pub string_value : Option Bytes → Bytes
string_value none = []
string_value (some s) = s

unfoldable pub record_of_row : ExecutionRow → ExecutionRecord
record_of_row p = record {
  execution_id = p.execution_id;
  request_id = string_value p.request_id;
  case_id = p.case_id;
  version = p.version;
  create_by = p.create_by;
  status = status_of p.execution_status;
  create_at = p.create_at;
  execute_at = p.execute_at;
  finish_at = p.finish_at;
}

unfoldable pub from_execution_record : ExecutionRecord → ExecutionRow
from_execution_record r = record {
  execution_id = r.execution_id;
  request_id = optional_string r.request_id;
  case_id = r.case_id;
  version = r.version;
  create_by = r.create_by;
  execution_status = status_text r.status;
  create_at = r.create_at;
  execute_at = r.execute_at;
  finish_at = r.finish_at;
}

pub record OutboxRow : Type 0 where
  pub outbox_id : ℕ
  pub execution_id : ℕ
  pub case_id : ℕ
  pub case_name : Bytes
  pub version : Bytes
  pub state : Bytes
  pub attempts : ℕ
  pub available_at : ℕ
  pub lease_until : Option ℕ
  pub lease_token : Bytes
  pub last_error : Bytes
  pub created_at : ℕ
  pub updated_at : ℕ
  pub published_at : Option ℕ

abbrev pub state_text : OutboxState → Bytes
state_text pending = lit "PENDING"
state_text processing = lit "PROCESSING"
state_text published = lit "PUBLISHED"
state_text dead = lit "DEAD"
state_text (other_state s) = s

abbrev pub state_of : Bytes → OutboxState
state_of s =
    if str_eq s (lit "PENDING")
    then pending
    else if str_eq s (lit "PROCESSING")
    then processing
    else if str_eq s (lit "PUBLISHED")
    then published
    else if str_eq s (lit "DEAD")
    then dead
    else other_state s

unfoldable pub from_outbox_message : OutboxMessage → OutboxRow
from_outbox_message m = record {
  outbox_id = m.outbox_id;
  execution_id = m.execution_id;
  case_id = m.case_id;
  case_name = m.case_name;
  version = m.version;
  state = state_text m.state;
  attempts = m.attempts;
  available_at = m.available_at;
  lease_until = m.lease_until;
  lease_token = m.lease_token;
  last_error = m.last_error;
  created_at = m.created_at;
  updated_at = m.updated_at;
  published_at = m.published_at;
}

unfoldable pub message_of_row : OutboxRow → OutboxMessage
message_of_row p = record {
  outbox_id = p.outbox_id;
  execution_id = p.execution_id;
  case_id = p.case_id;
  case_name = p.case_name;
  version = p.version;
  state = state_of p.state;
  attempts = p.attempts;
  available_at = p.available_at;
  lease_until = p.lease_until;
  lease_token = p.lease_token;
  last_error = p.last_error;
  created_at = p.created_at;
  updated_at = p.updated_at;
  published_at = p.published_at;
}

pub record CaseRow : Type 0 where
  pub case_id : ℕ
  pub case_name : Bytes
  pub version : Bytes
  pub channel : Bytes

unfoldable pub case_of_row : CaseRow → UtCase
case_of_row p = record {
  case_id = p.case_id;
  case_name = p.case_name;
  version = p.version;
  channel = p.channel;
}

-- A status and a state with a constant of their own.
abbrev pub IsNamed : ExecutionStatus → Type 0
IsNamed (other s) = status_of s ≡ other s
IsNamed _ = Unit

abbrev pub IsNamedState : OutboxState → Type 0
IsNamedState (other_state s) = state_of s ≡ other_state s
IsNamedState _ = Unit

status_back : (s : ExecutionStatus) → IsNamed s → status_of (status_text s) ≡ s
status_back wait named = refl
status_back running named = refl
status_back success named = refl
status_back failed named = refl
status_back dispatch_failed named = refl
status_back (other s) named = named

state_back : (s : OutboxState) → IsNamedState s → state_of (state_text s) ≡ s
state_back pending named = refl
state_back processing named = refl
state_back published named = refl
state_back dead named = refl
state_back (other_state s) named = named

string_back : (s : Bytes) → string_value (optional_string s) ≡ s
string_back [] = refl
string_back (c ∷ s) = refl

-- A record that is written to its row and read back is the same record, an empty request identifier
-- going through NULL. Its status is one of the five, or another text than theirs.
record_round_trip :
    (r : ExecutionRecord) → IsNamed r.status → record_of_row (from_execution_record r) ≡ r
unfolding record_of_row from_execution_record
record_round_trip r named = rw (status_back r.status named, string_back r.request_id) refl

-- An outbox message that is written to its row and read back is the same message. Its state is one
-- of the four, or another text than theirs.
pub message_round_trip :
    (m : OutboxMessage) → IsNamedState m.state → message_of_row (from_outbox_message m) ≡ m
unfolding message_of_row from_outbox_message
message_round_trip m named = rw (state_back m.state named) refl
