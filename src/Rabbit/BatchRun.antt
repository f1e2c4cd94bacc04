-- ===== src/Rabbit/BatchRun.antt =====
-- BatchRun and Execute of internal/infrastructure/mq/rabbitmq/executor_client.go, on a borrowed
-- channel. Logging is left out.
pub mod Partition
use case_execution.Prelude.{
  ◌||◌, contains, not, suc, true, ◌++◌, false, is_nil, [], some, none, Bool, map, Option, List, ◌∷◌,
  ℕ, if◌then◌else◌,
}
use case_execution.Text.{format_int, is_empty, lit, Bytes}
use case_execution.Dispatch.Partition.{keep}
use case_execution.Domain.Errs.{opaque, error_text, GoError}
use case_execution.Rabbit.Confirms.{pending_ids, Event, Pending, wait_confirms}
use case_execution.Domain.Entity.{BatchResult, ExecutionRecord, ExecutionTask}
use case_execution.Dispatch.Ports.{Reply, ok, err}

-- What the channel and the context do during one batch: the error of the context before task number
-- so and so, the error of the encoding of a task, that of its publication, the next sequence number
-- at the start, which each publication counts up, and the events that arrive afterwards.
pub record Channel : Type 0 where
  pub context_error : ℕ → Option GoError
  pub marshal_error : ExecutionTask → Option GoError
  pub publish_error : ExecutionTask → Option GoError
  pub next_seq : ℕ
  pub events : List Event

pub data Attempt : Type 0 where
  sent skipped : Attempt
  stopped : GoError → Bool → Attempt

-- One round of the loop: the publication stops, and breaks the channel or not; the task is skipped;
-- or it is sent.
attempt : Channel → ℕ → ExecutionTask → Attempt
attempt ch i t = elim (ch.context_error i) [
  | some e ↦ stopped e false
  | none ↦ elim (ch.marshal_error t) [
    | some e ↦ skipped
    | none ↦ elim (ch.publish_error t) [ some e ↦ stopped e true | none ↦ sent ]
  ]
]

pub record Publication : Type 0 where
  pub seq_to_id : Pending
  pub error : Option GoError
  pub broken : Bool

abbrev stop : GoError → Bool → Publication
stop e broken = record { seq_to_id = []; error = some e; broken = broken }

abbrev add_sent : ℕ → ℕ → Publication → Publication
add_sent seq id p = record p { seq_to_id = (seq, id) ∷ p.seq_to_id }

-- The loop, from task number `i` and the sequence number on.
unfoldable pub publish_loop : Channel → ℕ → ℕ → List ExecutionTask → Publication
unfolding attempt
publish_loop ch i seq [] = record { seq_to_id = []; error = none; broken = false }
publish_loop ch i seq (t ∷ ts) = elim (attempt ch i t) [
  | stopped e broken ↦ stop e broken
  | skipped ↦ publish_loop ch (suc i) seq ts
  | sent ↦ add_sent seq t.execution_id (publish_loop ch (suc i) (suc seq) ts)
]

abbrev pub task_ids : List ExecutionTask → List ℕ
task_ids = map (λ t. t.execution_id)

unfoldable pub failed_all : List ExecutionTask → Bytes → BatchResult
failed_all ts msg = record { success_ids = []; failed_ids = task_ids ts; error_message = msg }

abbrev unconfirmed_text : List ℕ → Bytes
unconfirmed_text failed =
    if is_nil failed then [] else lit "one or more messages were nack'd, returned, or unconfirmed"

abbrev batch_text : Option GoError → List ℕ → Bytes
batch_text (some e) failed = error_text e
batch_text none failed = unconfirmed_text failed

-- What follows the loop: the tasks that were not published are failures too. The last part tells
-- whether the channel is broken.
unfoldable pub collect :
    Channel → List ExecutionTask → Publication → BatchResult × Option GoError × Bool
unfolding wait_confirms
collect ch ts p =
    let published_ids = pending_ids p.seq_to_id in
    let (success, failed, broken) = wait_confirms ch.events p.seq_to_id in
    let failed_ids = failed ++ keep (λ id. not (contains published_ids id)) (task_ids ts) in
    (
      record {
        success_ids = success;
        failed_ids = failed_ids;
        error_message = batch_text p.error failed_ids;
      },
      p.error,
      p.broken || broken,
    )

-- `borrowed` is the result of borrow.
unfoldable pub batch_run : Reply Channel → List ExecutionTask → BatchResult × Option GoError × Bool
unfolding collect publish_loop failed_all
batch_run borrowed [] =
    (record { success_ids = []; failed_ids = []; error_message = [] }, none, false)
batch_run (err e) (t ∷ ts) = (failed_all (t ∷ ts) (error_text e), some e, false)
batch_run (ok ch) (t ∷ ts) = collect ch (t ∷ ts) (publish_loop ch 0 ch.next_seq (t ∷ ts))

abbrev execute_error : BatchResult × Option GoError × Bool → Option GoError
execute_error (result, some e, broken) = some e
execute_error (result, none, broken) = elim result.failed_ids [
  | [] ↦ none
  | id ∷ _ ↦
      if is_empty result.error_message
      then some (opaque (lit "execution_id=" ++ (format_int id ++ lit ": publish nack'd")))
      else some (opaque result.error_message)
]

unfoldable pub execute : Reply Channel → ExecutionRecord → Bytes → Option GoError
unfolding batch_run
execute borrowed r name = execute_error (
    batch_run borrowed (
      record {
        execution_id = r.execution_id;
        case_id = r.case_id;
        case_name = name;
        version = r.version;
      }
      ∷ []))
