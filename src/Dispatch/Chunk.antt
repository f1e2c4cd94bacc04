-- ===== src/Dispatch/Chunk.antt =====
-- dispatchOneBatch of internal/usecase/dispatch_app_service.go: one chunk of a batch goes into the
-- database, to the broker and back into the database.
pub mod Replay
pub mod Conservation
use case_execution.Prelude.{
  ℕ, ◌+◌, ◌%◌, Option, none, some, List, [], ◌∷◌, ◌++◌, length, lookup, if◌then◌else◌,
}
use case_execution.Text.{Bytes, lit, is_empty, str_eq}
use case_execution.Domain.Status.{ExecutionStatus, dispatch_failed, status_eq}
use case_execution.Domain.Errs.{GoError, error_text}
use case_execution.Domain.Entity.{
  ExecutionRecord, UtCase, BatchResult, OutboxMessage, batch_assemble, new_outbox_message,
}
use case_execution.Domain.Service.{create_batch_records_for_request, dispatch_batch}
use case_execution.Dispatch.Partition.{complete_batch_result}
use case_execution.Dispatch.Ports.{
  ◌>>=◌, ◌>>◌, Reply, ok, err, Ctx, request, without_cancel, Action, return, OutboxRepository,
}
use case_execution.Dispatch.App.{
  App, Times, write_back_seconds, replay_dispatched_status, append_error_message,
}

pub record IndexedBatch : Type 0 where
  pub index : ℕ
  pub cases : List UtCase

-- internal/usecase/progress.go; the counts are int32.
pub record Progress : Type 0 where
  pub chunk_index : ℕ
  pub chunk_size : ℕ
  pub success_ids : List ℕ
  pub failed_ids : List ℕ
  pub total_dispatched : ℕ
  pub total_planned : ℕ
  pub chunk_error : Bytes

-- A conversion to int32, as a bit pattern.
abbrev pub int32 : ℕ → ℕ
int32 n = n % 4294967296

abbrev pub name_of : ℕ → List (ℕ × Bytes) → Bytes
name_of k names = elim (lookup k names) [ none ↦ [] | some n ↦ n ]

-- A missing name reads as the empty text.
new_messages : List (ℕ × Bytes) → ℕ → List ExecutionRecord → List OutboxMessage
new_messages names available_at [] = []
new_messages names available_at (r ∷ rs) =
    new_outbox_message r (name_of r.case_id names) available_at ∷ new_messages names available_at rs

-- What the loop of the second phase leaves: the records still to publish and the outcomes replayed
-- so far, or nothing where a record has another version.
pub record Replayed : Type 0 where
  pub pending_records : List ExecutionRecord
  pub success_ids : List ℕ
  pub failed_ids : List ℕ

abbrev pub head_message : List OutboxMessage → Option OutboxMessage
head_message [] = none
head_message (m ∷ ms) = some m

abbrev pub tail_messages : List OutboxMessage → List OutboxMessage
tail_messages [] = []
tail_messages (m ∷ ms) = ms

abbrev pub absorb : ExecutionRecord → Option ExecutionStatus → Replayed → Replayed
absorb r none acc = record acc { pending_records = acc.pending_records ++ r ∷ [] }
absorb r (some status) acc =
    if status_eq status dispatch_failed
    then record acc { failed_ids = acc.failed_ids ++ r.execution_id ∷ [] }
    else record acc { success_ids = acc.success_ids ++ r.execution_id ∷ [] }

unfoldable pub replay_loop :
    Bytes → List ExecutionRecord → List OutboxMessage → Replayed → Option Replayed
replay_loop v [] ms acc = some acc
replay_loop v (r ∷ rs) ms acc =
    let rest =
      replay_loop v rs (tail_messages ms)
        (absorb r (replay_dispatched_status (head_message ms) r) acc) in
    if str_eq r.version v then rest else none

abbrev pub nothing_replayed : Replayed
nothing_replayed = record { pending_records = []; success_ids = []; failed_ids = [] }

-- An error of the whole batch gives the message only where the result has none.
abbrev pub with_error : Option GoError → BatchResult → BatchResult
with_error none result = result
with_error (some e) result =
    if is_empty result.error_message then record result { error_message = error_text e } else result

abbrev pub write_back_error : Reply (Unit {0}) → Bytes → Bytes
write_back_error (ok a) message = message
write_back_error (err e) message =
    append_error_message message (lit "status write-back failed: " ++ error_text e)

abbrev pub progress_of : IndexedBatch → List ℕ → List ℕ → Bytes → Progress
progress_of batch success_ids failed_ids message = record {
  chunk_index = batch.index;
  chunk_size = int32 (length batch.cases);
  success_ids = success_ids;
  failed_ids = failed_ids;
  total_dispatched = 0;
  total_planned = 0;
  chunk_error = message;
}

module _ {D Q : Type 0} (app : App D Q) where
  add_messages :
      OutboxRepository D
      → List (ℕ × Bytes)
      → ℕ
      → List ExecutionRecord
      → Action D (List ExecutionRecord × List OutboxMessage)
  unfolding new_messages
  add_messages outbox names enqueued rs = do
    ms ← outbox.batch_add request (new_messages names (enqueued + app.grace) rs)
    return (rs, ms)

  -- The first phase's function: the records, and the outbox messages where there is an outbox.
  insert_batch :
      List ExecutionRecord
      → List (ℕ × Bytes)
      → ℕ
      → Action D (List ExecutionRecord × List OutboxMessage)
  unfolding add_messages
  insert_batch records names enqueued = do
    rs ← app.exec_repo.batch_add request records
    elim app.outbox_repo [
      | none ↦ return (rs, [])
      | some outbox ↦ add_messages outbox names enqueued rs
    ]

  unfoldable pub phase_one :
      Times
      → IndexedBatch
      → Bytes
      → Bytes
      → Bytes
      → Action D (List ExecutionRecord × List OutboxMessage)
  unfolding insert_batch
  phase_one times batch request_id v user =
      let (records, names) =
        create_batch_records_for_request times.created request_id batch.cases v user in
      app.tx.run _ request (insert_batch records names times.enqueued)

  -- The broker is called only for records that are still to be published.
  publish_pending : List ExecutionRecord → List (ℕ × Bytes) → Q → BatchResult × Option GoError × Q
  publish_pending [] names q =
      (record { success_ids = []; failed_ids = []; error_message = [] }, none, q)
  publish_pending (r ∷ rs) names q =
      let (result, e, q') = app.executor.batch_run request (batch_assemble (r ∷ rs) names) q in
      (complete_batch_result (r ∷ rs) result, e, q')

  -- The third phase's function.
  write_back : Times → List ExecutionRecord → BatchResult → Ctx → Action D (Unit {0})
  write_back times records result ctx = do
    app.exec_repo.batch_update_status ctx records
    elim app.outbox_repo [
      | none ↦ return tt
      | some outbox ↦
          outbox.mark_published ctx result.success_ids [] times.published
          >> outbox.mark_dead ctx result.failed_ids [] result.error_message
    ]

  -- The second and third phase, after the loop over the records.
  unfoldable pub finish_chunk :
      Times → IndexedBatch → List (ℕ × Bytes) → Option Replayed → D → Q → Progress × D × Q
  unfolding publish_pending write_back
  finish_chunk times batch names none d q =
      (progress_of batch [] [] (lit "request_id was already used with a different version"), d, q)
  finish_chunk times batch names (some replayed) d q =
      let (completed, e, q') = publish_pending replayed.pending_records names q in
      let new_result = with_error e completed in
      let updated = dispatch_batch times.failed_at replayed.pending_records new_result in
      let ctx = without_cancel write_back_seconds in
      let (written, d') = app.tx.run _ ctx (write_back times updated new_result ctx) d in
      (
        progress_of batch (replayed.success_ids ++ new_result.success_ids)
            (replayed.failed_ids ++ new_result.failed_ids)
            (write_back_error written new_result.error_message),
        d',
        q',
      )

  unfoldable pub after_phase_one :
      Times
      → IndexedBatch
      → List (ℕ × Bytes)
      → Bytes
      → Reply (List ExecutionRecord × List OutboxMessage) × D
      → Q
      → Progress × D × Q
  after_phase_one times batch names v (err e, d) q =
      (progress_of batch [] [] (lit "batch insert failed: " ++ error_text e), d, q)
  after_phase_one times batch names v (ok (rs, ms), d) q =
      finish_chunk times batch names (replay_loop v rs ms nothing_replayed) d q

  -- Everything but the last step, the sending of the progress.
  unfoldable pub chunk_progress :
      Times → IndexedBatch → Bytes → Bytes → Bytes → D → Q → Progress × D × Q
  unfolding after_phase_one
  chunk_progress times batch request_id v user d q =
      let names =
        (create_batch_records_for_request times.created request_id batch.cases v user).1 in
      after_phase_one times batch names v (phase_one times batch request_id v user d) q

  -- The select of emitProgress: the progress goes out, or the context is done with an error.
  emit_progress : Option GoError → List Progress → Progress → Option GoError × List Progress
  emit_progress none out p = (none, out ++ p ∷ [])
  emit_progress (some e) out p = (some e, out)

  -- The error returned, the progress channel, and the two states.
  unfoldable pub dispatch_one_batch :
      Times
      → IndexedBatch
      → Bytes
      → Bytes
      → Bytes
      → Option GoError
      → List Progress
      → D
      → Q
      → (Option GoError × List Progress) × D × Q
  unfolding chunk_progress emit_progress
  dispatch_one_batch times batch request_id v user done out d q =
      let (p, d', q') = chunk_progress times batch request_id v user d q in
      (emit_progress done out p, d', q')
