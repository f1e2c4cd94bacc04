-- ===== src/Tests/ChunkExamples.antt =====
-- Examples for the dispatch of a chunk: case 2 is refused by the broker, and case 9 is a retry.
use case_execution.Prelude.{
  is_nil, if◌then◌else◌, ℕ, ◌+◌, ◌≡◌, refl, not, none, List, [], ◌∷◌, ◌++◌, count,
}
use case_execution.Domain.Service.{create_batch_records_for_request}
use case_execution.Domain.Entity.{
  batch_assemble, pending, ExecutionRecord, OutboxMessage, new_outbox_message,
}
use case_execution.Dispatch.App.{replay_dispatched_status, App}
use case_execution.Dispatch.Partition.{complete_batch_result, keep, is_confirmed}
use case_execution.Dispatch.Chunk.{
  finish_chunk, IndexedBatch, Progress, phase_one, chunk_progress, replay_loop,
}
use case_execution.Text.{Bytes, lit}
use case_execution.Domain.Errs.{opaque}
use case_execution.Domain.Status.{wait}
use case_execution.Domain.Batch.{record_ids}
use case_execution.Dispatch.Ports.{ok, err}
use case_execution.Dispatch.Chunk.Replay.{select, is_pending, is_done, is_dead}
use case_execution.Dispatch.Chunk.Conservation.{chunk_conserves, chunk_reports, broker_answer}
use case_execution.Tests.Memory.{Db, Broker, app, times, empty_db, broker, case_of, exec_repo}

abbrev batch : IndexedBatch
batch = record { index = 0; cases = case_of 1 ∷ case_of 2 ∷ case_of 3 ∷ [] }

abbrev run : Bytes → Progress × Db × Broker
run v = chunk_progress app times batch (lit "r1") v (lit "ann") empty_db broker

chunk_runs :
    let (p, d, q) = run (lit "26B") in
    (p.success_ids ≡ 1 ∷ 3 ∷ []) × (p.failed_ids ≡ 2 ∷ []) × (q.sent ≡ 1 ∷ 3 ∷ [])
unfolding chunk_progress phase_one create_batch_records_for_request new_outbox_message finish_chunk
    replay_loop replay_dispatched_status complete_batch_result batch_assemble
chunk_runs = (refl, refl, refl)

abbrev pub stored : ℕ → ℕ → ExecutionRecord
stored k now = record {
  execution_id = k;
  request_id = lit "r1";
  case_id = k;
  version = lit "26B";
  create_by = lit "ann";
  status = wait;
  create_at = now;
  execute_at = none;
  finish_at = none;
}

abbrev pub queued : ℕ → OutboxMessage
queued k = record {
  outbox_id = 0;
  execution_id = k;
  case_id = k;
  case_name = lit "login";
  version = lit "26B";
  state = pending;
  attempts = 0;
  available_at = 120;
  lease_until = none;
  lease_token = [];
  last_error = [];
  created_at = 0;
  updated_at = 0;
  published_at = none;
}

abbrev records : List ExecutionRecord
records = stored 1 100 ∷ stored 2 101 ∷ stored 3 102 ∷ []

abbrev messages : List OutboxMessage
messages = queued 1 ∷ queued 2 ∷ queued 3 ∷ []

abbrev after_insert : Db
after_insert = record { rows = records; messages = messages; next = 4 }

batch_commits :
    phase_one app times batch (lit "r1") (lit "26B") (lit "ann") empty_db
    ≡ (ok (records, messages), after_insert)
unfolding phase_one create_batch_records_for_request new_outbox_message
batch_commits = refl

chunk_conserves_example :
    let p = (run (lit "26B")).0 in
    count 2 p.success_ids + count 2 p.failed_ids ≡ count 2 (record_ids records)
chunk_conserves_example =
    chunk_conserves app 2 times batch (lit "r1") (lit "26B") (lit "ann") empty_db after_insert
      broker records messages batch_commits refl

chunk_reports_example :
    let (p, _, q') = run (lit "26B") in
    let (raw, _, raw_q) =
      broker_answer app times batch (lit "r1") (lit "26B") (lit "ann") records messages broker in
    let pending_ids = record_ids (select is_pending records messages) in
    (p.success_ids
      ≡ record_ids (select is_done records messages) ++ keep (is_confirmed raw) pending_ids)
    × (p.failed_ids
        ≡ record_ids (select is_dead records messages)
          ++ keep (λ id. not (is_confirmed raw id)) pending_ids)
    × (q' ≡ (if is_nil (select is_pending records messages) then broker else raw_q))
chunk_reports_example =
    chunk_reports app times batch (lit "r1") (lit "26B") (lit "ann") empty_db after_insert broker
      records messages batch_commits refl

-- The same service over a database that refuses every insertion.
abbrev broken : App Db Broker
broken = record app {
  exec_repo = record exec_repo { batch_add = λ ctx rs d. (err (opaque (lit "down")), d) };
}

insert_fails :
    phase_one broken times batch (lit "r1") (lit "26B") (lit "ann") empty_db
    ≡ (err (opaque (lit "down")), empty_db)
unfolding phase_one
insert_fails = refl

-- A second request of the same identifier that names another version.
reused :
    phase_one app times batch (lit "r1") (lit "27A") (lit "ann") after_insert
    ≡ (ok (records, messages), after_insert)
unfolding phase_one create_batch_records_for_request new_outbox_message
reused = refl
