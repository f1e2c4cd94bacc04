-- ===== src/Dispatch/Chunk/Conservation.antt =====
-- What dispatchOneBatch reports for the records of a chunk, and when it calls the broker.
use case_execution.Prelude.{
  ◌∙◌, ap, is_nil, not, ℕ, ◌+◌, ◌≡◌, refl, true, false, Option, none, some, List, [], ◌∷◌, ◌++◌,
  arith, count, count-append, if◌then◌else◌,
}
use case_execution.Dispatch.Partition.{is_confirmed, keep, complete_batch_result_lem}
use case_execution.Dispatch.Chunk.{
  batch_assemble, request, Replayed, IndexedBatch, phase_one, publish_pending, with_error,
  progress_of, finish_chunk, chunk_progress,
}
use case_execution.Text.{Bytes, lit}
use case_execution.Domain.Errs.{GoError, error_text}
use case_execution.Domain.Entity.{ExecutionRecord, BatchResult, OutboxMessage}
use case_execution.Domain.Batch.{record_ids}
use case_execution.Domain.Service.{create_batch_records_for_request}
use case_execution.Dispatch.Ports.{ok, err, IsTxRunner}
use case_execution.Dispatch.App.{App, Times}
use case_execution.Dispatch.Chunk.Replay.{
  select, is_pending, is_done, is_dead, all_version, replay_loop_lem, select-count, replayed_of,
}

pub with_error-ids :
    (e : Option GoError) (result : BatchResult)
    → ((with_error e result).success_ids ≡ result.success_ids)
      × ((with_error e result).failed_ids ≡ result.failed_ids)
with_error-ids none result = (refl, refl)
with_error-ids (some e) result = ground arith

module _ {D Q : Type 0} (app : App D Q) where
  publish_pending-count :
      (a : ℕ) (rs : List ExecutionRecord) (names : List (ℕ × Bytes)) (q : Q)
      → let result = (publish_pending app rs names q).0 in
        count a result.success_ids + count a result.failed_ids ≡ count a (record_ids rs)
  unfolding publish_pending
  publish_pending-count a [] names q = refl
  publish_pending-count a (r ∷ rs) names q = (complete_batch_result_lem (r ∷ rs) _).3 a

  finish_chunk-count :
      (a : ℕ) (times : Times) (batch : IndexedBatch) (names : List (ℕ × Bytes))
      (replayed : Replayed) (d : D) (q : Q)
      → let p = (finish_chunk app times batch names (some replayed) d q).0 in
        count a p.success_ids + count a p.failed_ids
        ≡ count a replayed.success_ids
          + count a replayed.failed_ids
          + count a (record_ids replayed.pending_records)
  unfolding finish_chunk
  finish_chunk-count a times batch names replayed d q =
      let (result, e, q') = publish_pending app replayed.pending_records names q in
      let (succ, fail) = with_error-ids e result in
      rw (succ, fail)
        (omega (
          arith,
          count-append a replayed.success_ids result.success_ids,
          count-append a replayed.failed_ids result.failed_ids,
          publish_pending-count a replayed.pending_records names q,
        ))

  chunk_committed :
      (times : Times) (batch : IndexedBatch) (request_id v user : Bytes) (d d' : D) (q : Q)
      (rs : List ExecutionRecord) (ms : List OutboxMessage)
      → phase_one app times batch request_id v user d ≡ (ok (rs, ms), d')
      → all_version v rs ≡ true
      → chunk_progress app times batch request_id v user d q
        ≡ finish_chunk app times batch
            (create_batch_records_for_request times.created request_id batch.cases v user).1
            (some (replayed_of rs ms))
            d'
            q
  unfolding chunk_progress
  chunk_committed times batch request_id v user d d' q rs ms committed same =
      rw (committed, replay_loop_lem v rs ms, same)

  -- Where the first phase commits records of the request's version, the progress reports each of
  -- them once: an identifier occurs among the successes and failures together as often as among the
  -- records, whatever the broker confirms and whether the write-back succeeds.
  pub chunk_conserves :
      (a : ℕ) (times : Times) (batch : IndexedBatch) (request_id v user : Bytes) (d d' : D) (q : Q)
      (rs : List ExecutionRecord) (ms : List OutboxMessage)
      → phase_one app times batch request_id v user d ≡ (ok (rs, ms), d')
      → all_version v rs ≡ true
      → let p = (chunk_progress app times batch request_id v user d q).0 in
        count a p.success_ids + count a p.failed_ids ≡ count a (record_ids rs)
  unfolding chunk_progress
  chunk_conserves a times batch request_id v user d d' q rs ms committed same =
      let names =
        (create_batch_records_for_request times.created request_id batch.cases v user).1 in
      rw (chunk_committed times batch request_id v user d d' q rs ms committed same) (
        omega (
          arith,
          finish_chunk-count a times batch names (replayed_of rs ms) d' q,
          select-count a rs ms,
        ))

  -- The broker's answer for the records that are still to publish.
  abbrev pub broker_answer :
      Times
      → IndexedBatch
      → Bytes
      → Bytes
      → Bytes
      → List ExecutionRecord
      → List OutboxMessage
      → Q
      → BatchResult × Option GoError × Q
  broker_answer times batch request_id v user rs ms q =
      app.executor.batch_run request
        (batch_assemble (select is_pending rs ms)
          (create_batch_records_for_request times.created request_id batch.cases v user).1)
        q

  publish_pending_lem :
      (rs : List ExecutionRecord) (names : List (ℕ × Bytes)) (q : Q)
      → let (result, e, q') = publish_pending app rs names q in
        let (raw, raw_error, raw_q) = app.executor.batch_run request (batch_assemble rs names) q in
        (result.success_ids ≡ keep (is_confirmed raw) (record_ids rs))
        × (result.failed_ids ≡ keep (λ id. not (is_confirmed raw id)) (record_ids rs))
        × (q' ≡ (if is_nil rs then q else raw_q))
  unfolding publish_pending
  publish_pending_lem [] names q = (refl, refl, refl)
  publish_pending_lem (r ∷ rs) names q =
      let (succ, failing, _, _) = complete_batch_result_lem (r ∷ rs) _ in (succ, failing, refl)

  finish_chunk_reports :
      (times : Times) (batch : IndexedBatch) (names : List (ℕ × Bytes)) (replayed : Replayed)
      (d : D) (q : Q)
      → let (p, _, q') = finish_chunk app times batch names (some replayed) d q in
        let rs = replayed.pending_records in
        let (raw, raw_error, raw_q) = app.executor.batch_run request (batch_assemble rs names) q in
        (p.success_ids ≡ replayed.success_ids ++ keep (is_confirmed raw) (record_ids rs))
        × (p.failed_ids
            ≡ replayed.failed_ids ++ keep (λ id. not (is_confirmed raw id)) (record_ids rs))
        × (q' ≡ (if is_nil rs then q else raw_q))
  unfolding finish_chunk
  finish_chunk_reports times batch names replayed d q =
      let (result, e, q') = publish_pending app replayed.pending_records names q in
      let (succ, fails, broker) = publish_pending_lem replayed.pending_records names q in
      let (succ', fails') = with_error-ids e result in
      (
        ap (λ xs. replayed.success_ids ++ xs) (succ' ∙ succ),
        ap (λ xs. replayed.failed_ids ++ xs) (fails' ∙ fails),
        broker,
      )

  -- A committed chunk of the request's version reports, in order, the replayed outcomes and then the
  -- answers of the broker: a record still to publish is a success exactly where the broker confirmed
  -- it and did not fail it. The broker is called where a record is still to publish, once and with
  -- the tasks assembled from these records alone, and is left as it was otherwise.
  pub chunk_reports :
      (times : Times) (batch : IndexedBatch) (request_id v user : Bytes) (d d' : D) (q : Q)
      (rs : List ExecutionRecord) (ms : List OutboxMessage)
      → phase_one app times batch request_id v user d ≡ (ok (rs, ms), d')
      → all_version v rs ≡ true
      → let (p, _, q') = chunk_progress app times batch request_id v user d q in
        let (raw, _, raw_q) = broker_answer times batch request_id v user rs ms q in
        let pending_ids = record_ids (select is_pending rs ms) in
        (p.success_ids ≡ record_ids (select is_done rs ms) ++ keep (is_confirmed raw) pending_ids)
        × (p.failed_ids
            ≡ record_ids (select is_dead rs ms)
              ++ keep (λ id. not (is_confirmed raw id)) pending_ids)
        × (q' ≡ (if is_nil (select is_pending rs ms) then q else raw_q))
  chunk_reports times batch request_id v user d d' q rs ms committed same =
      rw (chunk_committed times batch request_id v user d d' q rs ms committed same)
        (finish_chunk_reports times batch _ (replayed_of rs ms) d' q)

  phase_one_rolls_back :
      (times : Times) (batch : IndexedBatch) (request_id v user : Bytes) (d d' : D) (e : GoError)
      → IsTxRunner app.tx
      → phase_one app times batch request_id v user d ≡ (err e, d')
      → d' ≡ d
  unfolding phase_one
  phase_one_rolls_back times batch request_id v user d d' e tx failed =
      tx.rolls_back _ request _ d d' e failed

  -- A chunk whose first phase fails changes neither the database nor the broker, and reports no
  -- record as sent or failed, with the error as its message.
  pub chunk_abandoned :
      (times : Times) (batch : IndexedBatch) (request_id v user : Bytes) (d d' : D) (q : Q)
      (e : GoError)
      → IsTxRunner app.tx
      → phase_one app times batch request_id v user d ≡ (err e, d')
      → chunk_progress app times batch request_id v user d q
        ≡ (progress_of batch [] [] (lit "batch insert failed: " ++ error_text e), d, q)
  unfolding chunk_progress
  chunk_abandoned times batch request_id v user d d' q e tx failed =
      let unchanged = phase_one_rolls_back times batch request_id v user d d' e tx failed in
      rw (failed, unchanged)

  -- A chunk with a record of another version is reported with an error, and publishes nothing.
  pub chunk_wrong_version :
      (times : Times) (batch : IndexedBatch) (request_id v user : Bytes) (d d' : D) (q : Q)
      (rs : List ExecutionRecord) (ms : List OutboxMessage)
      → phase_one app times batch request_id v user d ≡ (ok (rs, ms), d')
      → all_version v rs ≡ false
      → chunk_progress app times batch request_id v user d q ≡ (
        progress_of batch [] [] (lit "request_id was already used with a different version"),
        d',
        q,
      )
  unfolding chunk_progress finish_chunk
  chunk_wrong_version times batch request_id v user d d' q rs ms committed other =
      rw (committed, replay_loop_lem v rs ms, other)
