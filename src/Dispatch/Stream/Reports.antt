-- ===== src/Dispatch/Stream/Reports.antt =====
-- What the workers of a stream report: the progress of dispatchOneBatch, under the chunk's index.
use case_execution.Prelude.{none, some, Option, ◌≡◌, ◌∙◌, List, ap, ℕ, refl}
use case_execution.Dispatch.Chunk.{
  nothing_replayed, replay_loop, Replayed, Progress, IndexedBatch, after_phase_one, chunk_progress,
  finish_chunk, phase_one,
}
use case_execution.Dispatch.Ports.{ok, err, Reply}
use case_execution.Domain.Entity.{OutboxMessage, ExecutionRecord}
use case_execution.Domain.Service.{create_batch_records_for_request}
use case_execution.Dispatch.Stream.Delivery.{KeepsIndex}
use case_execution.Text.{Bytes}
use case_execution.Dispatch.App.{Times, App}

module _ {D Q : Type 0} (app : App D Q) where
  -- The progress of some run of dispatchOneBatch on the chunk, with the database and the broker in
  -- whatever state the other workers have left them.
  abbrev pub ChunkReport : Bytes → Bytes → Bytes → IndexedBatch → Progress → Type 0
  ChunkReport request_id v user b p =
      (times : Times) × (d : D) × (q : Q) × (p
        ≡ (chunk_progress app times b request_id v user d q).0)

  finish_chunk-index :
      (times : Times) (b : IndexedBatch) (names : List (ℕ × Bytes)) (r : Option Replayed) (d : D)
      (q : Q)
      → (finish_chunk app times b names r d q).0.chunk_index ≡ b.index
  unfolding finish_chunk
  finish_chunk-index times b names none d q = refl
  finish_chunk-index times b names (some r) d q = refl

  after_phase_one-index :
      (times : Times) (b : IndexedBatch) (names : List (ℕ × Bytes)) (v : Bytes)
      (r : Reply (List ExecutionRecord × List OutboxMessage)) (d : D) (q : Q)
      → (after_phase_one app times b names v (r, d) q).0.chunk_index ≡ b.index
  unfolding after_phase_one
  after_phase_one-index times b names v (err e) d q = refl
  after_phase_one-index times b names v (ok (rs, ms)) d q =
      finish_chunk-index times b names (replay_loop v rs ms nothing_replayed) d q

  pub ChunkReport-KeepsIndex :
      (request_id v user : Bytes) → KeepsIndex (ChunkReport request_id v user)
  unfolding chunk_progress
  ChunkReport-KeepsIndex request_id v user b p (times, d, q, e) =
      ap (λ r. r.chunk_index) e
      ∙ after_phase_one-index times b
          (create_batch_records_for_request times.created request_id b.cases v user).1 v
          (phase_one app times b request_id v user d).0
          (phase_one app times b request_id v user d).1 q
