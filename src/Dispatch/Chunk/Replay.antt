-- ===== src/Dispatch/Chunk/Replay.antt =====
-- The loop of dispatchOneBatch that replays what an earlier try of the request did.
use case_execution.Prelude.{
  ℕ, ◌+◌, ◌≡◌, refl, Bool, true, false, ◌&&◌, Option, none, some, List, [], ◌∷◌, ◌++◌, arith, count,
  append_assoc, append-nil, if◌then◌else◌,
}
use case_execution.Text.{Bytes, str_eq}
use case_execution.Domain.Status.{ExecutionStatus, dispatch_failed, status_eq}
use case_execution.Domain.Entity.{ExecutionRecord, OutboxMessage}
use case_execution.Domain.Batch.{record_ids}
use case_execution.Dispatch.App.{replay_dispatched_status}
use case_execution.Dispatch.Chunk.{
  Replayed, replay_loop, head_message, tail_messages, absorb, nothing_replayed,
}

-- How an earlier try ended: the record is still to publish, or its outcome is known.
abbrev pub is_pending : Option ExecutionStatus → Bool
is_pending none = true
is_pending (some s) = false

abbrev pub is_dead : Option ExecutionStatus → Bool
is_dead none = false
is_dead (some s) = status_eq s dispatch_failed

abbrev pub is_done : Option ExecutionStatus → Bool
is_done none = false
is_done (some s) = if status_eq s dispatch_failed then false else true

-- The records whose replay passes the test; each record goes with the message at its place.
abbrev pub select :
    (Option ExecutionStatus → Bool)
    → List ExecutionRecord
    → List OutboxMessage
    → List ExecutionRecord
select test [] ms = []
select test (r ∷ rs) ms =
    if test (replay_dispatched_status (head_message ms) r)
    then r ∷ select test rs (tail_messages ms)
    else select test rs (tail_messages ms)

abbrev pub all_version : Bytes → List ExecutionRecord → Bool
all_version v [] = true
all_version v (r ∷ rs) = str_eq r.version v && all_version v rs

abbrev pub extend : Replayed → List ExecutionRecord → List OutboxMessage → Replayed
extend acc rs ms = record {
  pending_records = acc.pending_records ++ select is_pending rs ms;
  success_ids = acc.success_ids ++ record_ids (select is_done rs ms);
  failed_ids = acc.failed_ids ++ record_ids (select is_dead rs ms);
}

extend-absorb :
    (acc : Replayed) (r : ExecutionRecord) (rs : List ExecutionRecord) (ms : List OutboxMessage)
    → extend (absorb r (replay_dispatched_status (head_message ms) r) acc) rs (tail_messages ms)
      ≡ extend acc (r ∷ rs) ms
extend-absorb acc r rs ms = ground (
  arith,
  append_assoc acc.pending_records (r ∷ []) (select is_pending rs (tail_messages ms)),
  append_assoc acc.success_ids (r.execution_id ∷ [])
      (record_ids (select is_done rs (tail_messages ms))),
  append_assoc acc.failed_ids (r.execution_id ∷ [])
      (record_ids (select is_dead rs (tail_messages ms))),
)

replay_loop_acc :
    (v : Bytes) (rs : List ExecutionRecord) (ms : List OutboxMessage) (acc : Replayed)
    → replay_loop v rs ms acc ≡ (if all_version v rs then some (extend acc rs ms) else none)
unfolding replay_loop
replay_loop_acc v [] ms acc = simp append-nil
replay_loop_acc v (r ∷ rs) ms acc =
    let next = absorb r (replay_dispatched_status (head_message ms) r) acc in
    ground (arith, replay_loop_acc v rs (tail_messages ms) next, extend-absorb acc r rs ms)

abbrev pub replayed_of : List ExecutionRecord → List OutboxMessage → Replayed
replayed_of rs ms = record {
  pending_records = select is_pending rs ms;
  success_ids = record_ids (select is_done rs ms);
  failed_ids = record_ids (select is_dead rs ms);
}

-- The loop fails exactly where a record has another version, and otherwise sorts the records by
-- their replay into those to publish, those sent and those failed, each in order.
pub replay_loop_lem :
    (v : Bytes) (rs : List ExecutionRecord) (ms : List OutboxMessage)
    → replay_loop v rs ms nothing_replayed
      ≡ (if all_version v rs then some (replayed_of rs ms) else none)
replay_loop_lem v rs ms = replay_loop_acc v rs ms nothing_replayed

-- Each record is in one of the three.
pub select-count :
    (a : ℕ) (rs : List ExecutionRecord) (ms : List OutboxMessage)
    → count a (record_ids (select is_pending rs ms))
        + count a (record_ids (select is_done rs ms))
        + count a (record_ids (select is_dead rs ms))
      ≡ count a (record_ids rs)
select-count a [] ms = refl
select-count a (r ∷ rs) ms = ground (arith, select-count a rs (tail_messages ms))
