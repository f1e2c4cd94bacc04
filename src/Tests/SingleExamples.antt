-- ===== src/Tests/SingleExamples.antt =====
-- Examples for the dispatch of one case.
use case_execution.Prelude.{◌≡◌, ◌⊎◌, refl, none, some, [], ◌∷◌}
use case_execution.Text.{Bytes, lit}
use case_execution.Text.Trim.{trim_space, peel}
use case_execution.Domain.Errs.{GoError, opaque}
use case_execution.Domain.Status.{wait, running, dispatch_failed, can_transit_to, is_terminal}
use case_execution.Domain.Entity.{
  mark_as_dispatch_failed, ExecutionRecord, dead, new_outbox_message,
}
use case_execution.Domain.Service.{create_execution_record_for_request}
use case_execution.Dispatch.Ports.{Reply, ok, without_cancel}
use case_execution.Dispatch.App.{App, replay_dispatched_status}
use case_execution.Dispatch.RequestId.{normalize_request_id}
use case_execution.Dispatch.Single.{
  Accepted, accept_case, execute_case_with_request, record_result, mark_outbox_dead,
}
use case_execution.Dispatch.Single.Publishing.{Published, publishes_after_commit}
use case_execution.Dispatch.Single.Retry.{IsAccepted}
use case_execution.Dispatch.Single.WriteBack.{write_back_atomic, failure_recorded, late_failure}
use case_execution.Tests.Memory.{
  Db, Broker, app, times, empty_db, broker, exec_repo, tx_runner-IsTxRunner,
}
use case_execution.Tests.ChunkExamples.{stored, queued}

abbrev random : Reply Bytes
random = ok (1 ∷ 2 ∷ [])

publishes_after_commit_example :
    let q' =
      (execute_case_with_request app times random
        (lit "r1")
        1
        (lit "26B")
        (lit "ann")
        empty_db
        broker).2 in
    (q' ≡ broker)
    ⊎ Published app times random (lit "r1") 1 (lit "26B") (lit "ann") empty_db broker q'
publishes_after_commit_example =
    publishes_after_commit app times random (lit "r1") 1 (lit "26B") (lit "ann") empty_db broker

abbrev accepted_case : Accepted
accepted_case = record {
  accepted = stored 1 100;
  case_name = lit "login";
  message = some (queued 1);
}

abbrev accepted_db : Db
accepted_db = record { rows = stored 1 100 ∷ []; messages = queued 1 ∷ []; next = 2 }

IsAccepted-first :
    IsAccepted app times random
      (lit "r1")
      1
      (lit "26B")
      (lit "ann")
      empty_db
      accepted_case
      accepted_db
unfolding normalize_request_id trim_space peel accept_case create_execution_record_for_request
    new_outbox_message
IsAccepted-first = record {
  request_id = lit "r1";
  has_version = refl;
  normalized = refl;
  inserted = refl;
  same_version = refl;
}

-- The outbox message is dead: an earlier try was refused by the broker.
abbrev dead_case : Accepted
dead_case = record accepted_case { message = some (record (queued 1) { state = dead }) }

abbrev dead_db : Db
dead_db = record accepted_db { messages = record (queued 1) { state = dead } ∷ [] }

not_settled : replay_dispatched_status accepted_case.message accepted_case.accepted ≡ none
unfolding replay_dispatched_status
not_settled = refl

write_back_atomic_example :
    let (o, d', q') =
      execute_case_with_request app times random
        (lit "r1")
        1
        (lit "26B")
        (lit "ann")
        empty_db
        broker in
    (q' ≡ record broker { sent = 1 ∷ [] })
    × (o.execution_id ≡ 1)
    × (o.status ≡ wait)
    × (((o.error ≡ none)
          × (record_result app times 1 none (without_cancel 5) accepted_db ≡ (ok tt, d')))
        ⊎ ((e : GoError) × (o.error ≡ some e) × (d' ≡ accepted_db)))
write_back_atomic_example =
    write_back_atomic app times random (lit "r1") 1 (lit "26B") (lit "ann") empty_db accepted_case
      accepted_db IsAccepted-first broker not_settled tx_runner-IsTxRunner

abbrev failed_db : Db
failed_db = record accepted_db {
  rows = record (stored 1 100) { status = dispatch_failed; finish_at = some 120 } ∷ [];
  messages = record (queued 1) { state = dead } ∷ [];
}

failure_recorded_example :
    (cur : ExecutionRecord) × (d1 d2 : Db) × (app.exec_repo.find_by_id
        (without_cancel 5)
        1
        accepted_db
      ≡ (ok (some cur), d1))
    × (cur.status ≡ wait)
    × (app.exec_repo.save
          (without_cancel 5)
          (record cur { status = dispatch_failed; finish_at = some 120 })
          d1
        ≡ (ok tt, d2))
    × (mark_outbox_dead app 1 (opaque (lit "nack")) (without_cancel 5) d2 ≡ (ok tt, failed_db))
unfolding record_result can_transit_to is_terminal mark_as_dispatch_failed
failure_recorded_example =
    failure_recorded app times 1 (opaque (lit "nack")) (without_cancel 5) accepted_db failed_db refl

-- The executor has called back before the broker's refusal is written.
abbrev started : ExecutionRecord
started = record (stored 1 100) { status = running; execute_at = some 115 }

abbrev racing : App Db Broker
racing = record app {
  exec_repo = record exec_repo { find_by_id = λ ctx k d. (ok (some started), d) };
}

abbrev refusing : Broker
refusing = record { sent = []; refuses = 1 ∷ [] }

IsAccepted-racing :
    IsAccepted racing times random
      (lit "r1")
      1
      (lit "26B")
      (lit "ann")
      empty_db
      accepted_case
      accepted_db
unfolding normalize_request_id trim_space peel accept_case create_execution_record_for_request
    new_outbox_message
IsAccepted-racing = record {
  request_id = lit "r1";
  has_version = refl;
  normalized = refl;
  inserted = refl;
  same_version = refl;
}

late_failure_example :
    let (o, d', q') =
      execute_case_with_request racing times random
        (lit "r1")
        1
        (lit "26B")
        (lit "ann")
        empty_db
        refusing in
    (x : GoError) × (o.error ≡ some x) × (o.status ≡ dispatch_failed) × (d' ≡ accepted_db)
late_failure_example =
    late_failure racing times random (lit "r1") 1 (lit "26B") (lit "ann") empty_db accepted_case
      accepted_db IsAccepted-racing refusing not_settled tx_runner-IsTxRunner (opaque (lit "nack"))
      started accepted_db refl refl (λ e. cc)
