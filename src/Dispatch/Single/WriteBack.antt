-- ===== src/Dispatch/Single/WriteBack.antt =====
-- The third phase of ExecuteCaseWithRequest of internal/usecase/dispatch_app_service.go.
use case_execution.Prelude.{
  ◌≢◌, subst, ◌∙◌, sym, ℕ, ◌≡◌, refl, ap, ◌⊎◌, inl, inr, Option, none, some, arith,
}
use case_execution.Dispatch.Single.Retry.{IsAccepted, result, accepted_lem}
use case_execution.Dispatch.Ports.{
  >>=-eq-ok, Reply, ok, Ctx, request, without_cancel, IsTxRunner, Reply-cases,
}
use case_execution.Dispatch.Single.{
  mark_outbox_dead, Outcome, Accepted, mark_found, record_result, final_status, written_error,
  publish_case, replay_or_publish,
}
use case_execution.Text.{Bytes}
use case_execution.Domain.Status.{wait, dispatch_failed, is_terminal, can_transit_to}
use case_execution.Domain.Errs.{GoError}
use case_execution.Domain.Entity.{ExecutionRecord, mark_as_dispatch_failed}
use case_execution.Dispatch.App.{App, Times, write_back_seconds, replay_dispatched_status}

-- What the third phase does after an error of the broker.
module _ {D Q : Type 0} (app : App D Q) (times : Times) (execution_id : ℕ) (e : GoError) (ctx : Ctx)
    (d : D) where
  mark_found-ok :
      (found : Option ExecutionRecord) (d1 d2 : D)
      → mark_found app times execution_id ctx found d1 ≡ (ok tt, d2)
      → (cur : ExecutionRecord) × (found ≡ some cur)
        × (cur.status ≡ wait)
        × (app.exec_repo.save ctx
              (record cur { status = dispatch_failed; finish_at = some (times.failed_at 0) })
              d1
            ≡ (ok tt, d2))
  unfolding mark_found mark_as_dispatch_failed can_transit_to is_terminal
  mark_found-ok none d1 d2 h = cc
  mark_found-ok (some cur) d1 d2 h = (cur, refl, ground arith, ground arith)

  -- After a broker error the third phase succeeds only where the record is found waiting; then it has
  -- saved that record with DISPATCH_FAILED and a finish time, and after that marked its outbox
  -- message dead with the broker's error, where there is an outbox.
  pub failure_recorded :
      (d' : D)
      → record_result app times execution_id (some e) ctx d ≡ (ok tt, d')
      → (cur : ExecutionRecord) × (d1 d2 : D) × (app.exec_repo.find_by_id ctx execution_id d
          ≡ (ok (some cur), d1))
        × (cur.status ≡ wait)
        × (app.exec_repo.save ctx
              (record cur { status = dispatch_failed; finish_at = some (times.failed_at 0) })
              d1
            ≡ (ok tt, d2))
        × (mark_outbox_dead app execution_id e ctx d2 ≡ (ok tt, d'))
  unfolding record_result
  failure_recorded d' h =
      let (found, d1, e1, rest) =
        >>=-eq-ok (app.exec_repo.find_by_id ctx execution_id) _ d d' tt h in
      let (t, d2, e2, dead_) =
        >>=-eq-ok (mark_found app times execution_id ctx found)
          (λ _. mark_outbox_dead app execution_id e ctx) d1 d' tt rest in
      let (cur, e3, waits, saved) = mark_found-ok found d1 d2 e2 in
      (cur, d1, d2, rw (← e3) e1, waits, saved, dead_)

module _ {D Q : Type 0} (app : App D Q) (times : Times) (random : Reply Bytes) (raw : Bytes)
    (case_id : ℕ) (v user : Bytes) (d : D) (a : Accepted) (committed : D)
    (valid : IsAccepted app times random raw case_id v user d a committed) (q : Q)
    (unsettled : replay_dispatched_status a.message a.accepted ≡ none)
    (tx : IsTxRunner app.tx) where
  abbrev answer : Outcome × D × Q
  answer = result app times random raw case_id v user d a committed valid q

  abbrev pub broker_answer : Option GoError × Q
  broker_answer = app.executor.execute request a.accepted a.case_name q

  published_lem : answer ≡ publish_case app times a committed q
  unfolding replay_or_publish
  published_lem =
      rw (accepted_lem app times random raw case_id v user d a committed valid q, unsettled)

  abbrev detached : Ctx
  detached = without_cancel write_back_seconds

  publish_case-atomic :
      let (o, d', q') = publish_case app times a committed q in
      let (mq_error, mq_state) = broker_answer in
      (q' ≡ mq_state)
      × (o.execution_id ≡ a.accepted.execution_id)
      × (o.status ≡ final_status mq_error)
      × (((o.error ≡ none)
            × (record_result app times a.accepted.execution_id mq_error detached committed
                ≡ (ok tt, d')))
          ⊎ ((e : GoError) × (o.error ≡ some e) × (d' ≡ committed)))
  unfolding publish_case
  publish_case-atomic = (
    refl,
    refl,
    refl,
    elim (Reply-cases written) [
      | inl (t, d', done) ↦ inl (
        ap (λ w. written_error w.0) done,
        subst
            (λ x.
              record_result app times a.accepted.execution_id broker_answer.0 detached committed
              ≡ (ok tt, x))
            (sym (ap (λ w. w.1) done)) (tx.commits _ _ _ committed d' t done),
      )
      | inr (e, d', failed) ↦ inr (
        e,
        ap (λ w. written_error w.0) failed,
        ap (λ w. w.1) failed ∙ tx.rolls_back _ _ _ committed d' e failed,
      )
    ],
  )
    where
      written : Reply (Unit {0}) × D
      written =
          app.tx.run _ detached
            (record_result app times a.accepted.execution_id broker_answer.0 detached) committed

  -- A valid request of an unsettled record with its version asks the broker once, and answers with
  -- the record's execution number and with DISPATCH_FAILED exactly on a broker error. Over
  -- transactions that commit or roll back, either the call succeeds and the third phase is committed
  -- on top of the first, in a context that the caller does not cancel, or it returns an error and
  -- the database is as the first phase left it.
  pub write_back_atomic :
      let (o, d', q') = answer in
      let (mq_error, mq_state) = broker_answer in
      (q' ≡ mq_state)
      × (o.execution_id ≡ a.accepted.execution_id)
      × (o.status ≡ final_status mq_error)
      × (((o.error ≡ none)
            × (record_result app times a.accepted.execution_id mq_error detached committed
                ≡ (ok tt, d')))
          ⊎ ((e : GoError) × (o.error ≡ some e) × (d' ≡ committed)))
  write_back_atomic = rw published_lem publish_case-atomic

  -- If the broker fails for a valid, unsettled request and its record is found not to wait any more,
  -- then over transactions that commit or roll back the call returns an error beside the status
  -- DISPATCH_FAILED, and the database is as the first phase left it: no message is marked dead.
  pub late_failure :
      (e : GoError) (cur : ExecutionRecord) (d1 : D)
      → broker_answer.0 ≡ some e
      → app.exec_repo.find_by_id detached a.accepted.execution_id committed ≡ (ok (some cur), d1)
      → cur.status ≢ wait
      → (x : GoError) × (answer.0.error ≡ some x)
        × (answer.0.status ≡ dispatch_failed)
        × (answer.1 ≡ committed)
  late_failure e cur d1 broken found moved = elim write_back_atomic.3 [
    | inr (x, failed, same) ↦ (x, failed, write_back_atomic.2 ∙ ap final_status broken, same)
    | inl (done, recorded) ↦
        let (cur', d1', d2, found', waits, saved, marked) =
          failure_recorded app times a.accepted.execution_id e detached committed _
            (rw broken at recorded) in
        absurd (moved (cc (found, found', waits)))
  ]
