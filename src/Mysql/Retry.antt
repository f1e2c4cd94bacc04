-- ===== src/Mysql/Retry.antt =====
-- ExecuteCaseWithRequest of internal/usecase/dispatch_app_service.go, called again after it has succeeded,
-- over the repositories of this folder.
pub mod Recorded
use case_execution.Dispatch.Single.{
  execute_case_with_request, Outcome, accept_case, final_status, Accepted, insert_case,
  record_result, replay_or_publish,
}
use case_execution.Domain.Entity.{replay_status, replay_state, OutboxMessage, pending}
use case_execution.Mysql.Acceptance.{Backend, AreApart, mysql_app, insert_case-Accepts}
use case_execution.Mysql.Table.{chosen, first_of}
use case_execution.Mysql.Table.Upsert.{Upserted}
use case_execution.Mysql.Rows.{
  ExecutionRow, OutboxRow, record_of_row, message_of_row, state_text, state_of,
}
use case_execution.Mysql.Executions.{IsExecutionTable, is_for}
use case_execution.Mysql.Outbox.{is_message_of}
use case_execution.Mysql.Lease.{IsOutboxTable, is_owned, touched}
use case_execution.Dispatch.Ports.{Reply, request, without_cancel, ok, IsTxRunner}
use case_execution.Dispatch.App.{Times, write_back_seconds, replay_dispatched_status}
use case_execution.Domain.Errs.{GoError}
use case_execution.Dispatch.Single.WriteBack.{write_back_atomic}
use case_execution.Dispatch.Single.Retry.{IsAccepted, accepted_lem}
use case_execution.Text.{Bytes, is_empty, str_eq}
use case_execution.Prelude.{
  ℕ, ◌≡◌, ◌∙◌, ◌∷◌, [], Bool, true, false, ◌==◌, Option, none, some, some_inj, inl, inr, sym, ap,
  subst, arith, refl, if◌then◌else◌, ==_iff,
}
use case_execution.Mysql.Table.Updated.{first_of-updated, chosen-met, upsert_found}
use case_execution.Mysql.Retry.Recorded.{recorded_lem, with_messages}

unsettled_lem :
    (a : Accepted) (m : OutboxMessage)
    → a.message ≡ some m
    → m.state ≡ pending
    → replay_dispatched_status a.message a.accepted ≡ none
unfolding replay_dispatched_status replay_status
unsettled_lem a m message waits = rw (message, waits) refl

pending-text : (s : Bytes) → state_of s ≡ pending → str_eq s (state_text pending) ≡ true
pending-text s e = ground arith

module _ {D Q : Type 0} (b0 : Backend D Q) (execution_law : IsExecutionTable b0.executions)
    (outbox_law : IsOutboxTable b0.outbox) (apart : AreApart b0.cases b0.executions b0.outbox) where
  pending_owned :
      (k : ℕ) (r : OutboxRow)
      → is_message_of k r ≡ true
      → state_of r.state ≡ pending
      → is_owned (k ∷ []) [] r ≡ true
  pending_owned k r for waits =
      ground (arith, ==_iff r.execution_id k, ==_iff k r.execution_id, pending-text r.state waits)

  kept_key :
      (b : Bool) (f : ExecutionRow → ExecutionRow) (r : ExecutionRow)
      → ((x : ExecutionRow) → (f x).execution_id ≡ x.execution_id)
      → (if b then f r else r).execution_id ≡ r.execution_id
  kept_key true f r same = same r
  kept_key false f r same = refl

  -- A second acceptance after the third phase finds the settled message and the same record.
  found_again :
      (times times' : Times) (request_id : Bytes) (case_id : ℕ) (v user user' : Bytes)
      (a a' : Accepted) (d c d1 c' : D) (m : OutboxMessage) (mq_error : Option GoError)
      → IsTxRunner b0.tx
      → is_empty request_id ≡ false
      → a.message ≡ some m
      → m.state ≡ pending
      → accept_case (mysql_app (with_messages b0)) times request_id case_id v user d ≡ (ok a, c)
      → record_result
          (mysql_app (with_messages b0))
          times
          a.accepted.execution_id
          mq_error
          (without_cancel write_back_seconds)
          c
        ≡ (ok tt, d1)
      → accept_case (mysql_app (with_messages b0)) times' request_id case_id v user' d1
        ≡ (ok a', c')
      → (a'.accepted.execution_id ≡ a.accepted.execution_id)
        × (replay_dispatched_status a'.message a'.accepted ≡ some (final_status mq_error))
        × (b0.executions.rows_of c' ≡ b0.executions.rows_of d1)
        × (b0.outbox.rows_of c' ≡ b0.outbox.rows_of d1)
  unfolding accept_case mysql_app record_of_row message_of_row replay_dispatched_status
      replay_status
  found_again times times' request_id case_id v user user' a a' d c d1 c' m mq_error tx named
        message waits first recorded again =
      let app = mysql_app (with_messages b0) in
      let k = a.accepted.execution_id in
      let is_row = is_for b0.executions.weight request_id case_id in
      let rec =
        recorded_lem b0 execution_law outbox_law apart times k mq_error
          (without_cancel write_back_seconds) c d1 recorded in
      let one =
        insert_case-Accepts (with_messages b0) execution_law outbox_law apart times request_id
          case_id v user a d c named
          (tx.commits _ request (insert_case app times request_id case_id v user) d c a first) in
      let two =
        insert_case-Accepts (with_messages b0) execution_law outbox_law apart times' request_id
          case_id v user' a' d1 c' named
          (tx.commits _ request (insert_case app times' request_id case_id v user') d1 c' a'
            again) in
      let row = one.row.row in
      let there =
        subst
          (λ x.
            first_of (chosen is_row x) ≡ some (if rec.where_failed row then rec.fail row else row))
          (sym rec.records)
          (first_of-updated is_row rec.where_failed rec.fail (b0.executions.rows_of c) row
            (rec.same_for b0.executions.weight request_id case_id) one.row.stands) in
      let (read, rows) =
        upsert_found record_of_row is_row a'.accepted (b0.executions.rows_of d1)
          (b0.executions.rows_of c') _ there two.row in
      let same_key : a'.accepted.execution_id ≡ k =
        ap (λ r. r.execution_id) read
        ∙ (kept_key (rec.where_failed row) rec.fail row rec.same_key
            ∙ sym (ap (λ r. r.execution_id) one.row.returned)) in
      let (m1, made, queued) = one.queued in
      let (m2, made2, queued2) = two.queued in
      let sent = queued.row in
      let still : state_of sent.state ≡ pending =
        ap (λ x. x.state) (sym queued.returned ∙ some_inj (sym made ∙ message)) ∙ waits in
      let owned =
        pending_owned k sent (chosen-met (is_message_of k) (b0.outbox.rows_of c) sent queued.stands)
          still in
      let settled = touched rec.settling rec.written_at in
      let kept_message : first_of (chosen (is_message_of k) (b0.outbox.rows_of d1))
          ≡ some (settled sent) =
        subst (λ x. first_of (chosen (is_message_of k) x) ≡ some (settled sent)) (sym rec.messages)
          (first_of-updated (is_message_of k) (is_owned (k ∷ []) []) settled (b0.outbox.rows_of c)
              sent (λ r. ap (λ n. n == k) (rec.same_execution r)) queued.stands
            ∙ ap (λ b. some (if b then settled sent else sent)) owned) in
      let (answer, messages) =
        upsert_found message_of_row (is_message_of k) m2 (b0.outbox.rows_of d1)
          (b0.outbox.rows_of c') (settled sent) kept_message
          (subst
            (λ n.
              Upserted message_of_row (is_message_of n) m2 (b0.outbox.rows_of d1)
                (b0.outbox.rows_of c'))
            same_key queued2) in
      (
        same_key,
        ap (λ x. replay_dispatched_status x a'.accepted) made2
            ∙ (ap (λ x. replay_state x.state) answer ∙ rec.settled sent),
        rows,
        messages,
      )

  -- A call that is made again after it has succeeded is answered as the first time, and the broker is not
  -- asked again: with an outbox, over transactions that commit or roll back, let a valid request be accepted
  -- with its message pending, and let the call return no error, whether the broker took the task or
  -- refused it. A later call under the same identifier for the same case and version, that is accepted,
  -- returns the execution number and the status of the first, without an error; it leaves the broker as it
  -- was and both tables with the rows of the first call.
  pub retry_answers :
      (times times' : Times) (random random' : Reply Bytes) (raw raw' : Bytes) (case_id : ℕ)
      (v user user' : Bytes) (a a' : Accepted) (d c d1 c' : D) (q q1 q' : Q) (o : Outcome)
      (m : OutboxMessage)
      → IsTxRunner b0.tx
      → (first : IsAccepted (mysql_app (with_messages b0)) times random raw case_id v user d a c)
      → is_empty first.request_id ≡ false
      → a.message ≡ some m
      → m.state ≡ pending
      → execute_case_with_request (mysql_app (with_messages b0)) times random raw case_id v user d q
        ≡ (o, d1, q1)
      → o.error ≡ none
      → (again : IsAccepted
          (mysql_app (with_messages b0))
          times'
          random'
          raw'
          case_id
          v
          user'
          d1
          a'
          c')
      → again.request_id ≡ first.request_id
      → (execute_case_with_request
            (mysql_app (with_messages b0))
            times'
            random'
            raw'
            case_id
            v
            user'
            d1
            q'
          ≡ (record { execution_id = o.execution_id; status = o.status; error = none }, c', q'))
        × (b0.executions.rows_of c' ≡ b0.executions.rows_of d1)
        × (b0.outbox.rows_of c' ≡ b0.outbox.rows_of d1)
  unfolding replay_or_publish mysql_app
  retry_answers times times' random random' raw raw' case_id v user user' a a' d c d1 c' q q1 q' o m
        tx first named message waits done fine again same_id =
      let app = mysql_app (with_messages b0) in
      let (mq_error, mq_state) = app.executor.execute request a.accepted a.case_name q in
      let (_, key, status, ended) = rw done at (
        write_back_atomic {D = D} {Q = Q} app times random raw case_id v user d a c first q
          (unsettled_lem a m message waits) tx) in
      elim ended [
        | inr (e, failed, _) ↦ absurd (cc (fine, failed))
        | inl (_, recorded) ↦
            let k = a.accepted.execution_id in
            let (same_key, found, rows, messages) =
              found_again times times' first.request_id case_id v user user' a a' d c d1 c' m
                mq_error tx named message waits first.inserted recorded
                (subst (λ x. accept_case app times' x case_id v user' d1 ≡ (ok a', c')) same_id
                  again.inserted) in
            (
              accepted_lem app times' random' raw' case_id v user' d1 a' c' again q'
                  ∙ (rw found refl ∙ λ i. (
                    record {
                      execution_id = (same_key ∙ sym key) i;
                      status = (sym status) i;
                      error = none;
                    },
                    c',
                    q',
                  )),
              rows,
              messages,
            )
      ]
