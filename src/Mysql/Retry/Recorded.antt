-- ===== src/Mysql/Retry/Recorded.antt =====
-- The third phase of ExecuteCaseWithRequest over the tables, where it succeeds.
use case_execution.Dispatch.Single.{final_status, mark_outbox_dead, record_result}
use case_execution.Domain.Entity.{ExecutionRecord, replay_state, published, dead}
use case_execution.Mysql.Acceptance.{Backend, AreApart, Leaves, mysql_app}
use case_execution.Mysql.Table.{Table, updated, updated-none, return-ok, after-wrapped}
use case_execution.Mysql.Rows.{ExecutionRow, OutboxRow, state_text, state_of}
use case_execution.Mysql.Executions.{
  IsExecutionTable, is_for, is_waiting, saved, save, check_saved, is_there,
}
use case_execution.Mysql.Executions
use case_execution.Mysql.Executions.Conditional.{save_lem}
use case_execution.Mysql.Lease.{
  IsOutboxTable, is_owned, touched, check_affected-ok, update_by_execution_ids, update_fenced,
}
use case_execution.Dispatch.Ports.{Reply-cases, Ctx, ok}
use case_execution.Dispatch.App.{Times}
use case_execution.Mysql.Repositories.{new_outbox_repository, new_execution_repository}
use case_execution.Domain.Status.{ExecutionStatus, dispatch_failed}
use case_execution.Domain.Errs.{GoError, error_text}
use case_execution.Dispatch.Single.WriteBack.{failure_recorded}
use case_execution.Mysql.Helpers.{truncate_outbox_error}
use case_execution.Text.{Bytes, lit}
use case_execution.Prelude.{
  ℕ, ◌≡◌, ◌∙◌, ◌∷◌, [], List, Bool, true, false, ◌&&◌, ◌==◌, Option, none, some, is_nil, inl, inr,
  sym, ap, refl, Bool-cases,
}

abbrev to_published : ℕ → OutboxRow → OutboxRow
to_published published_at r = record r {
  state = state_text published;
  published_at = some published_at;
  lease_until = none;
  lease_token = [];
  last_error = [];
}

abbrev to_dead : Bytes → OutboxRow → OutboxRow
to_dead last_error r = record r {
  state = state_text dead;
  lease_until = none;
  lease_token = [];
  last_error = truncate_outbox_error last_error;
}

-- What the third phase leaves: the message is settled with this status, and the record keeps its key and
-- its request.
pub record IsRecorded {D : Type 0} (executions : Table D ExecutionRow) (outbox : Table D OutboxRow)
    (k : ℕ) (status : ExecutionStatus) (c d : D) : Type 0 where
  pub settling : OutboxRow → OutboxRow
  pub written_at : ℕ
  pub settled : (r : OutboxRow) → replay_state (state_of (settling r).state) ≡ some status
  pub same_execution : (r : OutboxRow) → (settling r).execution_id ≡ r.execution_id
  pub messages :
      outbox.rows_of d
      ≡ updated (is_owned (k ∷ []) []) (touched settling written_at) (outbox.rows_of c)
  pub where_failed : ExecutionRow → Bool
  pub fail : ExecutionRow → ExecutionRow
  pub same_key : (r : ExecutionRow) → (fail r).execution_id ≡ r.execution_id
  pub same_for :
      (weight : Bytes → Bytes) (request_id : Bytes) (case_id : ℕ) (r : ExecutionRow)
      → is_for weight request_id case_id (fail r) ≡ is_for weight request_id case_id r
  pub records : executions.rows_of d ≡ updated where_failed fail (executions.rows_of c)

-- The service with its outbox.
abbrev pub with_messages : {D Q : Type 0} → Backend D Q → Backend D Q
with_messages b = record b { outbox_enabled = true }

module _ {D Q : Type 0} (b0 : Backend D Q) (execution_law : IsExecutionTable b0.executions)
    (outbox_law : IsOutboxTable b0.outbox) (apart : AreApart b0.cases b0.executions b0.outbox) where
  update-Leaves :
      (ids : List ℕ) (token : Bytes) (f : OutboxRow → OutboxRow)
      → is_nil ids ≡ false
      → Leaves b0.executions.rows_of (update_by_execution_ids b0.outbox ids token f)
  unfolding update_by_execution_ids
  update-Leaves ids token f some_ids u d d' done =
      elim (Reply-cases (b0.outbox.update_where (is_owned ids token) (touched f) d)) [
        | inr (e, d1, failed) ↦ absurd (cc (rw (some_ids, failed) at done))
        | inl (n, d1, met) ↦
            let (right, same) = check_affected-ok ids n d1 d' (rw (some_ids, met) at done) in
            ap b0.executions.rows_of (sym same)
            ∙ apart.update_message (is_owned ids token) (touched f) n d d1 met
      ]

  check_saved-Leaves :
      (id affected : ℕ) → Leaves b0.outbox.rows_of (check_saved b0.executions id affected)
  unfolding check_saved
  check_saved-Leaves id affected u d d' done = elim (Bool-cases (affected == 0)) [
    | inl e ↦
        let (row, d1, got, last) =
          after-wrapped (lit "verify execution_record after conditional update: ")
            (b0.executions.first_where (λ r. r.execution_id == id) d) (is_there b0.executions id) u
            d' (rw e at done) in
        there row d1 last ∙ apart.find_execution _ row d d1 got
    | inr e ↦ ap (λ r. b0.outbox.rows_of r.1) (sym (rw e at done))
  ]
    where
      there :
          (row : Option ExecutionRow) (d1 : D)
          → is_there b0.executions id row d1 ≡ (ok u, d')
          → b0.outbox.rows_of d' ≡ b0.outbox.rows_of d1
      there none d1 done = absurd (cc (ap (λ r. r.0) done))
      there (some row) d1 done = ap (λ r. b0.outbox.rows_of r.1) (sym done)

  save-Leaves :
      (ctx : Ctx) (r : ExecutionRecord) → Leaves b0.outbox.rows_of (save b0.executions ctx r)
  unfolding save
  save-Leaves ctx r u d d' done =
      let (n, d1, met, last) =
        after-wrapped (lit "update execution_record: ")
          (b0.executions.update_where (λ row. row.execution_id == r.execution_id && is_waiting row)
            (λ _. saved r) d)
          (check_saved b0.executions r.execution_id) u d' done in
      check_saved-Leaves r.execution_id n u d1 d' last ∙ apart.update_execution _ _ n d d1 met

  find-Keeps :
      (ctx : Ctx) (k : ℕ) (found : Option ExecutionRecord) (d d' : D)
      → Executions.find_by_id b0.executions ctx k d ≡ (ok found, d')
      → (b0.outbox.rows_of d' ≡ b0.outbox.rows_of d)
        × (b0.executions.rows_of d' ≡ b0.executions.rows_of d)
  unfolding case_execution.Mysql.Executions.find_by_id
  find-Keeps ctx k found d d' done =
      let (row, d1, got, last) =
        after-wrapped (lit "select execution_record by id: ")
          (b0.executions.first_where (λ r. r.execution_id == k) d) _ found d' done in
      let (_, ended) = return-ok _ found d1 d' last in
      (
        ap b0.outbox.rows_of ended ∙ apart.find_execution _ row d d1 got,
        ap b0.executions.rows_of ended ∙ (execution_law.firsts _ d d1 row got).0,
      )

  pub recorded_lem :
      (times : Times) (k : ℕ) (mq_error : Option GoError) (ctx : Ctx) (c d : D)
      → record_result (mysql_app (with_messages b0)) times k mq_error ctx c ≡ (ok tt, d)
      → IsRecorded b0.executions b0.outbox k (final_status mq_error) c d
  unfolding record_result mysql_app new_outbox_repository new_execution_repository
      case_execution.Mysql.Lease.mark_published case_execution.Mysql.Lease.mark_dead
      mark_outbox_dead
  recorded_lem times k none ctx c d done =
      let (t, changed, _) =
        update_fenced b0.outbox (k ∷ []) [] (to_published times.published) c d outbox_law refl
          done in
      record {
        settling = to_published times.published;
        written_at = t;
        settled = λ r. refl;
        same_execution = λ r. refl;
        messages = changed;
        where_failed = λ r. false;
        fail = λ r. r;
        same_key = λ r. refl;
        same_for = λ weight request_id case_id r. refl;
        records =
            update-Leaves (k ∷ []) [] (to_published times.published) refl tt c d done
            ∙ sym (updated-none (λ r. r) (b0.executions.rows_of c));
      }
  recorded_lem times k (some e) ctx c d done =
      let (cur, d1, d2, found, waits, written, marked) =
        failure_recorded (mysql_app (with_messages b0)) times k e ctx c d done in
      failed_lem cur d1 d2 found written marked
    where
      failed_lem :
          (cur : ExecutionRecord) (d1 d2 : D)
          → Executions.find_by_id b0.executions ctx k c ≡ (ok (some cur), d1)
          → save b0.executions ctx
              (record cur { status = dispatch_failed; finish_at = some (times.failed_at 0) })
              d1
            ≡ (ok tt, d2)
          → mark_outbox_dead (mysql_app (with_messages b0)) k e ctx d2 ≡ (ok tt, d)
          → IsRecorded b0.executions b0.outbox k dispatch_failed c d
      failed_lem cur d1 d2 found written marked =
          let bury = to_dead (error_text e) in
          let gone : ExecutionRecord = record cur {
            status = dispatch_failed;
            finish_at = some (times.failed_at 0);
          } in
          let (kept, same) = find-Keeps ctx k (some cur) c d1 found in
          let (_, failed) = save_lem b0.executions ctx gone d1 d2 execution_law written in
          let (t, changed, _) =
            update_fenced b0.outbox (k ∷ []) [] bury d2 d outbox_law refl marked in
          let fails =
            λ (row : ExecutionRow). row.execution_id == gone.execution_id && is_waiting row in
          record {
            settling = bury;
            written_at = t;
            settled = λ r. refl;
            same_execution = λ r. refl;
            messages =
                changed
                ∙ ap (updated (is_owned (k ∷ []) []) (touched bury t))
                    (save-Leaves ctx gone tt d1 d2 written ∙ kept);
            where_failed = fails;
            fail = saved gone;
            same_key = λ r. refl;
            same_for = λ weight request_id case_id r. refl;
            records =
                update-Leaves (k ∷ []) [] bury refl tt d2 d marked
                ∙ (failed ∙ ap (updated fails (saved gone)) same);
          }
