-- ===== src/Mysql/Acceptance.antt =====
-- The first phase of ExecuteCaseWithRequest over the repositories of this folder.
use case_execution.Dispatch.Ports.{
  return, Action, Reply, ok, request, TxRunner, IsTxRunner, OutboxRepository, UtCaseExecutorClient,
  >>=-eq-ok,
}
use case_execution.Prelude.{
  refl, if-false, ℕ, ◌+◌, ◌≡◌, ◌∙◌, List, Bool, true, false, Option, none, some, sym, ap, subst,
  not, ◌==◌,
}
use case_execution.Mysql.Table.{Table, after-wrapped, found-ok, return-ok, found}
use case_execution.Mysql.Table.Upsert.{Upserted, upsert_twice, selected}
use case_execution.Mysql.Rows.{
  ExecutionRow, OutboxRow, CaseRow, record_of_row, message_of_row, from_execution_record,
  from_outbox_message,
}
use case_execution.Mysql.Executions.{IsExecutionTable, is_for, reread}
use case_execution.Mysql.Executions
use case_execution.Mysql.Executions.Idempotent.{add-Upserted}
use case_execution.Mysql.Outbox.{is_message_of}
use case_execution.Mysql.Outbox
use case_execution.Mysql.Cases
use case_execution.Mysql.Lease.{IsOutboxTable}
use case_execution.Mysql.Repositories.{
  new_execution_repository, new_outbox_repository, new_ut_case_repository,
}
use case_execution.Dispatch.App.{App, Times}
use case_execution.Dispatch.Single.{accept_case, insert_case, insert_found, enqueue, Accepted}
use case_execution.Domain.Service.{create_execution_record_for_request}
use case_execution.Domain.Entity.{
  ExecutionRecord, OutboxMessage, UtCase, new_outbox_message, new_execution_record_for_request,
}
use case_execution.Domain.Status.{ExecutionStatus}
use case_execution.Text.{Bytes, lit, is_empty}

-- A statement that succeeds leaves what `view` sees.
abbrev pub Leaves : {D A X : Type 0} → (D → X) → Action D A → Type 0
Leaves {D} {A} {X} view op = (a : A) (d d' : D) → op d ≡ (ok a, d') → view d' ≡ view d

-- The tables are different ones.
pub record AreApart {D : Type 0} (cases : Table D CaseRow) (executions : Table D ExecutionRow)
    (outbox : Table D OutboxRow) : Type 0 where
  pub find_case_executions : (p : CaseRow → Bool) → Leaves executions.rows_of (cases.first_where p)
  pub find_case_outbox : (p : CaseRow → Bool) → Leaves outbox.rows_of (cases.first_where p)
  pub create_execution :
      (keep : Bool) (r : ExecutionRow) → Leaves outbox.rows_of (executions.create keep r)
  pub find_execution : (p : ExecutionRow → Bool) → Leaves outbox.rows_of (executions.first_where p)
  pub create_message :
      (keep : Bool) (r : OutboxRow) → Leaves executions.rows_of (outbox.create keep r)
  pub find_message : (p : OutboxRow → Bool) → Leaves executions.rows_of (outbox.first_where p)
  pub update_execution :
      (p : ExecutionRow → Bool) (f : ℕ → ExecutionRow → ExecutionRow)
      → Leaves outbox.rows_of (executions.update_where p f)
  pub update_message :
      (p : OutboxRow → Bool) (f : ℕ → OutboxRow → OutboxRow)
      → Leaves executions.rows_of (outbox.update_where p f)

selected-Leaves :
    {D R S X : Type 0} (table : Table D R) (prefix : Bytes) (entity : R → S) (p : R → Bool)
    (view : D → X)
    → Leaves view (table.first_where p)
    → Leaves view (selected table prefix entity p)
selected-Leaves table prefix entity p view leaves s d d' done =
    let (row, d1, got, last) =
      after-wrapped prefix (found (table.first_where p d)) (λ stored. return (entity stored)) s d'
        done in
    ap view (return-ok (entity row) s d1 d' last).1
    ∙ leaves (some row) d d1 (found-ok (table.first_where p d) row d1 got)

-- The service over the tables; the setting outbox.enabled of the process says whether it has an outbox. The
-- broker, the map order and the random source are left open.
pub record Backend (D Q : Type 0) : Type 1 where
  pub cases : Table D CaseRow
  pub executions : Table D ExecutionRow
  pub outbox : Table D OutboxRow
  pub outbox_enabled : Bool
  pub tx : TxRunner D
  pub visit : List (ExecutionStatus × List ℕ) → List (ExecutionStatus × List ℕ)
  pub draw : D → Reply Bytes
  pub executor : UtCaseExecutorClient Q
  pub grace : ℕ

abbrev pub with_outbox :
    {D : Type 0} → (enabled : Bool) → OutboxRepository D → Option (OutboxRepository D)
with_outbox true repo = some repo
with_outbox false repo = none

unfoldable pub mysql_app : {D Q : Type 0} → Backend D Q → App D Q
unfolding new_execution_repository new_outbox_repository new_ut_case_repository
mysql_app b = record {
  grace = b.grace;
  tx = b.tx;
  case_repo = new_ut_case_repository b.cases;
  exec_repo = new_execution_repository b.executions b.visit;
  outbox_repo = with_outbox b.outbox_enabled (new_outbox_repository b.outbox b.tx b.draw);
  executor = b.executor;
}

module _ {D Q : Type 0} (b : Backend D Q) (execution_law : IsExecutionTable b.executions)
    (outbox_law : IsOutboxTable b.outbox) (apart : AreApart b.cases b.executions b.outbox) where
  -- With an outbox there is a message for the execution and no other new one; without, there is none.
  abbrev pub Sends : Bool → ℕ → Option OutboxMessage → D → D → Type 0
  Sends true execution_id message d d' =
      (m : OutboxMessage) × (message ≡ some m)
      × Upserted message_of_row (is_message_of execution_id) m (b.outbox.rows_of d)
          (b.outbox.rows_of d')
  Sends false execution_id message d d' =
      (message ≡ none) × (b.outbox.rows_of d' ≡ b.outbox.rows_of d)

  Sends-shift :
      (on : Bool) (k k' : ℕ) (message : Option OutboxMessage) (d0 d d' : D)
      → k' ≡ k
      → b.outbox.rows_of d ≡ b.outbox.rows_of d0
      → Sends on k message d d'
      → Sends on k' message d0 d'
  Sends-shift true k k' message d0 d d' key same (m, made, queued) = (
    m,
    made,
    subst
        (λ x.
          Upserted message_of_row (is_message_of x) m (b.outbox.rows_of d0) (b.outbox.rows_of d'))
        (sym key)
        (subst (λ x. Upserted message_of_row (is_message_of k) m x (b.outbox.rows_of d')) same
          queued),
  )
  Sends-shift false k k' message d0 d d' key same (made, still) = (made, still ∙ same)

  -- What an acceptance under a request identifier leaves: a row for the request and the case, a message
  -- for its execution where there is an outbox, and nothing else.
  pub record Accepts (request_id : Bytes) (case_id : ℕ) (a : Accepted) (d d' : D) : Type 0 where
    pub row :
        Upserted record_of_row
          (is_for b.executions.weight request_id case_id)
          a.accepted
          (b.executions.rows_of d)
          (b.executions.rows_of d')
    pub queued : Sends b.outbox_enabled a.accepted.execution_id a.message d d'

  find-Leaves :
      {X : Type 0} (view : D → X) (case_id : ℕ)
      → ((p : CaseRow → Bool) → Leaves view (b.cases.first_where p))
      → Leaves view (Cases.find_by_id b.cases request case_id)
  unfolding Cases.find_by_id
  find-Leaves view case_id leaves ut d d' done =
      let (row, d1, got, last) =
        after-wrapped (lit "select ut_case by id: ")
          (b.cases.first_where (λ r. r.case_id == case_id) d) _ ut d' done in
      ap view (return-ok _ ut d1 d' last).1 ∙ leaves _ row d d1 got

  add_execution-Leaves :
      (r : ExecutionRecord)
      → is_empty r.request_id ≡ false
      → Leaves b.outbox.rows_of (Executions.add b.executions request r)
  unfolding Executions.add reread
  add_execution-Leaves r named s d d' done =
      let (row, d1, created, last) =
        after-wrapped (lit "insert execution_record: ")
          (b.executions.create (not (is_empty r.request_id)) (from_execution_record r) d)
          (reread b.executions r) s d' done in
      selected-Leaves b.executions (lit "select idempotent execution_record: ") record_of_row
        (is_for b.executions.weight r.request_id r.case_id) b.outbox.rows_of
        (apart.find_execution _) s d1 d' (sym (if-false _ _ (is_empty r.request_id) named) ∙ last)
      ∙ apart.create_execution _ (from_execution_record r) row d d1 created

  add_message-Leaves :
      (m : OutboxMessage) → Leaves b.executions.rows_of (Outbox.add b.outbox request m)
  unfolding Outbox.add
  add_message-Leaves m s d d' done =
      let (row, d1, created, last) =
        after-wrapped (lit "insert dispatch_outbox: ")
          (b.outbox.create true (from_outbox_message m) d)
          (λ row.
            selected b.outbox (lit "select idempotent dispatch_outbox: ") message_of_row
              (is_message_of m.execution_id))
          s d' done in
      selected-Leaves b.outbox (lit "select idempotent dispatch_outbox: ") message_of_row
        (is_message_of m.execution_id) b.executions.rows_of (apart.find_message _) s d1 d' last
      ∙ apart.create_message true (from_outbox_message m) row d d1 created

  enqueue-Sends :
      (on : Bool) (times : Times) (r : ExecutionRecord) (name : Bytes) (a : Accepted) (d d' : D)
      → enqueue (mysql_app (record b { outbox_enabled = on })) times r name d ≡ (ok a, d')
      → (a.accepted ≡ r)
        × (b.executions.rows_of d' ≡ b.executions.rows_of d)
        × Sends on r.execution_id a.message d d'
  unfolding enqueue mysql_app new_outbox_message
  enqueue-Sends false times r name a d d' done =
      let (made, ended) =
        return-ok (record { accepted = r; case_name = name; message = none }) a d d' done in
      (
        ap (λ x. x.accepted) made,
        ap b.executions.rows_of ended,
        (ap (λ x. x.message) made, ap b.outbox.rows_of ended),
      )
  enqueue-Sends true times r name a d d' done =
      let (m, d2, sent, last) =
        >>=-eq-ok
          (Outbox.add b.outbox request (new_outbox_message r name (times.enqueued + b.grace))) _ d
          d' a done in
      let (made, ended) =
        return-ok (record { accepted = r; case_name = name; message = some m }) a d2 d' last in
      let queued =
        Outbox.add-Upserted b.outbox request (new_outbox_message r name (times.enqueued + b.grace))
          m d d2 outbox_law sent in
      (
        ap (λ x. x.accepted) made,
        ap b.executions.rows_of ended ∙ add_message-Leaves _ m d d2 sent,
        (
          m,
          ap (λ x. x.message) made,
          subst
              (λ x. Upserted message_of_row (is_message_of r.execution_id) m (b.outbox.rows_of d) x)
              (sym (ap b.outbox.rows_of ended)) queued,
        ),
      )

  insert_found-Accepts :
      (times : Times) (request_id : Bytes) (case_id : ℕ) (v user : Bytes) (ut : Option UtCase)
      (a : Accepted) (d d' : D)
      → is_empty request_id ≡ false
      → insert_found (mysql_app b) times request_id case_id v user ut d ≡ (ok a, d')
      → Accepts request_id case_id a d d'
  unfolding insert_found mysql_app create_execution_record_for_request
      new_execution_record_for_request
  insert_found-Accepts times request_id case_id v user none a d d' named done =
      absurd (cc (ap (λ r. r.0) done))
  insert_found-Accepts times request_id case_id v user (some ut) a d d' named done =
      let new = create_execution_record_for_request (times.created 0) request_id case_id v user in
      let (r, d1, added, rest) =
        >>=-eq-ok (Executions.add b.executions request new)
          (λ r. enqueue (mysql_app b) times r ut.case_name) d d' a done in
      let (same, rows_after, sends) =
        enqueue-Sends b.outbox_enabled times r ut.case_name a d1 d' rest in
      let row = add-Upserted b.executions request new r d d1 execution_law named added in
      record {
        row =
            subst
              (λ x.
                Upserted record_of_row (is_for b.executions.weight request_id case_id) x
                  (b.executions.rows_of d) (b.executions.rows_of d'))
              (sym same)
              (subst
                (λ x.
                  Upserted record_of_row (is_for b.executions.weight request_id case_id) r
                    (b.executions.rows_of d) x)
                (sym rows_after) row);
        queued =
            Sends-shift b.outbox_enabled r.execution_id a.accepted.execution_id a.message d d1 d'
              (ap (λ x. x.execution_id) same) (add_execution-Leaves new named r d d1 added) sends;
      }

  pub insert_case-Accepts :
      (times : Times) (request_id : Bytes) (case_id : ℕ) (v user : Bytes) (a : Accepted) (d d' : D)
      → is_empty request_id ≡ false
      → insert_case (mysql_app b) times request_id case_id v user d ≡ (ok a, d')
      → Accepts request_id case_id a d d'
  unfolding insert_case mysql_app
  insert_case-Accepts times request_id case_id v user a d d' named done =
      let (ut, d1, looked, rest) =
        >>=-eq-ok (Cases.find_by_id b.cases request case_id)
          (insert_found (mysql_app b) times request_id case_id v user) d d' a done in
      let accepts = insert_found-Accepts times request_id case_id v user ut a d1 d' named rest in
      let rows =
        find-Leaves b.executions.rows_of case_id apart.find_case_executions ut d d1 looked in
      let messages = find-Leaves b.outbox.rows_of case_id apart.find_case_outbox ut d d1 looked in
      record {
        row =
            subst
              (λ x.
                Upserted record_of_row (is_for b.executions.weight request_id case_id) a.accepted x
                  (b.executions.rows_of d'))
              rows accepts.row;
        queued =
            Sends-shift b.outbox_enabled a.accepted.execution_id a.accepted.execution_id a.message d
              d1 d' refl messages accepts.queued;
      }

  -- Twice the same message, or none both times.
  sends_twice :
      (on : Bool) (k : ℕ) (message message' : Option OutboxMessage) (d d' d'' : D)
      → Sends on k message d d'
      → Sends on k message' d' d''
      → (message' ≡ message) × (b.outbox.rows_of d'' ≡ b.outbox.rows_of d')
  sends_twice true k message message' d d' d'' (m, made, queued) (m', made', queued') =
      let (sent, messages) =
        upsert_twice message_of_row (is_message_of k) m m' (b.outbox.rows_of d)
          (b.outbox.rows_of d') (b.outbox.rows_of d'') queued queued' in
      (made' ∙ (ap some sent ∙ sym made), messages)
  sends_twice false k message message' d d' d'' (made, same) (made', same') =
      (made' ∙ sym made, same')

  -- A request that is accepted again, as by a retry after a crash, finds its execution and its message:
  -- the first phase, run twice under one identifier for one case, returns the same record and message, and
  -- the second time inserts neither a record nor a message, with an outbox or without, whatever version, user or time it comes with.
  pub accept_twice :
      (times times' : Times) (request_id : Bytes) (case_id : ℕ) (v v' user user' : Bytes)
      (a a' : Accepted) (d d' d'' : D)
      → IsTxRunner b.tx
      → is_empty request_id ≡ false
      → accept_case (mysql_app b) times request_id case_id v user d ≡ (ok a, d')
      → accept_case (mysql_app b) times' request_id case_id v' user' d' ≡ (ok a', d'')
      → (a'.accepted ≡ a.accepted)
        × (a'.message ≡ a.message)
        × (b.executions.rows_of d'' ≡ b.executions.rows_of d')
        × (b.outbox.rows_of d'' ≡ b.outbox.rows_of d')
  unfolding accept_case mysql_app
  accept_twice times times' request_id case_id v v' user user' a a' d d' d'' tx_law named done
        again =
      let one = insert_case-Accepts times request_id case_id v user a d d' named (
        tx_law.commits _ request (insert_case (mysql_app b) times request_id case_id v user) d d' a
          done) in
      let two = insert_case-Accepts times' request_id case_id v' user' a' d' d'' named (
        tx_law.commits _ request (insert_case (mysql_app b) times' request_id case_id v' user') d'
          d'' a' again) in
      let (same, rows) =
        upsert_twice record_of_row (is_for b.executions.weight request_id case_id) a.accepted
          a'.accepted (b.executions.rows_of d) (b.executions.rows_of d') (b.executions.rows_of d'')
          one.row two.row in
      let (sent, messages) =
        sends_twice b.outbox_enabled a.accepted.execution_id a.message a'.message d d' d''
          one.queued
          (Sends-shift b.outbox_enabled a'.accepted.execution_id a.accepted.execution_id a'.message
            d' d' d'' (sym (ap (λ x. x.execution_id) same)) refl two.queued) in
      (same, sent, rows, messages)
