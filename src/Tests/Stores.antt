-- ===== src/Tests/Stores.antt =====
-- A database of three lists, and the first phase run over it twice.

use case_execution.Prelude.{true, ℕ, ◌≡◌, ◌∙◌, ◌∷◌, [], List, Bool, some, refl, sym, ap, ◌==◌, ◌&&◌}
use case_execution.Mysql.Rows.{
  message_of_row, case_of_row, record_of_row, from_outbox_message, from_execution_record,
  ExecutionRow, OutboxRow, CaseRow,
}
use case_execution.Domain.Entity.{new_outbox_message}
use case_execution.Domain.Service.{create_execution_record_for_request}
use case_execution.Tests.ChunkExamples.{queued, stored}
use case_execution.Tests.Tables.{list_table, list_table-IsTable, list_tx, list_tx-IsTxRunner}
use case_execution.Tests.Memory.{executor, Broker, times}
use case_execution.Tests.DomainExamples.{zeros}
use case_execution.Mysql.Table.{Table, IsTable}
use case_execution.Mysql.Executions.{IsExecutionTable, same_request}
use case_execution.Mysql.Lease.{IsOutboxTable}
use case_execution.Mysql.Acceptance.{Backend, AreApart, Leaves, mysql_app, accept_twice}
use case_execution.Dispatch.Ports.{Action, ok}
use case_execution.Dispatch.Single.{accept_case, Accepted}
use case_execution.Text.{lit}

-- A statement on one of the lists of a database.
part : {D R A : Type 0} → (D → List R) → (List R → D → D) → Action (List R) A → Action D A
part get put op d = let (r, rows) = op (get d) in (r, put rows d)

module _ {D R : Type 0} (get : D → List R) (put : List R → D → D)
    (kept : (rows : List R) (d : D) → get (put rows d) ≡ rows) where
  part-ok :
      {A : Type 0} (op : Action (List R) A) (a : A) (d d' : D)
      → part get put op d ≡ (ok a, d')
      → (op (get d) ≡ (ok a, get d')) × (d' ≡ put (op (get d)).1 d)
  unfolding part
  part-ok op a d d' done =
      let ended : d' ≡ put (op (get d)).1 d = sym (ap (λ r. r.1) done) in
      (λ i. ((ap (λ r. r.0) done) i, (sym (kept (op (get d)).1 d) ∙ sym (ap get ended)) i), ended)

  unfoldable pub part_table : Table (List R) R → Table D R
  unfolding part
  part_table t = record {
    rows_of = λ d. t.rows_of (get d);
    weight = t.weight;
    create = λ keep r. part get put (t.create keep r);
    create_in_batches = λ keep rs size. part get put (t.create_in_batches keep rs size);
    find_where = λ p. part get put (t.find_where p);
    first_where = λ p. part get put (t.first_where p);
    count_where = λ p. part get put (t.count_where p);
    update_where = λ p f. part get put (t.update_where p f);
    lock_where = λ p limit. part get put (t.lock_where p limit);
  }

  part_table-IsTable :
      (with_key : ℕ → R → R) (clash : R → R → Bool) (t : Table (List R) R)
      → IsTable with_key clash t
      → IsTable with_key clash (part_table t)
  unfolding part_table
  part_table-IsTable with_key clash t law = record {
    creates = λ keep r r' d d' done.
        law.creates keep r r' (get d) (get d') (part-ok (t.create keep r) r' d d' done).0;
    creates_many = λ keep rs rs' size d d' done.
        law.creates_many keep rs rs' size (get d) (get d')
          (part-ok (t.create_in_batches keep rs size) rs' d d' done).0;
    finds =
        λ p d d' rs done. law.finds p (get d) (get d') rs (part-ok (t.find_where p) rs d d' done).0;
    firsts =
        λ p d d' r done. law.firsts p (get d) (get d') r (part-ok (t.first_where p) r d d' done).0;
    counts =
        λ p d d' n done. law.counts p (get d) (get d') n (part-ok (t.count_where p) n d d' done).0;
    updates = λ p f d d' n done.
        law.updates p f (get d) (get d') n (part-ok (t.update_where p f) n d d' done).0;
    locks = λ p limit d d' rs done.
        law.locks p limit (get d) (get d') rs (part-ok (t.lock_where p limit) rs d d' done).0;
  }

  part-Leaves :
      {A X : Type 0} (view : D → X) (op : Action (List R) A)
      → ((rows : List R) (d : D) → view (put rows d) ≡ view d)
      → Leaves view (part get put op)
  part-Leaves view op apart a d d' done =
      ap view (part-ok op a d d' done).1 ∙ apart (op (get d)).1 d

pub record Store : Type 0 where
  pub case_rows : List CaseRow
  pub execution_rows : List ExecutionRow
  pub outbox_rows : List OutboxRow

unfoldable pub cases : Table Store CaseRow
unfolding part_table list_table
cases =
    part_table (λ d. d.case_rows) (λ rows d. record d { case_rows = rows }) (λ rows d. refl)
      (list_table (λ k r. record r { case_id = k }) (λ r s. r.case_id == s.case_id))

unfoldable pub executions : Table Store ExecutionRow
unfolding part_table list_table
executions =
    part_table (λ d. d.execution_rows) (λ rows d. record d { execution_rows = rows })
      (λ rows d. refl)
      (list_table (λ k r. record r { execution_id = k })
        (λ r s. same_request (λ s. s) r.request_id s.request_id && r.case_id == s.case_id))

unfoldable pub outbox : Table Store OutboxRow
unfolding part_table list_table
outbox =
    part_table (λ d. d.outbox_rows) (λ rows d. record d { outbox_rows = rows }) (λ rows d. refl)
      (list_table (λ k r. record r { outbox_id = k }) (λ r s. r.execution_id == s.execution_id))

pub executions-IsExecutionTable : IsExecutionTable executions
unfolding executions
executions-IsExecutionTable =
    part_table-IsTable (λ d. d.execution_rows) (λ rows d. record d { execution_rows = rows })
      (λ rows d. refl) (λ k r. record r { execution_id = k })
      (λ r s. same_request (λ s. s) r.request_id s.request_id && r.case_id == s.case_id) _
      (list_table-IsTable (λ k r. record r { execution_id = k })
        (λ r s. same_request (λ s. s) r.request_id s.request_id && r.case_id == s.case_id))

pub outbox-IsOutboxTable : IsOutboxTable outbox
unfolding outbox
outbox-IsOutboxTable =
    part_table-IsTable (λ d. d.outbox_rows) (λ rows d. record d { outbox_rows = rows })
      (λ rows d. refl) (λ k r. record r { outbox_id = k }) (λ r s. r.execution_id == s.execution_id)
      _
      (list_table-IsTable (λ k r. record r { outbox_id = k })
        (λ r s. r.execution_id == s.execution_id))

pub tables-AreApart : AreApart cases executions outbox
unfolding cases executions outbox
tables-AreApart = record {
  find_case_executions = λ p.
      part-Leaves (λ d. d.case_rows) (λ rows d. record d { case_rows = rows }) (λ rows d. refl)
        (λ d. d.execution_rows) _ (λ rows d. refl);
  find_case_outbox = λ p.
      part-Leaves (λ d. d.case_rows) (λ rows d. record d { case_rows = rows }) (λ rows d. refl)
        (λ d. d.outbox_rows) _ (λ rows d. refl);
  create_execution = λ keep r.
      part-Leaves (λ d. d.execution_rows) (λ rows d. record d { execution_rows = rows })
        (λ rows d. refl) (λ d. d.outbox_rows) _ (λ rows d. refl);
  find_execution = λ p.
      part-Leaves (λ d. d.execution_rows) (λ rows d. record d { execution_rows = rows })
        (λ rows d. refl) (λ d. d.outbox_rows) _ (λ rows d. refl);
  create_message = λ keep r.
      part-Leaves (λ d. d.outbox_rows) (λ rows d. record d { outbox_rows = rows }) (λ rows d. refl)
        (λ d. d.execution_rows) _ (λ rows d. refl);
  find_message = λ p.
      part-Leaves (λ d. d.outbox_rows) (λ rows d. record d { outbox_rows = rows }) (λ rows d. refl)
        (λ d. d.execution_rows) _ (λ rows d. refl);
  update_execution = λ p f.
      part-Leaves (λ d. d.execution_rows) (λ rows d. record d { execution_rows = rows })
        (λ rows d. refl) (λ d. d.outbox_rows) _ (λ rows d. refl);
  update_message = λ p f.
      part-Leaves (λ d. d.outbox_rows) (λ rows d. record d { outbox_rows = rows }) (λ rows d. refl)
        (λ d. d.execution_rows) _ (λ rows d. refl);
}

abbrev pub backend : Backend Store Broker
backend = record {
  cases = cases;
  executions = executions;
  outbox = outbox;
  outbox_enabled = true;
  tx = list_tx;
  visit = λ groups. groups;
  draw = λ d. ok zeros;
  executor = executor;
  grace = 10;
}

abbrev pub one_case : Store
one_case = record {
  case_rows =
      record { case_id = 1; case_name = lit "login"; version = lit "26B"; channel = lit "web" }
      ∷ [];
  execution_rows = [];
  outbox_rows = [];
}

abbrev pub accepted_once : Store
accepted_once = record one_case {
  execution_rows = from_execution_record (stored 1 100) ∷ [];
  outbox_rows = record (from_outbox_message (queued 1)) { outbox_id = 1 } ∷ [];
}

abbrev pub accepted : Accepted
accepted = record {
  accepted = stored 1 100;
  case_name = lit "login";
  message = some (record (queued 1) { outbox_id = 1 });
}

pub first_time :
    accept_case (mysql_app backend) times (lit "r1") 1 (lit "26B") (lit "ann") one_case
    ≡ (ok accepted, accepted_once)
unfolding accept_case mysql_app list_tx case_execution.Mysql.Cases.find_by_id cases
    case_execution.Mysql.Executions.add executions create_execution_record_for_request
    from_execution_record case_execution.Mysql.Outbox.add outbox from_outbox_message
    new_outbox_message record_of_row case_of_row message_of_row
first_time = refl

second_time :
    accept_case (mysql_app backend) times (lit "r1") 1 (lit "27A") (lit "bob") accepted_once
    ≡ (ok accepted, accepted_once)
unfolding accept_case mysql_app list_tx case_execution.Mysql.Cases.find_by_id cases
    case_execution.Mysql.Executions.add executions create_execution_record_for_request
    from_execution_record case_execution.Mysql.Outbox.add outbox from_outbox_message
    new_outbox_message record_of_row case_of_row message_of_row
second_time = refl

accept_twice_example :
    (stored 1 100 ≡ stored 1 100)
    × (accepted.message ≡ accepted.message)
    × (accepted_once.execution_rows ≡ accepted_once.execution_rows)
    × (accepted_once.outbox_rows ≡ accepted_once.outbox_rows)
unfolding executions outbox
accept_twice_example =
    accept_twice backend executions-IsExecutionTable outbox-IsOutboxTable tables-AreApart times
      times (lit "r1") 1 (lit "26B") (lit "27A") (lit "ann") (lit "bob") accepted accepted one_case
      accepted_once accepted_once list_tx-IsTxRunner refl first_time second_time
