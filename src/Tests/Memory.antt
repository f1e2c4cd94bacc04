-- ===== src/Tests/Memory.antt =====
-- A database of lists and a broker that lists what it received, for the examples.
use case_execution.Prelude.{
  ℕ, suc, ◌+◌, ◌≡◌, Bool, ◌&&◌, not, Option, none, some, List, [], ◌∷◌, ◌++◌, map, contains,
  if◌then◌else◌, ◌==◌,
}
use case_execution.Text.{lit, str_eq}
use case_execution.Domain.Status.{wait, status_eq}
use case_execution.Domain.Errs.{GoError, opaque}
use case_execution.Domain.Entity.{
  ExecutionRecord, ExecutionTask, OutboxMessage, OutboxState, pending, published, dead, UtCase,
}
use case_execution.Dispatch.Ports.{
  ◌>>=◌, Reply, ok, err, Action, return, UtCaseRepository, ExecutionRepository, OutboxRepository,
  UtCaseExecutorClient, TxRunner, IsTxRunner,
}
use case_execution.Dispatch.App.{App, Times}

pub record Db : Type 0 where
  pub rows : List ExecutionRecord
  pub messages : List OutboxMessage
  pub next : ℕ

-- The execution numbers that were published, the newest last.
pub record Broker : Type 0 where
  pub sent : List ℕ
  pub refuses : List ℕ

abbrev pub find_row : (ExecutionRecord → Bool) → List ExecutionRecord → Option ExecutionRecord
find_row p [] = none
find_row p (r ∷ rs) = if p r then some r else find_row p rs

abbrev pub add_row : ExecutionRecord → Action Db ExecutionRecord
add_row r d =
    let fresh : ExecutionRecord = record r { execution_id = d.next } in
    elim (find_row (λ s. str_eq s.request_id r.request_id && s.case_id == r.case_id) d.rows) [
      | some old ↦ (ok old, d)
      | none ↦ (ok fresh, record d { rows = d.rows ++ fresh ∷ []; next = suc d.next })
    ]

abbrev pub add_rows : List ExecutionRecord → Action Db (List ExecutionRecord)
add_rows [] = return []
add_rows (r ∷ rs) = do s ← add_row r; ss ← add_rows rs; return (s ∷ ss)

abbrev pub find_message : ℕ → List OutboxMessage → Option OutboxMessage
find_message k [] = none
find_message k (m ∷ ms) = if m.execution_id == k then some m else find_message k ms

abbrev pub add_message : OutboxMessage → Action Db OutboxMessage
add_message m d = elim (find_message m.execution_id d.messages) [
  | some old ↦ (ok old, d)
  | none ↦ (ok m, record d { messages = d.messages ++ m ∷ [] })
]

abbrev pub add_messages : List OutboxMessage → Action Db (List OutboxMessage)
add_messages [] = return []
add_messages (m ∷ ms) = do n ← add_message m; ns ← add_messages ms; return (n ∷ ns)

abbrev pub set_status : List ExecutionRecord → List ExecutionRecord → List ExecutionRecord
set_status news [] = []
set_status news (r ∷ rs) =
    (elim (find_row (λ s. s.execution_id == r.execution_id) news) [
      | none ↦ r
      | some s ↦
          if status_eq r.status wait
          then record r { status = s.status; finish_at = s.finish_at }
          else r
    ])
    ∷ set_status news rs

abbrev pub set_state : OutboxState → List ℕ → List OutboxMessage → List OutboxMessage
set_state s ids [] = []
set_state s ids (m ∷ ms) =
    (if contains ids m.execution_id then record m { state = s } else m) ∷ set_state s ids ms

abbrev pub case_repo : UtCaseRepository Db
case_repo = record {
  find_by_id = λ ctx k. return (
      if k == 9
      then none
      else some (record {
        case_id = k;
        case_name = lit "login";
        version = lit "26B";
        channel = lit "web";
      }));
}

abbrev pub exec_repo : ExecutionRepository Db
exec_repo = record {
  add = λ ctx r. add_row r;
  batch_add = λ ctx rs. add_rows rs;
  find_by_id = λ ctx k d. (ok (find_row (λ s. s.execution_id == k) d.rows), d);
  save = λ ctx r d. (ok tt, record d { rows = set_status (r ∷ []) d.rows });
  batch_update_status = λ ctx rs d. (ok tt, record d { rows = set_status rs d.rows });
}

abbrev pub outbox_repo : OutboxRepository Db
outbox_repo = record {
  add = λ ctx m. add_message m;
  batch_add = λ ctx ms. add_messages ms;
  claim_pending = λ ctx limit now until d. (ok d.messages, d);
  mark_published =
      λ ctx ids token t d. (ok tt, record d { messages = set_state published ids d.messages });
  mark_retry =
      λ ctx ids token t e d. (ok tt, record d { messages = set_state pending ids d.messages });
  mark_dead = λ ctx ids token e d. (ok tt, record d { messages = set_state dead ids d.messages });
}

abbrev pub task_ids : List ExecutionTask → List ℕ
task_ids = map (λ t. t.execution_id)

abbrev pub those : (ℕ → Bool) → List ℕ → List ℕ
those p [] = []
those p (x ∷ xs) = if p x then x ∷ those p xs else those p xs

abbrev pub executor : UtCaseExecutorClient Broker
executor = record {
  execute = λ ctx r name q.
      if contains q.refuses r.execution_id
      then (some (opaque (lit "nack")), q)
      else (none, record q { sent = q.sent ++ r.execution_id ∷ [] });
  batch_run = λ ctx tasks q. (
    record {
      success_ids = those (λ k. not (contains q.refuses k)) (task_ids tasks);
      failed_ids = those (contains q.refuses) (task_ids tasks);
      error_message = [];
    },
    none,
    record q { sent = q.sent ++ those (λ k. not (contains q.refuses k)) (task_ids tasks) },
  );
}

abbrev pub finish_tx : {A : Type 0} → Reply A × Db → Db → Reply A × Db
finish_tx (ok a, d') d = (ok a, d')
finish_tx (err e, d') d = (err e, d)

abbrev pub tx_runner : TxRunner Db
tx_runner = record { run = λ A ctx f d. finish_tx (f d) d }

finish_tx-ok :
    {A : Type 0} (r : Reply A × Db) (d d' : Db) (a : A)
    → finish_tx r d ≡ (ok a, d')
    → r ≡ (ok a, d')
finish_tx-ok (ok b, d'') d d' a h = h
finish_tx-ok (err e, d'') d d' a h = absurd (cc h)

finish_tx-err :
    {A : Type 0} (r : Reply A × Db) (d d' : Db) (e : GoError) → finish_tx r d ≡ (err e, d') → d' ≡ d
finish_tx-err (ok b, d'') d d' e h = absurd (cc h)
finish_tx-err (err x, d'') d d' e h = cc h

pub tx_runner-IsTxRunner : IsTxRunner tx_runner
tx_runner-IsTxRunner = record {
  commits = λ A ctx f d d' a h. finish_tx-ok (f d) d d' a h;
  rolls_back = λ A ctx f d d' e h. finish_tx-err (f d) d d' e h;
}

abbrev pub app : App Db Broker
app = record {
  grace = 10;
  tx = tx_runner;
  case_repo = case_repo;
  exec_repo = exec_repo;
  outbox_repo = some outbox_repo;
  executor = executor;
}

abbrev pub times : Times
times = record { created = λ i. 100 + i; enqueued = 110; failed_at = λ i. 120 + i; published = 130 }

abbrev pub empty_db : Db
empty_db = record { rows = []; messages = []; next = 1 }

abbrev pub broker : Broker
broker = record { sent = []; refuses = 2 ∷ [] }

abbrev pub case_of : ℕ → UtCase
case_of k = record {
  case_id = k;
  case_name = lit "login";
  version = lit "26B";
  channel = lit "web";
}
