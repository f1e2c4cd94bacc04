-- ===== src/Mysql/Outbox.antt =====
-- Add and BatchAdd of internal/infrastructure/persistence/mysql/outbox_repository.go.
use case_execution.Prelude.{
  append-nil, Each-unit, List, Bool, true, [], ◌∷◌, ◌++◌, ◌==◌, ◌≡◌, ℕ, map, contains, refl, sym,
  ap, subst, ◌∙◌, Each, Each-map, Each-imp, Pairs, Pairs-imp,
}
use case_execution.Mysql.Table.{return-ok, Table, wrapped, after-wrapped}
use case_execution.Dispatch.Ports.{after, ok, Action, Ctx}
use case_execution.Text.{format_int, lit}
use case_execution.Mysql.Rows.{message_of_row, from_outbox_message, OutboxRow}
use case_execution.Domain.Errs.{opaque, GoError}
use case_execution.Domain.Entity.{OutboxMessage}
use case_execution.Mysql.Table.Upsert.{selected, Upserted, upsert-ok, upsert_twice}
use case_execution.Mysql.Table.Reload.{reload, reload-Pairs, Read, by_key, lookup-assign}
use case_execution.Mysql.Lease.{IsOutboxTable}
use mathlib.Core.List.{Mem}

abbrev pub is_message_of : ℕ → OutboxRow → Bool
is_message_of execution_id r = r.execution_id == execution_id

abbrev execution_missing : ℕ → GoError
execution_missing execution_id = opaque (
    lit "select idempotent dispatch_outbox batch: execution_id="
    ++ (format_int execution_id ++ lit " missing"))

abbrev execution_of : OutboxMessage → ℕ
execution_of m = m.execution_id

-- The message is read from a row of the table, for its execution.
abbrev pub Kept : List OutboxRow → OutboxMessage → OutboxMessage → Type 0
Kept rows m s =
    (row : OutboxRow) × Mem row rows
    × (row.execution_id ≡ m.execution_id)
    × (s ≡ message_of_row row)

module _ {D : Type 0} (table : Table D OutboxRow) where
  unfoldable pub add : Ctx → OutboxMessage → Action D OutboxMessage
  add ctx m d =
      after (wrapped (lit "insert dispatch_outbox: ") (table.create true (from_outbox_message m) d))
        (λ row.
          selected table (lit "select idempotent dispatch_outbox: ") message_of_row
            (is_message_of m.execution_id))

  reread_batch : List OutboxMessage → List OutboxRow → Action D (List OutboxMessage)
  reread_batch messages rows d =
      after
        (wrapped (lit "select idempotent dispatch_outbox batch: ")
          (table.find_where (λ r. contains (map execution_of messages) r.execution_id) d))
        (λ persisted d1. (
          reload execution_missing execution_of message_of_row
              (by_key (λ r. r.execution_id) persisted) messages,
          d1,
        ))

  unfoldable pub batch_add : Ctx → List OutboxMessage → Action D (List OutboxMessage)
  unfolding reread_batch
  batch_add ctx [] d = (ok [], d)
  batch_add ctx (m ∷ ms) d =
      after
        (wrapped (lit "batch insert dispatch_outbox: ")
          (table.create_in_batches true (map from_outbox_message (m ∷ ms)) 200 d))
        (reread_batch (m ∷ ms))

  pub add-Upserted :
      (ctx : Ctx) (m s : OutboxMessage) (d d' : D)
      → IsOutboxTable table
      → add ctx m d ≡ (ok s, d')
      → Upserted message_of_row
          (is_message_of m.execution_id)
          s
          (table.rows_of d)
          (table.rows_of d')
  unfolding add from_outbox_message
  add-Upserted ctx m s d d' law done =
      let (row, d1, created, last) =
        after-wrapped (lit "insert dispatch_outbox: ") (table.create true (from_outbox_message m) d)
          (λ row.
            selected table (lit "select idempotent dispatch_outbox: ") message_of_row
              (is_message_of m.execution_id))
          s d' done in
      upsert-ok table _ _ message_of_row true (lit "select idempotent dispatch_outbox: ")
        (is_message_of m.execution_id) (from_outbox_message m) row s d d1 d' law refl created last

  -- There is one message for an execution: a second addition for it inserts nothing, whatever it holds,
  -- and returns the message that the first one returned.
  pub add_twice :
      (ctx : Ctx) (m s m' s' : OutboxMessage) (d d' d'' : D)
      → IsOutboxTable table
      → m'.execution_id ≡ m.execution_id
      → add ctx m d ≡ (ok s, d')
      → add ctx m' d' ≡ (ok s', d'')
      → (s' ≡ s) × (table.rows_of d'' ≡ table.rows_of d')
  add_twice ctx m s m' s' d d' d'' law same done again =
      let two = add-Upserted ctx m' s' d' d'' law again in
      upsert_twice message_of_row (is_message_of m.execution_id) s s' (table.rows_of d)
        (table.rows_of d') (table.rows_of d'') (add-Upserted ctx m s d d' law done) (rw same at two)

  reread_batch-ok :
      (messages : List OutboxMessage) (rows : List OutboxRow) (out : List OutboxMessage) (d d' : D)
      → IsOutboxTable table
      → reread_batch messages rows d ≡ (ok out, d')
      → (table.rows_of d' ≡ table.rows_of d) × Pairs (Kept (table.rows_of d')) messages out
  unfolding reread_batch
  reread_batch-ok messages rows out d d' law done =
      let p : OutboxRow → Bool = λ r. contains (map execution_of messages) r.execution_id in
      let (persisted, d1, got, last) =
        after-wrapped (lit "select idempotent dispatch_outbox batch: ") (table.find_where p d) _ out
          d' done in
      let (same, each) = law.finds p d d1 persisted got in
      let read =
        reload-Pairs execution_missing execution_of message_of_row
          (by_key (λ r. r.execution_id) persisted) messages out (ap (λ r. r.0) last) in
      let now_same : table.rows_of d' ≡ table.rows_of d =
        ap (λ r. table.rows_of r.1) (sym last) ∙ same in
      let Holds : ℕ → OutboxRow → Type 0 =
        λ k row. Mem row (table.rows_of d) × (row.execution_id ≡ k) in
      let entries : Each (λ e. Holds e.0 e.1) (map (λ r. (r.execution_id, r)) persisted) =
        Each-map (λ e. Holds e.0 e.1) (λ r. (r.execution_id, r)) persisted
          (Each-imp (λ r. (p r ≡ true) × Mem r (table.rows_of d)) (λ r. Holds r.execution_id r)
            persisted (λ r met. (met.1, refl)) each) in
      let pairs : Pairs (Kept (table.rows_of d)) messages out =
        Pairs-imp (λ m. Unit)
          (Read execution_missing execution_of message_of_row
            (by_key (λ r. r.execution_id) persisted))
          (Kept (table.rows_of d)) messages out
          (λ m s none_needed seen.
            let (row, held, made) = seen in
            let (mem, key) =
              lookup-assign Holds (execution_of m) row [] (map (λ r. (r.execution_id, r)) persisted)
                entries tt held in
            (row, mem, key, made))
          (Each-unit messages) read in
      (now_same, subst (λ x. Pairs (Kept x) messages out) (sym now_same) pairs)

  -- A batch of messages that is added returns for each, in order, a row that the table then has for its
  -- execution, and leaves every row that was there.
  pub batch_add_lem :
      (ctx : Ctx) (messages out : List OutboxMessage) (d d' : D)
      → IsOutboxTable table
      → batch_add ctx messages d ≡ (ok out, d')
      → ((new : List OutboxRow) × (table.rows_of d' ≡ table.rows_of d ++ new))
        × Pairs (Kept (table.rows_of d')) messages out
  unfolding batch_add
  batch_add_lem ctx [] out d d' law done =
      let (none_out, same) = return-ok [] out d d' done in
      (
        ([], ap table.rows_of same ∙ sym (append-nil (table.rows_of d))),
        subst (Pairs (Kept (table.rows_of d')) []) (sym none_out) tt,
      )
  batch_add_lem ctx (m ∷ ms) out d d' law done =
      let (rows, d1, created, last) =
        after-wrapped (lit "batch insert dispatch_outbox: ")
          (table.create_in_batches true (map from_outbox_message (m ∷ ms)) 200 d)
          (reread_batch (m ∷ ms)) out d' done in
      let (new, grown, whole) = law.creates_many _ _ rows 200 d d1 created in
      let (same, pairs) = reread_batch-ok (m ∷ ms) rows out d1 d' law last in
      ((new, same ∙ grown), pairs)
