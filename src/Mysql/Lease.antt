-- ===== src/Mysql/Lease.antt =====
-- The conditional updates of internal/infrastructure/persistence/mysql/outbox_repository.go. The
-- database's UPDATE is a parameter.
use case_execution.Mysql.Table.{Table, IsTable, chosen, updated}
use case_execution.Prelude.{
  ◌∙◌, sym, ==_iff, Bool-cases, ap, inl, inr, length, ◌==◌, ◌&&◌, false, is_nil, contains, ◌≡◌,
  Bool, List, ℕ, none, some, [], if◌then◌else◌,
}
use case_execution.Domain.Entity.{processing, pending, dead, published}
use case_execution.Dispatch.Ports.{Reply-cases, Action, Reply, ok, err}
use case_execution.Text.{str_eq, is_empty, lit, Bytes}
use case_execution.Domain.Errs.{opaque, wrap}
use case_execution.Mysql.Rows.{state_text, OutboxRow}
use case_execution.Mysql.Helpers.{unique_int64s, truncate_outbox_error}

-- The table dispatch_outbox, with its unique index on execution_id.
abbrev pub IsOutboxTable : {D : Type 0} → Table D OutboxRow → Type 0
IsOutboxTable =
    IsTable (λ k r. record r { outbox_id = k }) (λ r s. r.execution_id == s.execution_id)

-- GORM sets update_at in every update of a message.
abbrev pub touched : (OutboxRow → OutboxRow) → ℕ → OutboxRow → OutboxRow
touched f written_at r = record (f r) { updated_at = written_at }

-- Without a token a message must be pending, and with one it must be leased under it.
abbrev pub is_owned : List ℕ → Bytes → OutboxRow → Bool
is_owned ids token r =
    contains ids r.execution_id
    && (if is_empty token
        then str_eq r.state (state_text pending)
        else str_eq r.state (state_text processing) && str_eq r.lease_token token)

abbrev pub check_affected : {D : Type 0} → List ℕ → Reply ℕ × D → Reply (Unit {0}) × D
check_affected ids (err e, d) = (err (wrap (lit "update dispatch_outbox: ") e []), d)
check_affected ids (ok n, d) =
    if n == length (unique_int64s ids)
    then (ok tt, d)
    else (err (opaque (lit "update dispatch_outbox: lease lost or state changed")), d)

pub check_affected-ok :
    {D : Type 0} (ids : List ℕ) (n : ℕ) (d d' : D)
    → check_affected ids (ok n, d) ≡ (ok tt, d')
    → (n ≡ length (unique_int64s ids)) × (d ≡ d')
check_affected-ok ids n d d' done = elim (Bool-cases (n == length (unique_int64s ids))) [
  | inl e ↦ ((==_iff n (length (unique_int64s ids))).0 e, cc (rw e at done))
  | inr e ↦ absurd (cc (rw e at done))
]

module _ {D : Type 0} (table : Table D OutboxRow) where
  unfoldable pub update_by_execution_ids :
      List ℕ → Bytes → (OutboxRow → OutboxRow) → Action D (Unit {0})
  update_by_execution_ids ids token f d =
      if is_nil ids
      then (ok tt, d)
      else check_affected ids (table.update_where (is_owned ids token) (touched f) d)

  unfoldable pub mark_published : List ℕ → Bytes → ℕ → Action D (Unit {0})
  unfolding update_by_execution_ids
  mark_published ids token published_at = update_by_execution_ids ids token (λ r. record r {
    state = state_text published;
    published_at = some published_at;
    lease_until = none;
    lease_token = [];
    last_error = [];
  })

  unfoldable pub mark_retry : List ℕ → Bytes → ℕ → Bytes → Action D (Unit {0})
  unfolding update_by_execution_ids
  mark_retry ids token available_at last_error = update_by_execution_ids ids token (λ r. record r {
    state = state_text pending;
    available_at = available_at;
    lease_until = none;
    lease_token = [];
    last_error = truncate_outbox_error last_error;
  })

  unfoldable pub mark_dead : List ℕ → Bytes → Bytes → Action D (Unit {0})
  unfolding update_by_execution_ids
  mark_dead ids token last_error = update_by_execution_ids ids token (λ r. record r {
    state = state_text dead;
    lease_until = none;
    lease_token = [];
    last_error = truncate_outbox_error last_error;
  })

  -- An update of some messages that succeeds has met exactly as many rows as there are different
  -- messages, each of them pending, where no token is given, or leased under the token; these rows are
  -- changed, with one time of update, and every other row is as it was.
  pub update_fenced :
      (ids : List ℕ) (token : Bytes) (f : OutboxRow → OutboxRow) (d d' : D)
      → IsOutboxTable table
      → is_nil ids ≡ false
      → update_by_execution_ids ids token f d ≡ (ok tt, d')
      → (written_at : ℕ) × (table.rows_of d'
          ≡ updated (is_owned ids token) (touched f written_at) (table.rows_of d))
        × (length (chosen (is_owned ids token) (table.rows_of d)) ≡ length (unique_int64s ids))
  unfolding update_by_execution_ids
  update_fenced ids token f d d' law some_ids done =
      elim (Reply-cases (table.update_where (is_owned ids token) (touched f) d)) [
        | inr (e, d1, failed) ↦ absurd (cc (rw (some_ids, failed) at done))
        | inl (n, d1, met) ↦
            let (right, same) = check_affected-ok ids n d1 d' (rw (some_ids, met) at done) in
            let (at_time, changed, counted) =
              law.updates (is_owned ids token) (touched f) d d1 n met in
            (at_time, ap table.rows_of (sym same) ∙ changed, sym counted ∙ right)
      ]
