-- ===== src/Mysql/Claim.antt =====
-- ClaimPending of internal/infrastructure/persistence/mysql/outbox_repository.go.
pub mod Disjoint
use case_execution.Prelude.{
  length-take-le, length-map, ℕ, ◌≡◌, ◌≤◌, ◌∷◌, ◌&&◌, ◌||◌, ◌∙◌, Bool, false, List, [], Option,
  none, some, map, length, leb, suc, contains, take, if◌then◌else◌, sym, ap, subst, arith, refl,
}
use case_execution.Mysql.Table.{updated-none, after-wrapped, Table, chosen, updated, wrapped}
use case_execution.Dispatch.Ports.{
  ok_inj, TxRunner, IsTxRunner, Ctx, Action, Reply, ok, err, after, return,
}
use case_execution.Text.{lit, str_eq, Bytes}
use case_execution.Domain.Entity.{OutboxMessage, pending, processing}
use case_execution.Mysql.Lease.{IsOutboxTable, touched}
use case_execution.Mysql.Helpers.{new_lease_token}
use case_execution.Mysql.Rows.{OutboxRow, message_of_row, state_text}

-- A pending message whose time has come, or one whose lease has run out; no time is NULL's.
abbrev pub is_past : ℕ → Option ℕ → Bool
is_past now none = false
is_past now (some time) = leb time now

abbrev pub is_claimable : ℕ → OutboxRow → Bool
is_claimable now r =
    (str_eq r.state (state_text pending) && leb r.available_at now)
    || (str_eq r.state (state_text processing) && is_past now r.lease_until)

abbrev pub leased : Bytes → ℕ → OutboxRow → OutboxRow
leased token lease_until r = record r {
  state = state_text processing;
  lease_until = some lease_until;
  lease_token = token;
  attempts = suc r.attempts;
}

abbrev pub claim_limit : ℕ → ℕ
claim_limit limit = if leb limit 0 then 100 else limit

abbrev pub outbox_ids : List OutboxRow → List ℕ
outbox_ids = map (λ r. r.outbox_id)

-- What a claim does: of the rows that are claimable and free it takes the first, up to the limit; it
-- leases these rows, and no other, and returns them as it has leased them. Their time of update is the new
-- one in the table, and still the old one in what is returned.
pub record Claims {D : Type 0} (table : Table D OutboxRow) (token : Bytes)
    (limit now lease_until : ℕ) (ms : List OutboxMessage) (d d' : D) : Type 0 where
  pub free : OutboxRow → Bool
  pub returned :
      ms
      ≡ map
          (λ r. message_of_row (leased token lease_until r))
          (take limit (chosen (λ r. is_claimable now r && free r) (table.rows_of d)))
  pub written_at : ℕ
  pub changed :
      table.rows_of d'
      ≡ updated
          (λ r.
            contains
              (outbox_ids
                (take limit (chosen (λ s. is_claimable now s && free s) (table.rows_of d))))
              r.outbox_id)
          (touched (leased token lease_until) written_at)
          (table.rows_of d)

module _ {D : Type 0} (table : Table D OutboxRow) (tx : TxRunner D) where
  lease_rows : Bytes → ℕ → List OutboxRow → Action D (List OutboxMessage)
  lease_rows token lease_until [] d = (ok [], d)
  lease_rows token lease_until (r ∷ rs) d =
      after
        (wrapped (lit "lease dispatch_outbox: ") (
          table.update_where (λ s. contains (outbox_ids (r ∷ rs)) s.outbox_id)
            (touched (leased token lease_until)) d))
        (λ n. return (map (λ s. message_of_row (leased token lease_until s)) (r ∷ rs)))

  -- The function of the transaction.
  claim_rows : Bytes → ℕ → ℕ → ℕ → Action D (List OutboxMessage)
  unfolding lease_rows
  claim_rows token limit now lease_until d =
      after
        (wrapped (lit "select claimable dispatch_outbox: ")
          (table.lock_where (is_claimable now) limit d))
        (lease_rows token lease_until)

  claim_with : Ctx → ℕ → ℕ → ℕ → Reply Bytes → Action D (List OutboxMessage)
  unfolding claim_rows
  claim_with ctx limit now lease_until (err e) d = (err e, d)
  claim_with ctx limit now lease_until (ok token) d =
      tx.run _ ctx (claim_rows token (claim_limit limit) now lease_until) d

  -- `random` is what crypto/rand fills in for the token.
  unfoldable pub claim_pending : Reply Bytes → Ctx → ℕ → ℕ → ℕ → Action D (List OutboxMessage)
  unfolding claim_with
  claim_pending random ctx limit now lease_until =
      claim_with ctx limit now lease_until (new_lease_token random)

  lease_rows-ok :
      (token : Bytes) (lease_until : ℕ) (found : List OutboxRow) (ms : List OutboxMessage)
      (d d' : D)
      → IsOutboxTable table
      → lease_rows token lease_until found d ≡ (ok ms, d')
      → (ms ≡ map (λ r. message_of_row (leased token lease_until r)) found)
        × (written_at : ℕ) × (table.rows_of d'
            ≡ updated
                (λ s. contains (outbox_ids found) s.outbox_id)
                (touched (leased token lease_until) written_at)
                (table.rows_of d))
  unfolding lease_rows
  lease_rows-ok token lease_until [] ms d d' law done = (
    sym (ok_inj (ap (λ r. r.0) done)),
    0,
    sym (ap (λ r. table.rows_of r.1) done)
        ∙ sym (updated-none (touched (leased token lease_until) 0) (table.rows_of d)),
  )
  lease_rows-ok token lease_until (r ∷ rs) ms d d' law done =
      let (n, d1, met, last) =
        after-wrapped (lit "lease dispatch_outbox: ")
          (table.update_where (λ s. contains (outbox_ids (r ∷ rs)) s.outbox_id)
            (touched (leased token lease_until)) d)
          _ ms d' done in
      let (written_at, changed, counted) = law.updates _ _ d d1 n met in
      (
        sym (ok_inj (ap (λ r. r.0) last)),
        written_at,
        sym (ap (λ r. table.rows_of r.1) last) ∙ changed,
      )

  -- A claim that succeeds.
  claim_rows-ok :
      (token : Bytes) (limit now lease_until : ℕ) (ms : List OutboxMessage) (d d' : D)
      → IsOutboxTable table
      → claim_rows token limit now lease_until d ≡ (ok ms, d')
      → Claims table token limit now lease_until ms d d'
  unfolding claim_rows
  claim_rows-ok token limit now lease_until ms d d' law done =
      let (rs, d1, locked, last) =
        after-wrapped (lit "select claimable dispatch_outbox: ")
          (table.lock_where (is_claimable now) limit d) _ ms d' done in
      let (same, free, which) = law.locks _ limit d d1 rs locked in
      let (read, written_at, changed) = lease_rows-ok token lease_until rs ms d1 d' law last in
      let now_changed =
        subst
          (λ x.
            table.rows_of d'
            ≡ updated (λ r. contains (outbox_ids rs) r.outbox_id)
                (touched (leased token lease_until) written_at) x)
          same changed in
      record {
        free = free;
        returned = read ∙ ap (map (λ r. message_of_row (leased token lease_until r))) which;
        written_at = written_at;
        changed =
            subst
              (λ x.
                table.rows_of d'
                ≡ updated (λ r. contains (outbox_ids x) r.outbox_id)
                    (touched (leased token lease_until) written_at) (table.rows_of d))
              which now_changed;
      }

  claim_with-ok :
      (ctx : Ctx) (limit now lease_until : ℕ) (drawn : Reply Bytes) (ms : List OutboxMessage)
      (d d' : D)
      → IsOutboxTable table
      → IsTxRunner tx
      → claim_with ctx limit now lease_until drawn d ≡ (ok ms, d')
      → (token : Bytes) × (drawn ≡ ok token)
        × Claims table token (claim_limit limit) now lease_until ms d d'
  unfolding claim_with
  claim_with-ok ctx limit now lease_until (err e) ms d d' law tx_law done = absurd (ground arith)
  claim_with-ok ctx limit now lease_until (ok token) ms d d' law tx_law done = (
    token,
    refl,
    claim_rows-ok token (claim_limit limit) now lease_until ms d d' law
        (tx_law.commits _ ctx (claim_rows token (claim_limit limit) now lease_until) d d' ms done),
  )

  -- A claim that succeeds takes at most as many messages as its limit, 100 where none is given: the
  -- first of the free rows that are pending and due, or whose lease has run out. It leases these rows
  -- under its own token, counts the attempt, and changes no other row. It returns the rows as it has leased
  -- them, but for their time of update, which is the one from before.
  pub claim_pending_lem :
      (random : Reply Bytes) (ctx : Ctx) (limit now lease_until : ℕ) (ms : List OutboxMessage)
      (d d' : D)
      → IsOutboxTable table
      → IsTxRunner tx
      → claim_pending random ctx limit now lease_until d ≡ (ok ms, d')
      → (length ms ≤ claim_limit limit)
        × (token : Bytes) × (new_lease_token random ≡ ok token)
        × Claims table token (claim_limit limit) now lease_until ms d d'
  unfolding claim_pending
  claim_pending_lem random ctx limit now lease_until ms d d' law tx_law done =
      let (token, drawn, claims) =
        claim_with-ok ctx limit now lease_until (new_lease_token random) ms d d' law tx_law done in
      let rows = chosen (λ r. is_claimable now r && claims.free r) (table.rows_of d) in
      (
        omega (
          arith,
          ap length claims.returned,
          length-map (λ r. message_of_row (leased token lease_until r))
              (take (claim_limit limit) rows),
          length-take-le (claim_limit limit) rows,
        ),
        token,
        drawn,
        claims,
      )
