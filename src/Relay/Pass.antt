-- ===== src/Relay/Pass.antt =====
-- DispatchOnce of internal/usecase/outbox_relay.go: one pass of the relay.
pub mod Outcome
use case_execution.Dispatch.Ports.{return, ◌>>◌, ok, fail, err, Action, request, Reply}
use case_execution.Prelude.{
  is_nil, if◌then◌else◌, ◌∷◌, none, [], some, map, ◌+◌, List, Option, ℕ, pos_part,
}
use case_execution.Text.{lit, Bytes}
use case_execution.Dispatch.Single.{written_error}
use case_execution.Domain.Errs.{wrap, GoError}
use case_execution.Domain.Entity.{OutboxMessage, task}
use case_execution.Relay.Claim.{relay_result, Settlement, settle, token_error, OutboxRelay}
use case_execution.Relay.Backoff.{retry_backoff}

module _ {D Q : Type 0} (relay : OutboxRelay D Q) where
  -- The function of the transaction: the dead records, then the three groups of messages, each with
  -- the token of the claim. A retry becomes available after the backoff.
  pub record_settlement : Bytes → ℕ → Settlement → Action D (Unit {0})
  unfolding retry_backoff
  record_settlement token now s = do
    relay.exec_repo.batch_update_status request s.dead_records
    relay.outbox.mark_published request s.success_ids token now
    relay.outbox.mark_dead request s.dead_ids token s.error_message
    if is_nil s.retry_ids
        then return tt
        else relay.outbox.mark_retry request s.retry_ids token
            (now
              + retry_backoff (pos_part relay.cfg.initial_backoff) (pos_part relay.cfg.max_backoff)
                  s.max_attempt)
            s.error_message

  finish_settlement : Bytes → ℕ → Reply Settlement → Action D (Unit {0})
  unfolding record_settlement
  finish_settlement token now (err e) = fail e
  finish_settlement token now (ok s) = relay.tx.run _ request (record_settlement token now s)

  -- The pass after a claim that has a token.
  unfoldable pub publish_claimed :
      ℕ → (ℕ → ℕ) → Bytes → List OutboxMessage → D → Q → Option GoError × D × Q
  unfolding finish_settlement settle relay_result task
  publish_claimed now failed_at token ms d q =
      let (raw, e, q') = relay.executor.batch_run request (map task ms) q in
      let settled = settle (pos_part relay.cfg.max_attempts) failed_at ms (relay_result ms raw e) in
      let (done, d') = finish_settlement token now settled d in (written_error done, d', q')

  unfoldable pub dispatch_claimed :
      ℕ → (ℕ → ℕ) → Reply (List OutboxMessage) × D → Q → Option GoError × D × Q
  unfolding publish_claimed token_error
  dispatch_claimed now failed_at (err e, d) q = (some (wrap (lit "claim outbox: ") e []), d, q)
  dispatch_claimed now failed_at (ok [], d) q = (none, d, q)
  dispatch_claimed now failed_at (ok (m ∷ ms), d) q = elim (token_error m ms) [
    | some e ↦ (some e, d, q)
    | none ↦ publish_claimed now failed_at m.lease_token (m ∷ ms) d q
  ]

  -- `now` is the time that the pass reads, and `failed_at` gives those of the transitions.
  unfoldable pub dispatch_once : ℕ → (ℕ → ℕ) → D → Q → Option GoError × D × Q
  unfolding dispatch_claimed
  dispatch_once now failed_at d q =
      dispatch_claimed now failed_at
        (relay.outbox.claim_pending request (pos_part relay.cfg.batch_size) now
          (now + pos_part relay.cfg.lease_duration) d)
        q
