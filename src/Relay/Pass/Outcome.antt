-- ===== src/Relay/Pass/Outcome.antt =====
-- What a pass of the relay does to the broker and to the database.
use case_execution.Prelude.{
  ◌⊎◌, subst, if◌then◌else◌, ◌∙◌, sym, ap, inr, inl, Option-cases, none, [], ◌&&◌, is_nil, ◌+◌,
  arith, map, is_some, some, true, pos_part, false, not, Bool, ◌∷◌, ◌≡◌, List, ℕ, refl,
}
use case_execution.Dispatch.Ports.{
  Reply-cases, Action, return, >>=-eq-ok, err, ok, request, Reply, IsTxRunner,
}
use case_execution.Relay.Claim.{
  relay_result, token_error, OutboxRelay, settle, Settlement, mixed_tokens,
}
use case_execution.Relay.Pass.{
  publish_claimed, finish_settlement, dispatch_claimed, record_settlement, dispatch_once,
}
use case_execution.Relay.Claim.Fate.{settle_lem, Settled}
use case_execution.Text.{str_eq_refl, Bytes, str_eq, is_empty}
use case_execution.Dispatch.Single.{written_error}
use case_execution.Domain.Errs.{GoError}
use case_execution.Relay.Backoff.{retry_backoff}
use case_execution.Domain.Entity.{task, OutboxMessage}

-- The messages are some, and all hold the same token, which is not empty.
abbrev pub one_owner : Bytes → List OutboxMessage → Bool
one_owner token [] = not (is_empty token)
one_owner token (m ∷ ms) = str_eq m.lease_token token && one_owner token ms

abbrev pub owner : List OutboxMessage → Bytes
owner [] = []
owner (m ∷ ms) = m.lease_token

mixed_tokens-one_owner :
    (token : Bytes) (ms : List OutboxMessage)
    → is_empty token ≡ false
    → one_owner token ms ≡ not (mixed_tokens token ms)
mixed_tokens-one_owner token [] filled = ground arith
mixed_tokens-one_owner token (m ∷ ms) filled =
    ground (arith, mixed_tokens-one_owner token ms filled)

one_owner-empty :
    (token : Bytes) (ms : List OutboxMessage) → is_empty token ≡ true → one_owner token ms ≡ false
one_owner-empty token [] empty = ground arith
one_owner-empty token (m ∷ ms) empty = ground (arith, one_owner-empty token ms empty)

token_error_lem :
    (m : OutboxMessage) (ms : List OutboxMessage)
    → is_some (token_error m ms) ≡ not (one_owner m.lease_token (m ∷ ms))
unfolding token_error
token_error_lem m ms = ground (
  arith,
  mixed_tokens-one_owner m.lease_token ms,
  one_owner-empty m.lease_token ms,
  str_eq_refl m.lease_token,
)

token_error-none :
    (m : OutboxMessage) (ms : List OutboxMessage)
    → one_owner m.lease_token (m ∷ ms) ≡ true
    → token_error m ms ≡ none
token_error-none m ms owned = elim (Option-cases (token_error m ms)) [
  | inl e ↦ e
  | inr (x, e) ↦ absurd (ground (arith, token_error_lem m ms))
]

-- The last write, which is left out where the test holds.
optional-ok :
    {D : Type 0} (b : Bool) (write : Action D (Unit {0})) (d d' : D)
    → (if b then return tt else write) d ≡ (ok tt, d')
    → ((b ≡ true) × (d' ≡ d)) ⊎ ((b ≡ false) × (write d ≡ (ok tt, d')))
optional-ok true write d d' done = inl (refl, sym (ap (λ r. r.1) done))
optional-ok false write d d' done = inr (refl, done)

module _ {D Q : Type 0} (relay : OutboxRelay D Q) where
  abbrev pub claim : ℕ → D → Reply (List OutboxMessage) × D
  claim now d =
      relay.outbox.claim_pending request (pos_part relay.cfg.batch_size) now
        (now + pos_part relay.cfg.lease_duration) d

  pass_refuses_some :
      (now : ℕ) (t : ℕ → ℕ) (d : D) (q : Q) (m : OutboxMessage) (ms : List OutboxMessage)
      → one_owner m.lease_token (m ∷ ms) ≡ false
      → let (e, d2, q2) = dispatch_claimed relay now t (ok (m ∷ ms), d) q in
        (d2 ≡ d) × (q2 ≡ q) × (is_some e ≡ true)
  unfolding dispatch_claimed
  pass_refuses_some now t d q m ms not_owned = elim (Option-cases (token_error m ms)) [
    | inl e ↦ absurd (ground (arith, token_error_lem m ms))
    | inr (x, e) ↦ rw (e, dispatch_claimed) (refl, refl, refl)
  ]

  -- A pass whose claim has no messages, or none that one token owns, publishes nothing and writes
  -- nothing. It returns an error, unless there are no messages.
  pub pass_refuses :
      (now : ℕ) (t : ℕ → ℕ) (d d' : D) (q : Q) (ms : List OutboxMessage)
      → claim now d ≡ (ok ms, d')
      → one_owner (owner ms) ms ≡ false
      → let (e, d2, q2) = dispatch_once relay now t d q in
        (d2 ≡ d') × (q2 ≡ q) × (is_some e ≡ not (is_nil ms))
  unfolding dispatch_once
  pass_refuses now t d d' q [] claimed not_owned = rw claimed (refl, refl, refl)
  pass_refuses now t d d' q (m ∷ ms) claimed not_owned =
      rw claimed (pass_refuses_some now t d' q m ms not_owned)

  published :
      (now : ℕ) (t : ℕ → ℕ) (d : D) (q : Q) (m : OutboxMessage) (ms : List OutboxMessage)
      (s : Settlement)
      → one_owner m.lease_token (m ∷ ms) ≡ true
      → (let (raw, e, _) = relay.executor.batch_run request (map task (m ∷ ms)) q in
          settle (pos_part relay.cfg.max_attempts) t (m ∷ ms) (relay_result (m ∷ ms) raw e) ≡ ok s)
      → let (_, _, q') = relay.executor.batch_run request (map task (m ∷ ms)) q in
        let (done, d2) = relay.tx.run _ request (record_settlement relay m.lease_token now s) d in
        dispatch_claimed relay now t (ok (m ∷ ms), d) q ≡ (written_error done, d2, q')
  unfolding dispatch_claimed publish_claimed finish_settlement
  published now t d q m ms s owned settled =
      rw (token_error-none m ms owned, dispatch_claimed) (rw settled refl)

  -- The writes of a settlement, one after the other: the failed records, the published messages, the dead
  -- ones, and those to retry, where there are any, which become available after the backoff.
  pub record Written (token : Bytes) (now : ℕ) (s : Settlement) (d d' : D) : Type 0 where
    pub recorded : D
    pub published_then : D
    pub buried : D
    pub records : relay.exec_repo.batch_update_status request s.dead_records d ≡ (ok tt, recorded)
    pub successes :
        relay.outbox.mark_published request s.success_ids token now recorded
        ≡ (ok tt, published_then)
    pub dead :
        relay.outbox.mark_dead request s.dead_ids token s.error_message published_then
        ≡ (ok tt, buried)
    pub retries :
        ((is_nil s.retry_ids ≡ true) × (d' ≡ buried))
        ⊎ ((is_nil s.retry_ids ≡ false)
            × (relay.outbox.mark_retry request s.retry_ids token
                  (now
                    + retry_backoff
                        (pos_part relay.cfg.initial_backoff)
                        (pos_part relay.cfg.max_backoff)
                        s.max_attempt)
                  s.error_message
                  buried
                ≡ (ok tt, d')))

  record_settlement-Written :
      (token : Bytes) (now : ℕ) (s : Settlement) (d d' : D)
      → record_settlement relay token now s d ≡ (ok tt, d')
      → Written token now s d d'
  unfolding record_settlement
  record_settlement-Written token now s d d' done =
      let (_, d1, records, later) =
        >>=-eq-ok (relay.exec_repo.batch_update_status request s.dead_records) _ d d' tt done in
      let (_, d2, successes, last) =
        >>=-eq-ok (relay.outbox.mark_published request s.success_ids token now) _ d1 d' tt later in
      let (_, d3, dead, retries) =
        >>=-eq-ok (relay.outbox.mark_dead request s.dead_ids token s.error_message) _ d2 d' tt
          last in
      record {
        recorded = d1;
        published_then = d2;
        buried = d3;
        records = records;
        successes = successes;
        dead = dead;
        retries = optional-ok (is_nil s.retry_ids) _ d3 d' retries;
      }

  -- A pass that claims messages under one token sends the broker exactly their tasks, once, and sorts them
  -- by its answer. Over transactions that commit or roll back it then either returns no error, and the
  -- database has taken all the writes of the settlement, in their order, on top of the claim; or it
  -- returns an error, and the database is as the claim left it.
  pub pass_settles :
      (now : ℕ) (t : ℕ → ℕ) (d d' : D) (q : Q) (m : OutboxMessage) (ms : List OutboxMessage)
      → IsTxRunner relay.tx
      → claim now d ≡ (ok (m ∷ ms), d')
      → one_owner m.lease_token (m ∷ ms) ≡ true
      → let (raw, e, q') = relay.executor.batch_run request (map task (m ∷ ms)) q in
        let (returned, d2, q2) = dispatch_once relay now t d q in
        (s : Settlement) × (settle
            (pos_part relay.cfg.max_attempts)
            t
            (m ∷ ms)
            (relay_result (m ∷ ms) raw e)
          ≡ ok s)
        × Settled (pos_part relay.cfg.max_attempts) (m ∷ ms) raw s
        × (q2 ≡ q')
        × (((returned ≡ none) × Written m.lease_token now s d' d2)
            ⊎ ((x : GoError) × (returned ≡ some x) × (d2 ≡ d')))
  unfolding dispatch_once
  pass_settles now t d d' q m ms tx claimed owned =
      let (raw, e, q') = relay.executor.batch_run request (map task (m ∷ ms)) q in
      let (s, sorted, settled, _) =
        settle_lem 0 (pos_part relay.cfg.max_attempts) t (m ∷ ms) raw e in
      let write = record_settlement relay m.lease_token now s in
      let answer = published now t d' q m ms s owned sorted in
      (
        s,
        sorted,
        settled,
        rw claimed (ap (λ r. r.2) answer),
        elim (Reply-cases (relay.tx.run _ request write d')) [
          | inl (u, d2, done) ↦ inl (
            rw claimed (ap (λ r. r.0) answer ∙ ap (λ w. written_error w.0) done),
            subst (Written m.lease_token now s d')
                (rw claimed (sym (ap (λ r. r.1) answer ∙ ap (λ w. w.1) done)))
                (record_settlement-Written m.lease_token now s d' d2
                  (tx.commits _ request write d' d2 u done)),
          )
          | inr (x, d2, failed) ↦ inr (
            x,
            rw claimed (ap (λ r. r.0) answer ∙ ap (λ w. written_error w.0) failed),
            rw claimed (
                ap (λ r. r.1) answer
                ∙ ap (λ w. w.1) failed
                ∙ tx.rolls_back _ request write d' d2 x failed),
          )
        ],
      )

  finish_rolls_back :
      (token : Bytes) (now : ℕ) (settled : Reply Settlement) (d d' : D) (e : GoError)
      → IsTxRunner relay.tx
      → finish_settlement relay token now settled d ≡ (err e, d')
      → d' ≡ d
  unfolding finish_settlement
  finish_rolls_back token now (err x) d d' e tx failed = cc
  finish_rolls_back token now (ok s) d d' e tx failed = tx.rolls_back _ request _ d d' e failed

  publish_rolls_back :
      (now : ℕ) (t : ℕ → ℕ) (token : Bytes) (ms : List OutboxMessage) (d d' : D) (q q' : Q)
      (e : GoError)
      → IsTxRunner relay.tx
      → publish_claimed relay now t token ms d q ≡ (some e, d', q')
      → d' ≡ d
  unfolding publish_claimed
  publish_rolls_back now t token ms d d' q q' e tx failed =
      let (raw, x, q1) = relay.executor.batch_run request (map task ms) q in
      let settled = settle (pos_part relay.cfg.max_attempts) t ms (relay_result ms raw x) in
      elim (Reply-cases (finish_settlement relay token now settled d)) [
        | inl (a, d2, done) ↦ absurd (cc (rw done at failed))
        | inr (y, d2, done) ↦
            (ap (λ r. r.1) (sym (rw done at failed))
              ∙ finish_rolls_back token now settled d d2 y tx done)
      ]

  dispatch_rolls_back :
      (now : ℕ) (t : ℕ → ℕ) (r : Reply (List OutboxMessage)) (d d' : D) (q q' : Q) (e : GoError)
      → IsTxRunner relay.tx
      → dispatch_claimed relay now t (r, d) q ≡ (some e, d', q')
      → d' ≡ d
  unfolding dispatch_claimed
  dispatch_rolls_back now t (err x) d d' q q' e tx failed = cc
  dispatch_rolls_back now t (ok []) d d' q q' e tx failed = cc
  dispatch_rolls_back now t (ok (m ∷ ms)) d d' q q' e tx failed =
      elim (Option-cases (token_error m ms)) [
        | inl none_wrong ↦
            publish_rolls_back now t m.lease_token (m ∷ ms) d d' q q' e tx
              (rw (none_wrong, dispatch_claimed) at failed)
        | inr (x, wrong) ↦ cc (rw (wrong, dispatch_claimed) at failed)
      ]

  -- A pass that returns an error leaves the database as the claim left it.
  pub pass_rolls_back :
      (now : ℕ) (t : ℕ → ℕ) (d d1 d2 : D) (q q2 : Q) (r : Reply (List OutboxMessage)) (e : GoError)
      → IsTxRunner relay.tx
      → claim now d ≡ (r, d1)
      → dispatch_once relay now t d q ≡ (some e, d2, q2)
      → d2 ≡ d1
  unfolding dispatch_once
  pass_rolls_back now t d d1 d2 q q2 r e tx claimed failed =
      dispatch_rolls_back now t r d1 d2 q q2 e tx (rw claimed at failed)
