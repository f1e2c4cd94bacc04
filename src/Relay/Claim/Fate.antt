-- ===== src/Relay/Claim/Fate.antt =====
-- What becomes of the messages that a pass of the relay has published.
use case_execution.Relay.Claim.{
  unsettled, with_error, unconfirmed, ok, GoError, bare_record, Settlement, BatchResult,
  OutboxMessage, message_by_id, settle, relay_result,
}
use case_execution.Relay.Claim.Sorting.{
  settle_failed_lem, IsFailedRecord, is_exhausted, has_attempts,
}
use case_execution.Prelude.{
  ◌∙◌, inr, [], assign_finds, inl, arith, ap, true, ◌≡◌, not, Bool-cases, lookup, ◌∷◌, Option, ◌+◌,
  map, is_some, count, Each, Bool, List, ℕ, refl,
}
use case_execution.Dispatch.Partition.{
  complete_batch_result, complete_batch_result_lem, is_confirmed, keep,
}
use case_execution.Dispatch.Chunk.Conservation.{with_error-ids}
use case_execution.Domain.Batch.{record_ids}

abbrev message_ids : List OutboxMessage → List ℕ
message_ids = map (λ m. m.execution_id)

Each-keep : (Q : ℕ → Type 0) (p : ℕ → Bool) (ids : List ℕ) → Each Q ids → Each Q (keep p ids)
Each-keep Q p [] each = tt
Each-keep Q p (id ∷ ids) each = elim (Bool-cases (p id)) [
  | inl e ↦ rw e (each.0, Each-keep Q p ids each.1)
  | inr e ↦ rw e (Each-keep Q p ids each.1)
]

keep-count :
    (a : ℕ) (p : ℕ → Bool) (ids : List ℕ)
    → count a (keep p ids) + count a (keep (λ id. not (p id)) ids) ≡ count a ids
keep-count a p [] = refl
keep-count a p (id ∷ ids) = ground (arith, keep-count a p ids)

bare_ids :
    (ms : List OutboxMessage)
    → record_ids (map (λ m. bare_record m.execution_id) ms) ≡ message_ids ms
bare_ids [] = refl
bare_ids (m ∷ ms) = ap (◌∷◌ m.execution_id) (bare_ids ms)

unconfirmed-ids :
    (result : BatchResult)
    → ((unconfirmed result).success_ids ≡ result.success_ids)
      × ((unconfirmed result).failed_ids ≡ result.failed_ids)
unconfirmed-ids result = ground arith

relay_result-ids :
    (ms : List OutboxMessage) (raw : BatchResult) (e : Option GoError)
    → ((relay_result ms raw e).success_ids ≡ keep (is_confirmed raw) (message_ids ms))
      × ((relay_result ms raw e).failed_ids
          ≡ keep (λ id. not (is_confirmed raw id)) (message_ids ms))
unfolding relay_result
relay_result-ids ms raw e =
    let records = map (λ m. bare_record m.execution_id) ms in
    let (succ, failing, _, _) = complete_batch_result_lem records raw in
    let (succ1, failing1) = with_error-ids e (complete_batch_result records raw) in
    let (succ2, failing2) = unconfirmed-ids (with_error e (complete_batch_result records raw)) in
    let same = bare_ids ms in
    (
      succ2 ∙ succ1 ∙ succ ∙ ap (keep (is_confirmed raw)) same,
      failing2 ∙ failing1 ∙ failing ∙ ap (keep (λ id. not (is_confirmed raw id))) same,
    )

message_by_id-finds :
    (ms : List OutboxMessage)
    → Each (λ id. is_some (lookup id (message_by_id ms)) ≡ true) (message_ids ms)
unfolding message_by_id
message_by_id-finds ms = rw (keys ms) at (assign_finds [] (entries ms))
  where
    entries : List OutboxMessage → List (ℕ × OutboxMessage)
    entries = map (λ m. (m.execution_id, m))

    keys : (ms : List OutboxMessage) → map (λ e. e.0) (entries ms) ≡ message_ids ms
    keys [] = refl
    keys (m ∷ ms) = ap (◌∷◌ m.execution_id) (keys ms)

-- What the relay asks of a settlement: the confirmed messages are published; of the others those
-- with attempts left are retried and the rest are dead, with a failed record each; and each message
-- is in one of the three.
abbrev pub Settled : ℕ → List OutboxMessage → BatchResult → Settlement → Type 0
Settled max_attempts ms raw s =
    let unconfirmed_ids = keep (λ id. not (is_confirmed raw id)) (message_ids ms) in
    (s.success_ids ≡ keep (is_confirmed raw) (message_ids ms))
    × (s.retry_ids ≡ keep (has_attempts max_attempts (message_by_id ms)) unconfirmed_ids)
    × (s.dead_ids ≡ keep (is_exhausted max_attempts (message_by_id ms)) unconfirmed_ids)
    × (record_ids s.dead_records ≡ s.dead_ids)
    × Each IsFailedRecord s.dead_records

-- Sorting a pass never fails. The confirmed messages are published; of the others, those with
-- attempts left are retried and the rest are dead, each of these with a record in DISPATCH_FAILED,
-- all in the order of the claim. An identifier occurs in the three parts together as often as among
-- the claimed messages, whatever the broker answered.
pub settle_lem :
    (a max_attempts : ℕ) (t : ℕ → ℕ) (ms : List OutboxMessage) (raw : BatchResult)
    (e : Option GoError)
    → (s : Settlement) × (settle max_attempts t ms (relay_result ms raw e) ≡ ok s)
      × Settled max_attempts ms raw s
      × (count a s.success_ids + count a s.retry_ids + count a s.dead_ids
          ≡ count a (message_ids ms))
unfolding settle
settle_lem a max_attempts t ms raw e =
    let result = relay_result ms raw e in
    let (succ, failing) = relay_result-ids ms raw e in
    let ids = message_ids ms in
    let found = Each-keep _ (λ id. not (is_confirmed raw id)) ids (message_by_id-finds ms) in
    let (s, done, sorted) =
      settle_failed_lem max_attempts t (message_by_id ms) (unsettled result) result.failed_ids refl
        tt (rw failing found) in
    let (succ', text, retry, dead, same, each) = sorted in
    let retry' = retry ∙ ap (keep (has_attempts max_attempts (message_by_id ms))) failing in
    let dead' = dead ∙ ap (keep (is_exhausted max_attempts (message_by_id ms))) failing in
    (
      s,
      done,
      (succ' ∙ succ, retry', dead', same, each),
      ground (
        arith,
        keep-count a (is_confirmed raw) ids,
        keep-count a (has_attempts max_attempts (message_by_id ms))
            (keep (λ id. not (is_confirmed raw id)) ids),
        succ' ∙ succ,
        retry',
        dead',
      ),
    )
