-- ===== src/Relay/Claim/Sorting.antt =====
-- How DispatchOnce sorts what the broker left unconfirmed.
use case_execution.Prelude.{
  append_assoc, Each-snoc, ap, ◌∙◌, map-snoc, Bool-cases, refl, inr, inl, Option-cases, append-nil,
  true, arith, is_some, [], ◌∷◌, if◌then◌else◌, length, max, Each, ltb, false, none, some, ◌++◌,
  not, lookup, Bool, ◌≡◌, List, ℕ,
}
use case_execution.Relay.Claim.{settle_failed, settle_message, exhausted_record, Settlement}
use case_execution.Dispatch.Ports.{ok}
use case_execution.Domain.Batch.{record_ids}
use case_execution.Dispatch.Partition.{keep}
use case_execution.Domain.Status.{is_terminal, dispatch_failed, can_transit_to}
use case_execution.Domain.Entity.{OutboxMessage, mark_as_dispatch_failed, ExecutionRecord}

-- The attempts of an execution's message; an execution without one counts as having none left.
abbrev pub has_attempts : ℕ → List (ℕ × OutboxMessage) → ℕ → Bool
has_attempts max_attempts by_id id = elim (lookup id by_id) [
  | none ↦ false
  | some m ↦ ltb m.attempts max_attempts
]

abbrev pub is_exhausted : ℕ → List (ℕ × OutboxMessage) → ℕ → Bool
is_exhausted max_attempts by_id id = not (has_attempts max_attempts by_id id)

-- The record that an exhausted execution ends with.
abbrev pub IsFailedRecord : ExecutionRecord → Type 0
IsFailedRecord r = r.status ≡ dispatch_failed

mark_exhausted :
    (now id : ℕ) (m : OutboxMessage)
    → mark_as_dispatch_failed now (exhausted_record id m)
      ≡ (record (exhausted_record id m) { status = dispatch_failed; finish_at = some now }, none)
unfolding mark_as_dispatch_failed can_transit_to is_terminal
mark_exhausted now id m = refl

-- One round, as the settlement that it leaves.
abbrev moved : ℕ → (ℕ → ℕ) → ℕ → Settlement → OutboxMessage → Settlement
moved max_attempts t id acc m =
    let counted : Settlement = record acc { max_attempt = max acc.max_attempt m.attempts } in
    let failed : ExecutionRecord = record (exhausted_record id m) {
      status = dispatch_failed;
      finish_at = some (t (length acc.dead_ids));
    } in
    if ltb m.attempts max_attempts
    then record counted { retry_ids = acc.retry_ids ++ id ∷ [] }
    else record counted {
      dead_records = acc.dead_records ++ failed ∷ [];
      dead_ids = acc.dead_ids ++ id ∷ [];
    }

settle_message_lem :
    (max_attempts : ℕ) (t : ℕ → ℕ) (id : ℕ) (acc : Settlement) (m : OutboxMessage)
    → settle_message max_attempts t id acc m ≡ ok (moved max_attempts t id acc m)
unfolding settle_message
settle_message_lem max_attempts t id acc m =
    rw (mark_exhausted (t (length acc.dead_ids)) id m) (ground arith)

-- What the loop adds to a settlement.
abbrev pub Sorted : ℕ → List (ℕ × OutboxMessage) → Settlement → List ℕ → Settlement → Type 0
Sorted max_attempts by_id acc ids s =
    (s.success_ids ≡ acc.success_ids)
    × (s.error_message ≡ acc.error_message)
    × (s.retry_ids ≡ acc.retry_ids ++ keep (has_attempts max_attempts by_id) ids)
    × (s.dead_ids ≡ acc.dead_ids ++ keep (is_exhausted max_attempts by_id) ids)
    × (record_ids s.dead_records ≡ s.dead_ids)
    × Each IsFailedRecord s.dead_records

settle_failed_step :
    (max_attempts : ℕ) (t : ℕ → ℕ) (by_id : List (ℕ × OutboxMessage)) (id : ℕ) (acc : Settlement)
    (m : OutboxMessage) (ids : List ℕ)
    → lookup id by_id ≡ some m
    → settle_failed max_attempts t by_id acc (id ∷ ids)
      ≡ settle_failed max_attempts t by_id (moved max_attempts t id acc m) ids
unfolding settle_failed
settle_failed_step max_attempts t by_id id acc m ids e =
    cc (e, settle_message_lem max_attempts t id acc m)

moved_keeps :
    (max_attempts : ℕ) (t : ℕ → ℕ) (id : ℕ) (acc : Settlement) (m : OutboxMessage)
    → record_ids acc.dead_records ≡ acc.dead_ids
    → Each IsFailedRecord acc.dead_records
    → (record_ids (moved max_attempts t id acc m).dead_records
        ≡ (moved max_attempts t id acc m).dead_ids)
      × Each IsFailedRecord (moved max_attempts t id acc m).dead_records
moved_keeps max_attempts t id acc m same each = elim (Bool-cases (ltb m.attempts max_attempts)) [
  | inl e ↦ rw e (same, each)
  | inr e ↦ rw e (
    map-snoc (λ r. r.execution_id) acc.dead_records _ ∙ ap (λ ids. ids ++ id ∷ []) same,
    Each-snoc IsFailedRecord _ acc.dead_records refl each,
  )
]

moved_sorts :
    (max_attempts : ℕ) (t : ℕ → ℕ) (by_id : List (ℕ × OutboxMessage)) (id : ℕ) (acc : Settlement)
    (m : OutboxMessage) (ids : List ℕ) (s : Settlement)
    → lookup id by_id ≡ some m
    → Sorted max_attempts by_id (moved max_attempts t id acc m) ids s
    → Sorted max_attempts by_id acc (id ∷ ids) s
moved_sorts max_attempts t by_id id acc m ids s e sorted =
    let (succ, text, retry, dead, same, each) = sorted in
    elim (Bool-cases (ltb m.attempts max_attempts)) [
      | inl less ↦ (
        rw less at succ,
        rw less at text,
        ground (
          arith,
          append_assoc acc.retry_ids (id ∷ []) (keep (has_attempts max_attempts by_id) ids),
        ),
        ground arith,
        same,
        each,
      )
      | inr not_less ↦ (
        rw not_less at succ,
        rw not_less at text,
        ground arith,
        ground (
          arith,
          append_assoc acc.dead_ids (id ∷ []) (keep (is_exhausted max_attempts by_id) ids),
        ),
        same,
        each,
      )
    ]

pub settle_failed_lem :
    (max_attempts : ℕ) (t : ℕ → ℕ) (by_id : List (ℕ × OutboxMessage)) (acc : Settlement)
    (ids : List ℕ)
    → record_ids acc.dead_records ≡ acc.dead_ids
    → Each IsFailedRecord acc.dead_records
    → Each (λ id. is_some (lookup id by_id) ≡ true) ids
    → (s : Settlement) × (settle_failed max_attempts t by_id acc ids ≡ ok s)
      × Sorted max_attempts by_id acc ids s
unfolding settle_failed
settle_failed_lem max_attempts t by_id acc [] same each known =
    (acc, refl, (refl, refl, simp append-nil, simp append-nil, same, each))
settle_failed_lem max_attempts t by_id acc (id ∷ ids) same each known =
    elim (Option-cases (lookup id by_id)) [
      | inl e ↦ absurd (ground arith)
      | inr (m, e) ↦
          let acc' = moved max_attempts t id acc m in
          let (same', each') = moved_keeps max_attempts t id acc m same each in
          let (s, done, sorted) =
            settle_failed_lem max_attempts t by_id acc' ids same' each' known.1 in
          (
            s,
            settle_failed_step max_attempts t by_id id acc m ids e ∙ done,
            moved_sorts max_attempts t by_id id acc m ids s e sorted,
          )
    ]
