-- ===== src/Domain/Batch.antt =====
-- What internal/domain/service/execution_service.go and BatchAssemble do to the records of a batch.
use case_execution.Prelude.{
  assign_finds, ap, is_some, ℕ, suc, ◌≡◌, refl, true, ◌&&◌, some, List, [], ◌∷◌, map, arith, lookup,
  contains, Each, if◌then◌else◌,
}
use case_execution.Text.{Bytes}
use case_execution.Domain.Status.{
  ExecutionStatus, wait, dispatch_failed, status_eq, is_terminal, can_transit_to,
}
use case_execution.Domain.Entity.{
  ExecutionRecord, UtCase, BatchResult, batch_assemble, mark_as_dispatch_failed,
}
use case_execution.Domain.Service.{
  create_batch_records_for_request, name_map, mark_failed, dispatch_batch,
}

abbrev pub record_ids : List ExecutionRecord → List ℕ
record_ids = map (λ r. r.execution_id)

name_map_finds :
    (cases : List UtCase)
    → Each (λ k. is_some (lookup k (name_map cases)) ≡ true) (map (λ c. c.case_id) cases)
unfolding name_map
name_map_finds cases = rw (keys cases) at (assign_finds [] (entries cases))
  where
    entries : List UtCase → List (ℕ × Bytes)
    entries = map (λ c. (c.case_id, c.case_name))

    keys : (cs : List UtCase) → map (λ e. e.0) (entries cs) ≡ map (λ c. c.case_id) cs
    keys [] = refl
    keys (c ∷ cs) = ap (◌∷◌ c.case_id) (keys cs)

batch_assemble-ids :
    (names : List (ℕ × Bytes)) (rs : List ExecutionRecord)
    → Each (λ k. is_some (lookup k names) ≡ true) (map (λ r. r.case_id) rs)
    → map (λ t. t.execution_id) (batch_assemble rs names) ≡ record_ids rs
unfolding batch_assemble
batch_assemble-ids names [] h = refl
batch_assemble-ids names (r ∷ rs) h = ground (arith, batch_assemble-ids names rs h.1)

-- For records of the cases of a batch, in the order of the cases, BatchAssemble skips none: there is
-- a task for each record, in order.
pub assemble_complete :
    (now : ℕ → ℕ) (request_id v user : Bytes) (cases : List UtCase) (rs : List ExecutionRecord)
    → map (λ r. r.case_id) rs ≡ map (λ c. c.case_id) cases
    → map
        (λ t. t.execution_id)
        (batch_assemble rs (create_batch_records_for_request now request_id cases v user).1)
      ≡ record_ids rs
unfolding create_batch_records_for_request
assemble_complete now request_id v user cases rs e =
    batch_assemble-ids (name_map cases) rs (rw e (name_map_finds cases))

-- A listed record that waits is failed, and every other one keeps its status.
abbrev pub status_after : List ℕ → ExecutionRecord → ExecutionStatus
status_after failed_ids r =
    if contains failed_ids r.execution_id && status_eq r.status wait
    then dispatch_failed
    else r.status

-- The same for the record as a whole: one that is not listed, or does not wait, is unchanged.
abbrev pub record_after : ℕ → List ℕ → ExecutionRecord → ExecutionRecord
record_after now failed_ids r =
    if contains failed_ids r.execution_id && status_eq r.status wait
    then record r { status = dispatch_failed; finish_at = some now }
    else r

abbrev pub records_after : (ℕ → ℕ) → ℕ → List ℕ → List ExecutionRecord → List ExecutionRecord
records_after now i failed_ids [] = []
records_after now i failed_ids (r ∷ rs) =
    record_after (now i) failed_ids r ∷ records_after now (suc i) failed_ids rs

mark_one :
    (now : ℕ) (failed_ids : List ℕ) (r : ExecutionRecord)
    → (if contains failed_ids r.execution_id then (mark_as_dispatch_failed now r).0 else r)
      ≡ record_after now failed_ids r
unfolding mark_as_dispatch_failed can_transit_to is_terminal
mark_one now failed_ids r = ground arith

mark_failed_lem :
    (now : ℕ → ℕ) (i : ℕ) (failed_ids : List ℕ) (rs : List ExecutionRecord)
    → mark_failed now i failed_ids rs ≡ records_after now i failed_ids rs
unfolding mark_failed
mark_failed_lem now i failed_ids [] = refl
mark_failed_lem now i failed_ids (r ∷ rs) =
    cc (mark_one (now i) failed_ids r, mark_failed_lem now (suc i) failed_ids rs)

-- DispatchBatch writes DISPATCH_FAILED and the finish time on the listed records that wait, and
-- leaves every other record exactly as it is, listed or not.
pub dispatch_batch_lem :
    (now : ℕ → ℕ) (rs : List ExecutionRecord) (result : BatchResult)
    → dispatch_batch now rs result ≡ records_after now 0 result.failed_ids rs
unfolding dispatch_batch
dispatch_batch_lem now rs result = mark_failed_lem now 0 result.failed_ids rs
