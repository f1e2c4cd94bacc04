-- ===== src/Tests/DomainExamples.antt =====
-- Examples for the domain: the life of a record, the records of a batch, and request identifiers.
use case_execution.Dispatch.Ports.{ok_inj, ok}
use case_execution.Text.Trim.{trim_space, peel}
use case_execution.Domain.Errs.{GoError, opaque, wrap}
use case_execution.Prelude.{
  subst, Each, length, ◌<◌, not, count, ◌+◌, ℕ, ◌≤◌, ◌≡◌, refl, true, none, some, List, [], ◌∷◌,
  arith,
}
use case_execution.Text.{lit}
use case_execution.Domain.Status.{
  can_transit_to, wait, dispatch_failed, is_terminal, Reach, here, next, start, finish, success,
}
use case_execution.Domain.Status.Paths.{Reach-forward}
use case_execution.Domain.Entity.{ExecutionRecord, BatchResult}
use case_execution.Domain.Lifecycle.{
  Call, dispatch_fails, fails, runs, call, calls, IsDated, SameIdentity, calls_lifecycle,
}
use case_execution.Domain.Service.{dispatch_batch}
use case_execution.Domain.Batch.{record_ids, dispatch_batch_lem}
use case_execution.Dispatch.RequestId.{IsRandom, IsRequestId, normalize_request_id, normalize_twice}
use case_execution.Dispatch.Partition.{
  keep, is_confirmed, complete_batch_result, complete_batch_result_lem,
}

abbrev waiting : ℕ → ExecutionRecord
waiting k = record {
  execution_id = k;
  request_id = lit "r1";
  case_id = k;
  version = lit "26B";
  create_by = lit "ann";
  status = wait;
  create_at = 100;
  execute_at = none;
  finish_at = none;
}

Reach-forward_example : (0 ≤ 2) × (is_terminal wait ≡ true → success ≡ wait)
Reach-forward_example = Reach-forward (next (next here start) finish)

abbrev history : List Call
history = runs 200 201 ∷ fails 300 ∷ dispatch_fails 400 ∷ []

history_ends : (calls history (waiting 1)).finish_at ≡ some 300
unfolding calls call can_transit_to is_terminal
history_ends = refl

calls_lifecycle_example :
    SameIdentity (waiting 1) (calls history (waiting 1))
    × Reach wait (calls history (waiting 1)).status
    × IsDated (calls history (waiting 1))
    × (is_terminal wait ≡ true → calls history (waiting 1) ≡ waiting 1)
unfolding is_terminal
calls_lifecycle_example = calls_lifecycle history (waiting 1) refl

abbrev mixed : BatchResult
mixed = record { success_ids = 1 ∷ 2 ∷ []; failed_ids = 2 ∷ []; error_message = [] }

dispatch_batch_example :
    dispatch_batch (λ i. 50 + i) (waiting 1 ∷ waiting 2 ∷ []) mixed
    ≡ waiting 1 ∷ record (waiting 2) { status = dispatch_failed; finish_at = some 51 } ∷ []
dispatch_batch_example = dispatch_batch_lem (λ i. 50 + i) (waiting 1 ∷ waiting 2 ∷ []) mixed

partition_example :
    let done = complete_batch_result (waiting 1 ∷ waiting 2 ∷ waiting 3 ∷ []) mixed in
    (done.success_ids ≡ 1 ∷ []) × (done.failed_ids ≡ 2 ∷ 3 ∷ [])
unfolding complete_batch_result
partition_example = (refl, refl)

complete_batch_result_example :
    let rs = waiting 1 ∷ waiting 2 ∷ waiting 3 ∷ [] in
    let done = complete_batch_result rs mixed in
    (done.success_ids ≡ keep (is_confirmed mixed) (record_ids rs))
    × (done.failed_ids ≡ keep (λ a. not (is_confirmed mixed a)) (record_ids rs))
    × (done.error_message ≡ mixed.error_message)
    × ((a : ℕ) → count a done.success_ids + count a done.failed_ids ≡ count a (record_ids rs))
complete_batch_result_example =
    complete_batch_result_lem (waiting 1 ∷ waiting 2 ∷ waiting 3 ∷ []) mixed

abbrev pub zeros : List ℕ
zeros = 0 ∷ 0 ∷ 0 ∷ 0 ∷ 0 ∷ 0 ∷ 0 ∷ 0 ∷ 0 ∷ 0 ∷ 0 ∷ 0 ∷ 0 ∷ 0 ∷ 0 ∷ 255 ∷ []

pub zeros-IsRandom : IsRandom (ok zeros)
zeros-IsRandom = record {
  filled = λ bytes e.
      subst (λ s. (length s ≡ 16) × Each (λ b. b < 256) s) (ok_inj e) (refl, omega arith);
}

normalize_twice_example :
    IsRequestId (lit "r1") × (normalize_request_id (ok zeros) (lit "r1") ≡ ok (lit "r1"))
unfolding normalize_request_id trim_space peel
normalize_twice_example =
    normalize_twice (ok zeros) (ok zeros) (lit " r1 ") (lit "r1") zeros-IsRandom refl

abbrev no_entropy : GoError
no_entropy = opaque (lit "no entropy")

abbrev not_generated : GoError
not_generated = wrap (lit "generate request_id: ") no_entropy []
