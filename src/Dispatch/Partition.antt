-- ===== src/Dispatch/Partition.antt =====
-- completeBatchResult of internal/usecase/dispatch_app_service.go: each record goes into one of the
-- two parts of a batch result. The result's slices are written over in place by the code, after the
-- two sets have been read from them, so they are new lists here.
use case_execution.Prelude.{
  refl, ==_iff, ◌&&◌, append_assoc, append-nil, not, Bool, ℕ, ◌+◌, ◌≡◌, List, [], ◌∷◌, ◌++◌, arith,
  contains, count, count-snoc, if◌then◌else◌,
}
use case_execution.Domain.Entity.{ExecutionRecord, BatchResult}
use case_execution.Domain.Batch.{record_ids}

-- The set of the failed identifiers is the list itself; the set `success` leaves the failed ones out.
success_set : List ℕ → List ℕ → List ℕ
success_set failed [] = []
success_set failed (id ∷ ids) =
    let rest = success_set failed ids in if contains failed id then rest else id ∷ rest

-- The loop over the records, with the two slices that it appends to.
partition : List ℕ → List ℕ → List ℕ → List ℕ → List ExecutionRecord → List ℕ × List ℕ
partition failed success to_success to_failed [] = (to_success, to_failed)
partition failed success to_success to_failed (r ∷ rs) =
    let fails = partition failed success to_success (to_failed ++ r.execution_id ∷ []) rs in
    let succeeds = partition failed success (to_success ++ r.execution_id ∷ []) to_failed rs in
    if contains failed r.execution_id
    then fails
    else if contains success r.execution_id
    then succeeds
    else fails

unfoldable pub complete_batch_result : List ExecutionRecord → BatchResult → BatchResult
unfolding success_set partition
complete_batch_result rs result =
    let (to_success, to_failed) =
      partition result.failed_ids (success_set result.failed_ids result.success_ids) [] [] rs in
    record result { success_ids = to_success; failed_ids = to_failed }

partition-count :
    (a : ℕ) (failed success xs ys : List ℕ) (rs : List ExecutionRecord)
    → let (ss, fs) = partition failed success xs ys rs in
      count a ss + count a fs ≡ count a xs + count a ys + count a (record_ids rs)
unfolding partition
partition-count a failed success xs ys [] = omega arith
partition-count a failed success xs ys (r ∷ rs) = ground (
  arith,
  partition-count a failed success (xs ++ r.execution_id ∷ []) ys rs,
  partition-count a failed success xs (ys ++ r.execution_id ∷ []) rs,
  count-snoc a xs r.execution_id,
  count-snoc a ys r.execution_id,
)

-- The broker confirmed the identifier, and did not report it as failed too.
abbrev pub is_confirmed : BatchResult → ℕ → Bool
is_confirmed result id = contains result.success_ids id && not (contains result.failed_ids id)

abbrev pub keep : (ℕ → Bool) → List ℕ → List ℕ
keep p [] = []
keep p (x ∷ xs) = if p x then x ∷ keep p xs else keep p xs

contains-success_set :
    (failed ids : List ℕ) (a : ℕ)
    → contains (success_set failed ids) a ≡ (contains ids a && not (contains failed a))
unfolding success_set
contains-success_set failed [] a = refl
contains-success_set failed (id ∷ ids) a =
    ground (arith, contains-success_set failed ids a, ==_iff id a)

partition_lem :
    (result : BatchResult) (xs ys : List ℕ) (rs : List ExecutionRecord)
    → let (ss, fs) =
        partition result.failed_ids (success_set result.failed_ids result.success_ids) xs ys rs in
      (ss ≡ xs ++ keep (is_confirmed result) (record_ids rs))
      × (fs ≡ ys ++ keep (λ a. not (is_confirmed result a)) (record_ids rs))
unfolding partition
partition_lem result xs ys [] = (simp append-nil, simp append-nil)
partition_lem result xs ys (r ∷ rs) = ground (
  arith,
  contains-success_set result.failed_ids result.success_ids r.execution_id,
  partition_lem result (xs ++ r.execution_id ∷ []) ys rs,
  partition_lem result xs (ys ++ r.execution_id ∷ []) rs,
  append_assoc xs (r.execution_id ∷ []) (keep (is_confirmed result) (record_ids rs)),
  append_assoc ys (r.execution_id ∷ []) (keep (λ a. not (is_confirmed result a)) (record_ids rs)),
)

-- completeBatchResult puts the records' identifiers, in their order, into the successes exactly where
-- the broker confirmed one and did not fail it, and into the failures otherwise; so each occurs in
-- the two parts together as often as among the records, whatever the broker's result listed.
pub complete_batch_result_lem :
    (rs : List ExecutionRecord) (result : BatchResult)
    → let done = complete_batch_result rs result in
      (done.success_ids ≡ keep (is_confirmed result) (record_ids rs))
      × (done.failed_ids ≡ keep (λ a. not (is_confirmed result a)) (record_ids rs))
      × (done.error_message ≡ result.error_message)
      × ((a : ℕ) → count a done.success_ids + count a done.failed_ids ≡ count a (record_ids rs))
unfolding complete_batch_result
complete_batch_result_lem rs result =
    let (ss, fs) = partition_lem result [] [] rs in
    (
      ss,
      fs,
      refl,
      λ a. omega (
        arith,
        partition-count a result.failed_ids (success_set result.failed_ids result.success_ids) [] []
            rs,
      ),
    )
