-- ===== src/Domain/Service.antt =====
-- The domain service, internal/domain/service/execution_service.go. Its log line is left out.
use case_execution.Prelude.{map, assign, ℕ, suc, List, [], ◌∷◌, contains, if◌then◌else◌}
use case_execution.Text.{Bytes}
use case_execution.Domain.Entity.{
  ExecutionRecord, UtCase, BatchResult, new_execution_record, new_execution_record_for_request,
  mark_as_dispatch_failed,
}

unfoldable pub create_execution_record : ℕ → ℕ → Bytes → Bytes → ExecutionRecord
unfolding new_execution_record
create_execution_record now case_id v user = new_execution_record now case_id v user

unfoldable pub create_execution_record_for_request : ℕ → Bytes → ℕ → Bytes → Bytes → ExecutionRecord
unfolding new_execution_record_for_request
create_execution_record_for_request now request_id case_id v user =
    new_execution_record_for_request now request_id case_id v user

-- The loop over the cases, in two parts: record number `i` of the batch reads the time `now i`.
create_records : (ℕ → ℕ) → ℕ → Bytes → List UtCase → Bytes → Bytes → List ExecutionRecord
unfolding new_execution_record_for_request
create_records now i request_id [] v user = []
create_records now i request_id (c ∷ cs) v user =
    new_execution_record_for_request (now i) request_id c.case_id v user
    ∷ create_records now (suc i) request_id cs v user

-- A later case of the same number overwrites the name of an earlier one.
unfoldable pub name_map : List UtCase → List (ℕ × Bytes)
name_map cases = assign [] (map (λ c. (c.case_id, c.case_name)) cases)

unfoldable pub create_batch_records_for_request :
    (ℕ → ℕ) → Bytes → List UtCase → Bytes → Bytes → List ExecutionRecord × List (ℕ × Bytes)
unfolding create_records name_map
create_batch_records_for_request now request_id cases v user =
    (create_records now 0 request_id cases v user, name_map cases)

unfoldable pub create_batch_records :
    (ℕ → ℕ) → List UtCase → Bytes → Bytes → List ExecutionRecord × List (ℕ × Bytes)
unfolding create_batch_records_for_request
create_batch_records now cases v user = create_batch_records_for_request now [] cases v user

-- A transition that the state machine refuses leaves its record as it is.
unfoldable pub mark_failed : (ℕ → ℕ) → ℕ → List ℕ → List ExecutionRecord → List ExecutionRecord
unfolding mark_as_dispatch_failed
mark_failed now i failed_ids [] = []
mark_failed now i failed_ids (r ∷ rs) =
    (if contains failed_ids r.execution_id then (mark_as_dispatch_failed (now i) r).0 else r)
    ∷ mark_failed now (suc i) failed_ids rs

unfoldable pub dispatch_batch : (ℕ → ℕ) → List ExecutionRecord → BatchResult → List ExecutionRecord
unfolding mark_failed
dispatch_batch now rs result = mark_failed now 0 result.failed_ids rs
