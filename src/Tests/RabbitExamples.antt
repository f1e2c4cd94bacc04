-- ===== src/Tests/RabbitExamples.antt =====
-- Examples for the publisher: of three messages 1 is confirmed, 2 is returned as unroutable after its
-- confirmation has been read, and 3 waits for the deadline.
use case_execution.Rabbit.Confirms.Returned.{wait_unreturned, is_returned}
use case_execution.Rabbit.Confirms.Acknowledged.{wait_acknowledged, acked}
use case_execution.Rabbit.Confirms.{
  deadline, message_returned, Event, execution_id_from_return, wait_confirms, Pending, confirmation,
}
use case_execution.Rabbit.Confirms.Conservation.{wait_conserves}
use case_execution.Domain.Errs.{error_text, opaque}
use case_execution.Rabbit.BatchRun.Partition.{batch_run_conserves}
use case_execution.Prelude.{
  false, ◌+◌, ◌==◌, ◌≡◌, if◌then◌else◌, true, count, [], List, ℕ, refl, none, some, ◌∷◌,
}
use case_execution.Rabbit.BatchRun.{publish_loop, collect, batch_run, Channel}
use case_execution.Dispatch.Ports.{ok}
use case_execution.Text.{lit}
use case_execution.Domain.Entity.{ExecutionTask}

abbrev pending : Pending
pending = (7, 1) ∷ (8, 2) ∷ []

abbrev arriving : List Event
arriving =
    confirmation 8 true
    ∷ confirmation 6 true
    ∷ confirmation 7 true
    ∷ message_returned (lit "2")
    ∷ []

returned_late : wait_confirms arriving pending ≡ (1 ∷ [], 2 ∷ [], false)
unfolding wait_confirms execution_id_from_return
returned_late = refl

times_out : wait_confirms (confirmation 8 true ∷ []) pending ≡ (2 ∷ [], 1 ∷ [], true)
unfolding wait_confirms
times_out = refl

-- After a wait that gave up, a return that was not read yet leaves its message a success.
return_unread :
    wait_confirms (confirmation 8 true ∷ deadline ∷ message_returned (lit "2") ∷ []) pending
    ≡ (2 ∷ [], 1 ∷ [], true)
unfolding wait_confirms
return_unread = refl

wait_conserves_example :
    let (success, failed, _) = wait_confirms arriving pending in
    count 2 success + count 2 failed ≡ 1
wait_conserves_example = wait_conserves 2 arriving pending refl refl

wait_acknowledged_example : acked pending 1 arriving ≡ true
unfolding wait_confirms execution_id_from_return
wait_acknowledged_example = wait_acknowledged 1 arriving pending refl

wait_unreturned_example : is_returned 1 arriving ≡ false
unfolding wait_confirms execution_id_from_return
wait_unreturned_example = wait_unreturned 1 arriving pending refl refl refl

abbrev task_of : ℕ → ExecutionTask
task_of k = record { execution_id = k; case_id = k; case_name = lit "login"; version = lit "26B" }

abbrev channel : Channel
channel = record {
  context_error = λ i. if i == 2 then some (opaque (lit "gone")) else none;
  marshal_error = λ t. none;
  publish_error = λ t. none;
  next_seq = 7;
  events = arriving;
}

abbrev batch : List ExecutionTask
batch = task_of 1 ∷ task_of 2 ∷ task_of 3 ∷ []

batch_runs : batch_run (ok channel) batch ≡ (
  record { success_ids = 1 ∷ []; failed_ids = 2 ∷ 3 ∷ []; error_message = lit "gone" },
  some (opaque (lit "gone")),
  false,
)
unfolding batch_run collect publish_loop wait_confirms execution_id_from_return error_text
batch_runs = refl

batch_run_conserves_example :
    let result = (batch_run (ok channel) batch).0 in
    count 3 result.success_ids + count 3 result.failed_ids ≡ 1
batch_run_conserves_example = batch_run_conserves 3 (ok channel) batch refl
