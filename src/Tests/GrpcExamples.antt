-- ===== src/Tests/GrpcExamples.antt =====
-- Examples for the handler of one case.
use case_execution.Grpc.Handler.{
  handle_one_identifier, answer_of, handle_execute_case, ExecuteCaseRequest,
}
use case_execution.Prelude.{[], ◌≡◌, ℕ, refl, some, pos}
use case_execution.Domain.Errs.{canceled, sentinel, wrap, GoError}
use case_execution.Text.{lit}
use case_execution.Dispatch.RequestId.{new_version, normalize_request_id}
use case_execution.Dispatch.Single.{execute_normalized}
use case_execution.Tests.Memory.{app, times, empty_db, broker}
use case_execution.Tests.DomainExamples.{zeros, zeros-IsRandom}
use case_execution.Dispatch.Ports.{ok}
use case_execution.Text.Trim.{trim_space, peel}

abbrev request_of : ℕ → ExecuteCaseRequest
request_of k = record {
  case_id = pos k;
  version = lit "26B";
  user = lit "ann";
  request_id = lit " r1 ";
}

handle_one_identifier_example :
    let (outcome, d', q') =
      execute_normalized app times
        (ok (lit "r1"))
        1
        (new_version (lit "26B"))
        (lit "ann")
        empty_db
        broker in
    handle_execute_case app times (ok zeros) (ok zeros) (some (request_of 1)) empty_db broker
    ≡ (answer_of (lit "r1") outcome, d', q')
unfolding normalize_request_id trim_space peel new_version
handle_one_identifier_example =
    handle_one_identifier app times (ok zeros) (ok zeros) (request_of 1) (lit "r1") empty_db broker
      zeros-IsRandom refl refl refl

abbrev wrapped : GoError
wrapped = wrap (lit "count cases: ") (sentinel canceled) []
