-- ===== src/Grpc/Streaming.antt =====
-- The streaming calls of internal/infrastructure/grpcserver/handler.go. A stream of frames is what its
-- Send does to the state.
use case_execution.Dispatch.RequestId.{normalize_request_id, normalize_twice, IsRandom, new_version}
use case_execution.Dispatch.Ports.{Reply, ok, err}
use case_execution.Dispatch.Chunk.{Progress}
use case_execution.Dispatch.Stream.Calls.{
  execute_all_cases_with_request, execute_channel_cases_with_request, start_stream,
}
use case_execution.Domain.Errs.{GoError}
use case_execution.Grpc.Errors.{GrpcStatus, to_grpc_err, invalid_argument_code}
use case_execution.Text.{Bytes, lit, is_empty}
use case_execution.Prelude.{ℕ, ◌≡◌, Option, none, some, List, false, refl}

pub record BatchDispatchProgress : Type 0 where
  pub chunk_index : ℕ
  pub chunk_size : ℕ
  pub success_execution_ids : List ℕ
  pub failed_execution_ids : List ℕ
  pub total_dispatched : ℕ
  pub total_planned : ℕ
  pub chunk_error : Bytes
  pub request_id : Bytes

abbrev pub frame_of : Bytes → Progress → BatchDispatchProgress
frame_of request_id p = record {
  chunk_index = p.chunk_index;
  chunk_size = p.chunk_size;
  success_execution_ids = p.success_ids;
  failed_execution_ids = p.failed_ids;
  total_dispatched = p.total_dispatched;
  total_planned = p.total_planned;
  chunk_error = p.chunk_error;
  request_id = request_id;
}

pub record StreamRequest : Type 0 where
  pub channel : Bytes
  pub version : Bytes
  pub user : Bytes
  pub request_id : Bytes

abbrev request_is_nil : Option GrpcStatus
request_is_nil = some (record { code = invalid_argument_code; message = lit "request is nil" })

-- `dispatch` is dispatchStream with its callback, under an identifier, a version and a user.
module _ {S : Type 0} (send : BatchDispatchProgress → S → Option GoError × S)
    (dispatch : (Progress → S → Option GoError × S)
      → Bytes
      → Bytes
      → Bytes
      → S
      → Option GoError × S) where
  unfoldable pub progress_forwarder : Bytes → Progress → S → Option GoError × S
  progress_forwarder request_id p s = send (frame_of request_id p) s

  status_of_call : Option GoError × S → Option GrpcStatus × S
  unfolding to_grpc_err
  status_of_call (e, s) = (to_grpc_err e, s)

  -- The calls under a normalised identifier, which the application service normalises again.
  call_all : Reply Bytes → Reply Bytes → StreamRequest → S → Option GrpcStatus × S
  unfolding status_of_call progress_forwarder execute_all_cases_with_request new_version
  call_all again (err e) req s = (to_grpc_err (some e), s)
  call_all again (ok request_id) req s = status_of_call (
      execute_all_cases_with_request (dispatch (progress_forwarder request_id)) again request_id
        (new_version req.version) req.user s)

  call_channel : Reply Bytes → Reply Bytes → StreamRequest → S → Option GrpcStatus × S
  unfolding status_of_call progress_forwarder execute_channel_cases_with_request new_version
  call_channel again (err e) req s = (to_grpc_err (some e), s)
  call_channel again (ok request_id) req s = status_of_call (
      execute_channel_cases_with_request (dispatch (progress_forwarder request_id)) again request_id
        req.channel (new_version req.version) req.user s)

  -- The request of a call for all channels has no channel.
  unfoldable pub handle_execute_all_cases :
      Reply Bytes → Reply Bytes → Option StreamRequest → S → Option GrpcStatus × S
  unfolding call_all
  handle_execute_all_cases random again none s = (request_is_nil, s)
  handle_execute_all_cases random again (some req) s =
      call_all again (normalize_request_id random req.request_id) req s

  unfoldable pub handle_execute_channel_cases :
      Reply Bytes → Reply Bytes → Option StreamRequest → S → Option GrpcStatus × S
  unfolding call_channel
  handle_execute_channel_cases random again none s = (request_is_nil, s)
  handle_execute_channel_cases random again (some req) s =
      call_channel again (normalize_request_id random req.request_id) req s

  -- A streaming call for a version starts one stream, under the normalised identifier, and each of its
  -- progresses is sent as one frame that carries this identifier; the call ends with the status of what
  -- the stream returned.
  pub handle_all_streams :
      (random again : Reply Bytes) (req : StreamRequest) (request_id : Bytes) (s : S)
      → IsRandom random
      → normalize_request_id random req.request_id ≡ ok request_id
      → is_empty (new_version req.version) ≡ false
      → let (e, s') =
          dispatch
            (λ p. send (frame_of request_id p))
            request_id
            (new_version req.version)
            req.user
            s in
        handle_execute_all_cases random again (some req) s ≡ (to_grpc_err e, s')
  unfolding handle_execute_all_cases call_all execute_all_cases_with_request start_stream
      status_of_call progress_forwarder
  handle_all_streams random again req request_id s drawn normal present =
      let (_, still) = normalize_twice random again req.request_id request_id drawn normal in
      rw normal (rw (present, still) refl)
