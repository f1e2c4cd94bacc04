-- ===== src/Dispatch/Stream/Calls.antt =====
-- The calls of internal/usecase/dispatch_app_service.go that start a stream. `stream` is dispatchStream
-- under an identifier, a version and a user; its state is that of all it works on.
use case_execution.Prelude.{inr, inl, Bool-cases, ◌||◌, ◌≡◌, Option, refl, some, [], if◌then◌else◌}
use case_execution.Dispatch.RequestId.{normalize_twice, IsRandom, normalize_request_id}
use case_execution.Text.{lit, is_empty, Bytes}
use case_execution.Domain.Errs.{new_invalid_argument, GoError}
use case_execution.Dispatch.Ports.{Reply, ok, err}

module _ {S : Type 0} (stream : Bytes → Bytes → Bytes → S → Option GoError × S) where
  unfoldable pub start_stream : Reply Bytes → Bytes → Bytes → S → Option GoError × S
  start_stream (err e) v user s = (some e, s)
  start_stream (ok request_id) v user s = stream request_id v user s

  unfoldable pub execute_all_cases_with_request :
      Reply Bytes → Bytes → Bytes → Bytes → S → Option GoError × S
  unfolding start_stream
  execute_all_cases_with_request random request_id v user s =
      if is_empty v
      then (some (new_invalid_argument (lit "version is required")), s)
      else start_stream (normalize_request_id random request_id) v user s

  unfoldable pub execute_all_cases : Reply Bytes → Bytes → Bytes → S → Option GoError × S
  unfolding execute_all_cases_with_request
  execute_all_cases random v user s = execute_all_cases_with_request random [] v user s

  -- The channel is part of what the stream scans.
  unfoldable pub execute_channel_cases_with_request :
      Reply Bytes → Bytes → Bytes → Bytes → Bytes → S → Option GoError × S
  unfolding start_stream
  execute_channel_cases_with_request random request_id channel v user s =
      if is_empty v
      then (some (new_invalid_argument (lit "version is required")), s)
      else if is_empty channel
      then (some (new_invalid_argument (lit "channel is required")), s)
      else start_stream (normalize_request_id random request_id) v user s

  unfoldable pub execute_channel_cases :
      Reply Bytes → Bytes → Bytes → Bytes → S → Option GoError × S
  unfolding execute_channel_cases_with_request
  execute_channel_cases random channel v user s =
      execute_channel_cases_with_request random [] channel v user s

  -- A call for a channel whose version or channel is empty starts no stream and returns an invalid
  -- argument; any other call starts one under the normalised identifier, and a repetition of the call
  -- under that identifier, whatever is then drawn at random, starts the same one.
  pub channel_call_repeats :
      (random again : Reply Bytes) (request_id normal channel v user : Bytes) (s : S)
      → IsRandom random
      → normalize_request_id random request_id ≡ ok normal
      → (execute_channel_cases_with_request random request_id channel v user s
          ≡ execute_channel_cases_with_request again normal channel v user s)
        × (execute_channel_cases_with_request random request_id channel v user s ≡ (
            if is_empty v || is_empty channel
            then (
              some (
                  new_invalid_argument
                    (if is_empty v then lit "version is required" else lit "channel is required")),
              s,
            )
            else stream normal v user s))
  unfolding execute_channel_cases_with_request start_stream
  channel_call_repeats random again request_id normal channel v user s drawn same =
      let (_, still) = normalize_twice random again request_id normal drawn same in
      elim (Bool-cases (is_empty v)) [
        | inl e ↦ rw e (refl, refl)
        | inr e ↦ elim (Bool-cases (is_empty channel)) [
          | inl e' ↦ rw (e, e') (refl, refl)
          | inr e' ↦ rw (e, e', same, still) (refl, refl)
        ]
      ]
