-- ===== src/Tests/RelayExamples.antt =====
-- Examples for the relay: execution 1 is confirmed, 2 is refused and is to be retried, and 2 without
-- attempts left is dead.
use case_execution.Relay.Pass.Outcome.{Written, pass_settles, pass_rolls_back}
use case_execution.Relay.Claim.Fate.{settle_lem, Settled}
use case_execution.Relay.Pass.{dispatch_once}
use case_execution.Prelude.{
  ◌⊎◌, count, map, some, none, arith, negsuc, ◌≡◌, ◌∷◌, pos, List, [], ◌+◌, ℕ, refl,
}
use case_execution.Relay.Claim.{relay_result, settle, Settlement, new_outbox_relay, OutboxRelay}
use case_execution.Tests.Memory.{
  tx_runner-IsTxRunner, Db, Broker, tx_runner, exec_repo, outbox_repo, broker, executor,
}
use case_execution.Domain.Entity.{task, BatchResult, OutboxMessage}
use case_execution.Domain.Errs.{GoError, opaque}
use case_execution.Dispatch.Ports.{ok, err, request}
use case_execution.Relay.Backoff.{retry_backoff_lem, retry_backoff}
use case_execution.Text.{lit}
use case_execution.Relay.Config.{OutboxRelayConfig}
use case_execution.Tests.ChunkExamples.{queued}

abbrev settings : OutboxRelayConfig
settings = record {
  poll_interval = pos 0;
  batch_size = negsuc 0;
  lease_duration = pos 0;
  max_attempts = pos 3;
  initial_backoff = pos 0;
  max_backoff = pos 0;
}

abbrev relay : OutboxRelay Db Broker
relay = new_outbox_relay settings tx_runner outbox_repo exec_repo executor

abbrev claimed : ℕ → ℕ → OutboxMessage
claimed k attempts = record (queued k) { lease_token = lit "t"; attempts = attempts }

abbrev messages : List OutboxMessage
messages = claimed 1 1 ∷ claimed 2 2 ∷ []

abbrev db : Db
db = record { rows = []; messages = messages; next = 3 }

abbrev unclaimed : Db
unclaimed = record { rows = []; messages = queued 1 ∷ []; next = 2 }

abbrev clock : ℕ → ℕ
clock i = 500 + i

retry_backoff_example : retry_backoff 1000000000 60000000000 8 ≡ 60000000000
retry_backoff_example = retry_backoff_lem 1000000000 60000000000 8 (ground arith) (ground arith)

pass_runs :
    let (e, d, q) = dispatch_once relay 400 clock db broker in (e ≡ none) × (q.sent ≡ 1 ∷ [])
unfolding dispatch_once new_outbox_relay
pass_runs = (refl, refl)

pass_settles_example :
    let (raw, e, q') = executor.batch_run request (map task messages) broker in
    let (returned, d2, q2) = dispatch_once relay 400 clock db broker in
    (s : Settlement) × (settle 3 clock messages (relay_result messages raw e) ≡ ok s)
    × Settled 3 messages raw s
    × (q2 ≡ q')
    × (((returned ≡ none) × Written relay (lit "t") 400 s db d2)
        ⊎ ((x : GoError) × (returned ≡ some x) × (d2 ≡ db)))
unfolding new_outbox_relay
pass_settles_example =
    pass_settles relay 400 clock db db broker (claimed 1 1) (claimed 2 2 ∷ []) tx_runner-IsTxRunner
      refl refl

abbrev answer : BatchResult
answer = record { success_ids = 1 ∷ []; failed_ids = []; error_message = [] }

settle_example :
    (s : Settlement) × (settle 3 clock messages (relay_result messages answer none) ≡ ok s)
    × Settled 3 messages answer s
    × (count 2 s.success_ids + count 2 s.retry_ids + count 2 s.dead_ids ≡ 1)
settle_example = settle_lem 2 3 clock messages answer none

-- The same relay over a database that refuses to write a status.
abbrev broken : OutboxRelay Db Broker
broken =
    new_outbox_relay settings tx_runner outbox_repo
      (record exec_repo { batch_update_status = λ ctx rs d. (err (opaque (lit "down")), d) })
      executor

broken_fails :
    dispatch_once broken 400 clock db broker
    ≡ (some (opaque (lit "down")), db, record broker { sent = 1 ∷ [] })
unfolding dispatch_once new_outbox_relay
broken_fails = refl

pass_rolls_back_example : Path Db db db
unfolding new_outbox_relay
pass_rolls_back_example =
    pass_rolls_back broken 400 clock db db db broker (record broker { sent = 1 ∷ [] }) (ok messages)
      (opaque (lit "down")) tx_runner-IsTxRunner refl broken_fails
