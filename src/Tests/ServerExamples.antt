-- ===== src/Tests/ServerExamples.antt =====
-- The process at concrete inputs.
use case_execution.Server.Run.{
  World, run, exit_status, signalled, logger_up, logger_synced, database_open, database_closed,
  client_open, client_closed, server, relay_started, relay_cancelled,
}
use case_execution.Dispatch.Ports.{ok}
use case_execution.Server.Shutdown.{run-IsOrderly, Live, replay, down, is_closed, has_served}
use case_execution.Server.Settings.{AppConfig, milliseconds}
use case_execution.Grpc.Server.{ServerEvent, created, health, listening, ended}
use case_execution.Domain.Errs.{opaque, wrap}
use case_execution.Text.{lit}
use case_execution.Prelude.{◌∷◌, [], ◌≡◌, refl, none, some, true, false, pos, negsuc}

abbrev app_config : AppConfig
app_config = record {
  server = record { grpc_addr = []; max_recv_msg_mb = pos 0 };
  mysql = record {
    dsn = lit "dsn";
    max_open_conns = pos 0;
    max_idle_conns = pos 0;
    conn_max_lifetime_sec = pos 0;
  };
  rabbitmq = record {
    url = lit "amqp";
    exchange = lit "tasks";
    channel_pool = pos 1;
    confirm_timeout_ms = pos 0;
    reconnect_initial_backoff_ms = pos 0;
    reconnect_max_backoff_ms = pos 0;
  };
  dispatch = record { batch_size = pos 10; worker_count = pos 0; max_concurrent_batches = pos 0 };
  outbox = record {
    enabled = true;
    fast_path_grace_ms = pos 0;
    poll_interval_ms = pos 0;
    batch_size = pos 0;
    lease_duration_ms = pos 0;
    max_attempts = pos 0;
    initial_backoff_ms = pos 0;
    max_backoff_ms = pos 0;
  };
  logger = record { level = []; encoding = [] };
}

-- A signal arrives, and the relay misses the deadline.
abbrev late_relay : World
late_relay = record {
  viper = record { read_in_config = λ s. none; unmarshal = λ s. ok app_config };
  config_path = [];
  init_logger = λ s. none;
  open_database = λ s. none;
  dial = record {
    dial_error = none;
    declare_channel_error = none;
    declare_error = none;
    open_error = λ i. none;
    quoted_exchange = [];
  };
  listen = λ a. none;
  exit = signalled;
  server_in_time = true;
  relay_in_time = false;
}

run-IsOrderly_example :
    let (events, e) = run late_relay in
    (live : Live) × (replay events down ≡ some live)
    × (is_closed live ≡ true)
    × (live.relaying ≡ true → false ≡ false)
    × (exit_status e ≡ 0 → has_served events ≡ true)
run-IsOrderly_example = run-IsOrderly late_relay

-- The whole course of it.
late_relay_run : (run late_relay) ≡ (
  logger_up
      ∷ database_open
      ∷ client_open
      ∷ server (created 16777216)
      ∷ server (health true)
      ∷ server (listening (lit ":9090"))
      ∷ relay_started
      ∷ server ServerEvent.serving
      ∷ server (health false)
      ∷ server ended
      ∷ relay_cancelled
      ∷ client_closed
      ∷ client_closed
      ∷ database_closed
      ∷ logger_synced
      ∷ [],
  none,
)
unfolding run
late_relay_run = refl

refused_listener : run (record late_relay { listen = λ a. some (opaque (lit "in use")) }) ≡ (
  logger_up
      ∷ database_open
      ∷ client_open
      ∷ server (created 16777216)
      ∷ server (health true)
      ∷ client_closed
      ∷ database_closed
      ∷ logger_synced
      ∷ [],
  some (wrap (lit "grpc server: ") (wrap (lit "listen :9090: ") (opaque (lit "in use")) []) []),
)
unfolding run
refused_listener = refl

one_second : milliseconds (pos 1000) ≡ pos 1000000000
unfolding milliseconds
one_second = refl

minus_one : milliseconds (negsuc 0) ≡ negsuc 999999
unfolding milliseconds
minus_one = refl
