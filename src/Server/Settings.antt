-- ===== src/Server/Settings.antt =====
-- The settings of cmd/server/main.go, and the configurations that run makes of them.
use case_execution.Grpc.Server.{ServerConfig}
use case_execution.Rabbit.Pool.{RabbitConfig}
use case_execution.Relay.Config.{OutboxRelayConfig, DispatchConfig}
use case_execution.Dispatch.Ports.{Reply, ok, err}
use case_execution.Domain.Errs.{GoError, wrap}
use case_execution.Text.{Bytes, lit, is_empty}
use case_execution.Prelude.{
  ◌+◌, ◌-◌, ◌*◌, ◌%◌, ◌^◌, [], Bool, Option, none, some, ℤ, pos, negsuc, ltb, if◌then◌else◌,
}

pub record ServerSection : Type 0 where
  pub grpc_addr : Bytes
  pub max_recv_msg_mb : ℤ

pub record MysqlSection : Type 0 where
  pub dsn : Bytes
  pub max_open_conns : ℤ
  pub max_idle_conns : ℤ
  pub conn_max_lifetime_sec : ℤ

pub record RabbitmqSection : Type 0 where
  pub url : Bytes
  pub exchange : Bytes
  pub channel_pool : ℤ
  pub confirm_timeout_ms : ℤ
  pub reconnect_initial_backoff_ms : ℤ
  pub reconnect_max_backoff_ms : ℤ

pub record DispatchSection : Type 0 where
  pub batch_size : ℤ
  pub worker_count : ℤ
  pub max_concurrent_batches : ℤ

pub record OutboxSection : Type 0 where
  pub enabled : Bool
  pub fast_path_grace_ms : ℤ
  pub poll_interval_ms : ℤ
  pub batch_size : ℤ
  pub lease_duration_ms : ℤ
  pub max_attempts : ℤ
  pub initial_backoff_ms : ℤ
  pub max_backoff_ms : ℤ

pub record LoggerSection : Type 0 where
  pub level : Bytes
  pub encoding : Bytes

pub record AppConfig : Type 0 where
  pub server : ServerSection
  pub mysql : MysqlSection
  pub rabbitmq : RabbitmqSection
  pub dispatch : DispatchSection
  pub outbox : OutboxSection
  pub logger : LoggerSection

-- Where Viper looks: in the file of the path, or for config.yaml in ./configs and then here.
pub data ConfigSource : Type 0 where
  config_file : Bytes → ConfigSource
  config_name : ConfigSource

unfoldable pub config_source : Bytes → ConfigSource
config_source path = if is_empty path then config_name else config_file path

-- The calls of Viper, environment variables included.
pub record Viper : Type 0 where
  pub read_in_config : ConfigSource → Option GoError
  pub unmarshal : ConfigSource → Reply AppConfig

abbrev with_default_addr : AppConfig → AppConfig
with_default_addr cfg =
    if is_empty cfg.server.grpc_addr
    then record cfg { server = record (cfg.server) { grpc_addr = lit ":9090" } }
    else cfg

-- `path` is the variable EXEC_ENGINE_CONFIG.
unfoldable pub load_config : Viper → Bytes → Reply AppConfig
unfolding config_source
load_config viper path = elim (viper.read_in_config (config_source path)) [
  | some e ↦ err (wrap (lit "read config: ") e [])
  | none ↦ elim (viper.unmarshal (config_source path)) [
    | err e ↦ err (wrap (lit "unmarshal config: ") e [])
    | ok cfg ↦ ok (with_default_addr cfg)
  ]
]

-- A signed number that is kept in 64 bits.
unfoldable pub int64 : ℤ → ℤ
int64 (pos n) =
    let low = n % 2 ^ 64 in if ltb low (2 ^ 63) then pos low else negsuc (2 ^ 64 - 1 - low)
int64 (negsuc n) =
    let low = n % 2 ^ 64 in if ltb low (2 ^ 63) then negsuc low else pos (2 ^ 64 - 1 - low)

-- `time.Duration(ms) * time.Millisecond`.
unfoldable pub milliseconds : ℤ → ℤ
unfolding int64
milliseconds (pos n) = int64 (pos (n * 1000000))
milliseconds (negsuc n) = int64 (negsuc (n * 1000000 + 999999))

unfoldable pub rabbit_config : AppConfig → RabbitConfig
rabbit_config cfg = record {
  channel_pool = cfg.rabbitmq.channel_pool;
  publisher_buffer = cfg.dispatch.batch_size;
  confirm_timeout_ms = cfg.rabbitmq.confirm_timeout_ms;
  reconnect_initial_backoff_ms = cfg.rabbitmq.reconnect_initial_backoff_ms;
  reconnect_max_backoff_ms = cfg.rabbitmq.reconnect_max_backoff_ms;
}

unfoldable pub dispatch_config : AppConfig → DispatchConfig
unfolding milliseconds
dispatch_config cfg = record {
  batch_size = cfg.dispatch.batch_size;
  worker_count = cfg.dispatch.worker_count;
  max_concurrent_batches = cfg.dispatch.max_concurrent_batches;
  outbox_fast_path_grace = milliseconds cfg.outbox.fast_path_grace_ms;
}

unfoldable pub relay_config : AppConfig → OutboxRelayConfig
unfolding milliseconds
relay_config cfg = record {
  poll_interval = milliseconds cfg.outbox.poll_interval_ms;
  batch_size = cfg.outbox.batch_size;
  lease_duration = milliseconds cfg.outbox.lease_duration_ms;
  max_attempts = cfg.outbox.max_attempts;
  initial_backoff = milliseconds cfg.outbox.initial_backoff_ms;
  max_backoff = milliseconds cfg.outbox.max_backoff_ms;
}

unfoldable pub server_config : AppConfig → ServerConfig
server_config cfg = record {
  addr = cfg.server.grpc_addr;
  max_recv_msg_mib = cfg.server.max_recv_msg_mb;
}
