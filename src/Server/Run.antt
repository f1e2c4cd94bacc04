-- ===== src/Server/Run.antt =====
-- The function run of cmd/server/main.go, as its effects in their order. What the world answers is a
-- parameter: the errors of the calls, and which case of a select is ready.
use case_execution.Server.Settings.{
  AppConfig, Viper, load_config, rabbit_config, server_config, LoggerSection, MysqlSection,
}
use case_execution.Grpc.Server.{ServerEvent, ServeResult, new_server, start, graceful_stop}
use case_execution.Rabbit.Pool.{DialAttempt, Client, new_client}
use case_execution.Dispatch.Ports.{Reply, ok, err}
use case_execution.Domain.Errs.{GoError, wrap}
use case_execution.Text.{Bytes, lit}
use case_execution.Prelude.{ℕ, ◌∷◌, [], ◌++◌, List, Bool, true, false, Option, none, some, map}

pub data Effect : Type 0 where
  logger_up logger_synced database_open database_closed client_open client_closed : Effect
  server : ServerEvent → Effect
  relay_started relay_cancelled relay_ended : Effect

-- How serving ends: Start returns, or a signal arrives first.
pub data Exit : Type 0 where
  served : ServeResult → Exit
  signalled : Exit

-- The errors of logger.Init, mysqlinfra.Open and net.Listen, the first dial of the broker, how serving
-- ends, and whether the server and the relay end before the deadline of the shutdown.
pub record World : Type 0 where
  pub viper : Viper
  pub config_path : Bytes
  pub init_logger : LoggerSection → Option GoError
  pub open_database : MysqlSection → Option GoError
  pub dial : DialAttempt
  pub listen : Bytes → Option GoError
  pub exit : Exit
  pub server_in_time : Bool
  pub relay_in_time : Bool

abbrev pub Course : Type 0
Course = List Effect × Option GoError

-- An effect, the rest of the function, and the deferred call.
unfoldable pub deferring : Effect → Effect → Course → Course
deferring opened closed (events, e) = (opened ∷ events ++ closed ∷ [], e)

unfoldable pub start_relay : Bool → List Effect
start_relay true = relay_started ∷ []
start_relay false = []

-- The relay is cancelled, and awaited until the deadline.
unfoldable pub stop_relay : (enabled in_time : Bool) → List Effect
stop_relay false in_time = []
stop_relay true true = relay_cancelled ∷ relay_ended ∷ []
stop_relay true false = relay_cancelled ∷ []

unfoldable pub run_error : Exit → Option GoError
unfolding start
run_error (served result) = start result
run_error signalled = none

-- From the start of the relay to the return of run. The client is closed here and by its deferred call.
unfoldable pub serve : (enabled : Bool) → Exit → (server_in_time relay_in_time : Bool) → Course
unfolding start_relay stop_relay run_error graceful_stop
serve enabled exit server_in_time relay_in_time = (
  start_relay enabled
      ++ server ServerEvent.serving
        ∷ (map server (graceful_stop server_in_time)
            ++ (stop_relay enabled relay_in_time ++ client_closed ∷ [])),
  run_error exit,
)

-- What follows NewServer.
unfoldable pub after_server : List ServerEvent × Option GoError → Course → Course
after_server (events, some e) rest = (map server events, some (wrap (lit "grpc server: ") e []))
after_server (events, none) (events', e) = (map server events ++ events', e)

-- What follows NewClient, mysqlinfra.Open and logger.Init.
unfoldable pub after_client : Reply Client → Course → Course
unfolding deferring
after_client (err e) rest = ([], some (wrap (lit "rabbitmq init: ") e []))
after_client (ok client) rest = deferring client_open client_closed rest

unfoldable pub after_database : Option GoError → Course → Course
unfolding deferring
after_database (some e) rest = ([], some (wrap (lit "mysql open: ") e []))
after_database none rest = deferring database_open database_closed rest

unfoldable pub after_logger : Option GoError → Course → Course
unfolding deferring
after_logger (some e) rest = ([], some (wrap (lit "logger init: ") e []))
after_logger none rest = deferring logger_up logger_synced rest

-- What follows loadConfig.
unfoldable pub after_config : Reply AppConfig → World → Course
unfolding after_logger after_database after_client after_server new_server serve new_client
    rabbit_config server_config
after_config (err e) w = ([], some (wrap (lit "load config: ") e []))
after_config (ok cfg) w = after_logger (w.init_logger cfg.logger) (
    after_database (w.open_database cfg.mysql) (
      after_client (new_client (rabbit_config cfg) w.dial) (
        after_server (new_server (server_config cfg) (w.listen cfg.server.grpc_addr))
          (serve cfg.outbox.enabled w.exit w.server_in_time w.relay_in_time))))

unfoldable pub run : World → Course
unfolding load_config after_config
run w = after_config (load_config w.viper w.config_path) w

-- The exit status of main.
unfoldable pub exit_status : Option GoError → ℕ
exit_status none = 0
exit_status (some e) = 1
