-- ===== src/Server/Shutdown.antt =====
-- The order in which run of cmd/server/main.go opens and closes, checked against what each part needs.
use case_execution.Rabbit.Pool.{Client, new_client}
use case_execution.Server.Settings.{server_config, rabbit_config, load_config, AppConfig}
use case_execution.Server.Run.{
  exit_status, after_config, Exit, Effect, World, Course, run, after_logger, after_database,
  after_client, after_server, serve, start_relay, stop_relay, deferring,
}
use case_execution.Domain.Errs.{GoError}
use case_execution.Grpc.Server.{ServerEvent, ServerConfig, new_server, graceful_stop}
use case_execution.Dispatch.Ports.{Reply, ok, err}
use case_execution.Prelude.{
  ◌∷◌, [], List, Bool, true, false, not, ◌&&◌, ◌||◌, Option, none, some, ◌≡◌, refl, if◌then◌else◌,
}

-- What is up; `relaying` is the relay's goroutine.
pub record Live : Type 0 where
  pub logger : Bool
  pub database : Bool
  pub client : Bool
  pub healthy : Bool
  pub listener : Bool
  pub relaying : Bool
  pub cancelled : Bool

abbrev pub down : Live
down = record {
  logger = false;
  database = false;
  client = false;
  healthy = false;
  listener = false;
  relaying = false;
  cancelled = false;
}

abbrev guarded : Bool → Live → Option Live
guarded allowed live = if allowed then some live else none

-- The parts stand on each other: the database on the logger, the client on the database, the listener
-- on the client, the relay on the listener. What a part stands on is closed after the part; the server
-- is unhealthy before it stops, and the relay is cancelled after the server has stopped and before the
-- client closes. A client may be closed twice.
unfoldable pub allow : Effect → Live → Option Live
allow Effect.logger_up l = guarded (not l.logger) (record l { logger = true })
allow Effect.logger_synced l = guarded (l.logger && not l.database) (record l { logger = false })
allow Effect.database_open l = guarded (l.logger && not l.database) (record l { database = true })
allow Effect.database_closed l =
    guarded (l.database && not l.client) (record l { database = false })
allow Effect.client_open l = guarded (l.database && not l.client) (record l { client = true })
allow Effect.client_closed l =
    guarded (l.database && (not l.listener && (not l.relaying || l.cancelled)))
      (record l { client = false })
allow (Effect.server (ServerEvent.created size)) l = guarded l.client l
allow (Effect.server (ServerEvent.health b)) l = guarded l.client (record l { healthy = b })
allow (Effect.server (ServerEvent.listening addr)) l =
    guarded (l.client && not l.listener) (record l { listener = true })
allow (Effect.server ServerEvent.serving) l = guarded (l.listener && l.healthy) l
allow (Effect.server ServerEvent.forced) l = guarded (l.listener && not l.healthy) l
allow (Effect.server ServerEvent.ended) l =
    guarded (l.listener && not l.healthy) (record l { listener = false })
allow Effect.relay_started l =
    guarded (l.listener && (l.database && not l.relaying)) (record l { relaying = true })
allow Effect.relay_cancelled l =
    guarded (l.relaying && (l.client && not l.listener)) (record l { cancelled = true })
allow Effect.relay_ended l = guarded (l.relaying && l.cancelled) (record l { relaying = false })

unfoldable pub replay : List Effect → Live → Option Live
unfolding allow
replay [] l = some l
replay (e ∷ es) l = elim (allow e l) [ none ↦ none | some l' ↦ replay es l' ]

abbrev pub is_closed : Live → Bool
is_closed l = not l.logger && (not l.database && (not l.client && not l.listener))

abbrev pub has_served : List Effect → Bool
has_served [] = false
has_served (Effect.server ServerEvent.serving ∷ es) = true
has_served (e ∷ es) = has_served es

-- The events are allowed in their order and leave nothing open, nor the relay running where it ends in
-- time; the process exits with 0 only where it has served.
abbrev pub IsOrderly : Bool → Course → Type 0
IsOrderly relay_in_time (events, e) =
    (live : Live) × (replay events down ≡ some live)
    × (is_closed live ≡ true)
    × (live.relaying ≡ true → relay_in_time ≡ false)
    × (exit_status e ≡ 0 → has_served events ≡ true)

-- Once there is a client.
with_client-IsOrderly :
    (client : Client) (cfg : ServerConfig) (listened : Option GoError) (enabled : Bool)
    (exit : Exit) (server_in_time relay_in_time : Bool)
    → IsOrderly relay_in_time (
        after_logger none (
          after_database none (
            after_client (ok client) (
              after_server
                (new_server cfg listened)
                (serve enabled exit server_in_time relay_in_time)))))
unfolding exit_status replay after_logger after_database after_client after_server deferring
    new_server serve start_relay stop_relay graceful_stop
with_client-IsOrderly c cfg (some x) enabled exit s r = (_, refl, refl, λ h. cc h, λ h. cc h)
with_client-IsOrderly c cfg none false exit true r = (_, refl, refl, λ h. cc h, λ h. refl)
with_client-IsOrderly c cfg none false exit false r = (_, refl, refl, λ h. cc h, λ h. refl)
with_client-IsOrderly c cfg none true exit true true = (_, refl, refl, λ h. cc h, λ h. refl)
with_client-IsOrderly c cfg none true exit false true = (_, refl, refl, λ h. cc h, λ h. refl)
with_client-IsOrderly c cfg none true exit true false = (_, refl, refl, λ h. refl, λ h. refl)
with_client-IsOrderly c cfg none true exit false false = (_, refl, refl, λ h. refl, λ h. refl)

-- Whatever is opened before.
set_up-IsOrderly :
    (logger database : Option GoError) (client : Reply Client) (cfg : ServerConfig)
    (listened : Option GoError) (enabled : Bool) (exit : Exit) (server_in_time relay_in_time : Bool)
    → IsOrderly relay_in_time (
        after_logger logger (
          after_database database (
            after_client client (
              after_server
                (new_server cfg listened)
                (serve enabled exit server_in_time relay_in_time)))))
unfolding exit_status replay after_logger after_database after_client deferring
set_up-IsOrderly (some x) d c cfg n on exit s r = (_, refl, refl, λ h. cc h, λ h. cc h)
set_up-IsOrderly none (some x) c cfg n on exit s r = (_, refl, refl, λ h. cc h, λ h. cc h)
set_up-IsOrderly none none (err x) cfg n on exit s r = (_, refl, refl, λ h. cc h, λ h. cc h)
set_up-IsOrderly none none (ok client) cfg n on exit s r =
    with_client-IsOrderly client cfg n on exit s r

after_config-IsOrderly :
    (loaded : Reply AppConfig) (w : World) → IsOrderly w.relay_in_time (after_config loaded w)
unfolding exit_status replay after_config
after_config-IsOrderly (err e) w = (_, refl, refl, λ h. cc h, λ h. cc h)
after_config-IsOrderly (ok cfg) w =
    set_up-IsOrderly (w.init_logger cfg.logger) (w.open_database cfg.mysql)
      (new_client (rabbit_config cfg) w.dial) (server_config cfg) (w.listen cfg.server.grpc_addr)
      cfg.outbox.enabled w.exit w.server_in_time w.relay_in_time

-- run opens and closes its parts in an order that each of them allows, whichever step fails: nothing is
-- left open, the server is unhealthy before it stops, and the relay is cancelled between the end of the
-- server and the close of the client. The relay is left running only where it misses the deadline, and the
-- process exits with 0 only where it has served.
pub run-IsOrderly : (w : World) → IsOrderly w.relay_in_time (run w)
unfolding run
run-IsOrderly w = after_config-IsOrderly (load_config w.viper w.config_path) w
