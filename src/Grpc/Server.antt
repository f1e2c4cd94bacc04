-- ===== src/Grpc/Server.antt =====
-- The server of internal/infrastructure/grpcserver/server.go, as the effects of its calls in their
-- order. The grpc library and the listener are the outcomes of their calls.
use case_execution.Relay.Config.{or_default}
use case_execution.Domain.Errs.{GoError, wrap}
use case_execution.Text.{Bytes, lit}
use case_execution.Prelude.{
  ℕ, ◌*◌, ◌%◌, ◌^◌, ◌∷◌, [], ◌++◌, List, Bool, true, false, Option, none, some, ℤ, pos_part,
}

-- `health` is the status SERVING or NOT_SERVING; `forced` is the call of Stop, and `ended` the end
-- of the library's GracefulStop, after which the listener is closed.
pub data ServerEvent : Type 0 where
  created : (max_recv_msg_size : ℕ) → ServerEvent
  health : (serving : Bool) → ServerEvent
  listening : (addr : Bytes) → ServerEvent
  serving forced ended : ServerEvent

pub record ServerConfig : Type 0 where
  pub addr : Bytes
  pub max_recv_msg_mib : ℤ

-- The int is the bit pattern of 64 bits.
unfoldable pub max_recv_msg_size : ServerConfig → ℕ
max_recv_msg_size cfg = (pos_part (or_default cfg.max_recv_msg_mib 16) * 1024 * 1024) % 2 ^ 64

-- NewServer, with the error of net.Listen.
unfoldable pub new_server : ServerConfig → Option GoError → List ServerEvent × Option GoError
unfolding max_recv_msg_size
new_server cfg (some e) = (
  created (max_recv_msg_size cfg) ∷ health true ∷ [],
  some (wrap (lit "listen " ++ (cfg.addr ++ lit ": ")) e []),
)
new_server cfg none =
    (created (max_recv_msg_size cfg) ∷ health true ∷ listening cfg.addr ∷ [], none)

-- What grpc.Serve returns: nil, ErrServerStopped, or another error.
pub data ServeResult : Type 0 where
  returned server_stopped : ServeResult
  failed : GoError → ServeResult

-- Start, once grpc.Serve has returned.
unfoldable pub start : ServeResult → Option GoError
start returned = none
start server_stopped = none
start (failed e) = some (wrap (lit "grpc serve: ") e [])

-- GracefulStop; `in_time` says that the calls end before the context.
unfoldable pub graceful_stop : (in_time : Bool) → List ServerEvent
graceful_stop true = health false ∷ ended ∷ []
graceful_stop false = health false ∷ forced ∷ ended ∷ []
