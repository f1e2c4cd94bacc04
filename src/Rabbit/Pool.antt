-- ===== src/Rabbit/Pool.antt =====
-- The client of internal/infrastructure/mq/rabbitmq/executor_client.go: its connection and its pool of
-- channels. Each function is what the code does under one hold of the mutex, or before the next. The
-- closing of a channel that leaves the pool is left out, and so is logging.
pub mod System
pub mod Bounds
pub mod Opening
pub mod Exclusive
pub mod Closed
pub mod Current
pub mod Ready
pub mod Woken
pub mod First
pub mod Recovery
use case_execution.Prelude.{
  ℕ, suc, ◌∷◌, [], List, ◌++◌, Bool, true, false, Option, none, some, ℤ, pos_part, length, ltb,
  ◌==◌, if◌then◌else◌, ◌||◌, not, zero,
}
use case_execution.Text.{Bytes, lit, format_int}
use case_execution.Domain.Errs.{GoError, wrap, sentinel, client_closed}
use case_execution.Dispatch.Ports.{Reply, ok, err}
use case_execution.Relay.Config.{or_default}

-- The settings that the pool reads.
pub record RabbitConfig : Type 0 where
  pub channel_pool : ℤ
  pub publisher_buffer : ℤ
  pub confirm_timeout_ms : ℤ
  pub reconnect_initial_backoff_ms : ℤ
  pub reconnect_max_backoff_ms : ℤ

unfoldable pub apply_defaults : RabbitConfig → RabbitConfig
apply_defaults c = record {
  channel_pool = or_default c.channel_pool 8;
  publisher_buffer = or_default c.publisher_buffer 4096;
  confirm_timeout_ms = or_default c.confirm_timeout_ms 5000;
  reconnect_initial_backoff_ms = or_default c.reconnect_initial_backoff_ms 1000;
  reconnect_max_backoff_ms = or_default c.reconnect_max_backoff_ms 30000;
}

-- A channel, with the connection that it belongs to; both are told apart by a number.
pub record PooledChannel : Type 0 where
  pub id : ℕ
  pub connection : ℕ
  pub broken : Bool

-- A signal is a Go channel that is closed to wake all who wait on it; `signalled` lists those closed.
pub record Client : Type 0 where
  pub capacity : ℕ
  pub conn : Option ℕ
  pub pool : List PooledChannel
  pub conn_ready : ℕ
  pub signalled : List ℕ
  pub closed : Bool

-- How one attempt to connect goes: the errors of the dial, of the channel for the declaration, of the
-- declaration, and of opening channel number so and so. `quoted_exchange` is the `%q` of the exchange.
pub record DialAttempt : Type 0 where
  pub dial_error : Option GoError
  pub declare_channel_error : Option GoError
  pub declare_error : Option GoError
  pub open_error : ℕ → Option GoError
  pub quoted_exchange : Bytes

unfoldable pub declare_exchange : DialAttempt → Option GoError
declare_exchange a = elim a.declare_channel_error [
  | some e ↦ some (wrap (lit "open declare channel: ") e [])
  | none ↦ elim a.declare_error [
    | some e ↦ some (wrap (lit "declare exchange " ++ (a.quoted_exchange ++ lit ": ")) e [])
    | none ↦ none
  ]
]

abbrev pub open_channel : ℕ → ℕ → PooledChannel
open_channel conn id = record { id = id; connection = conn; broken = false }

abbrev pub open_failed : ℕ → ℕ → GoError → GoError
open_failed i total e =
    wrap
      (lit "open channel " ++ (format_int (suc i) ++ (lit "/" ++ (format_int total ++ lit ": ")))) e
      []

-- The loop, with the channels that it has opened and those left to open.
unfoldable pub build_loop :
    DialAttempt → ℕ → ℕ → ℕ → ℕ → ℕ → List PooledChannel → Reply (List PooledChannel)
build_loop a conn id total i zero channels = ok channels
build_loop a conn id total i (suc left) channels = elim (a.open_error i) [
  | some e ↦ err (open_failed i total e)
  | none ↦ build_loop a conn (suc id) total (suc i) left (channels ++ open_channel conn id ∷ [])
]

-- The new channels are numbered from `id` on.
unfoldable pub build_channels : DialAttempt → ℕ → ℕ → ℕ → Reply (List PooledChannel)
unfolding build_loop
build_channels a conn id total = build_loop a conn id total 0 total []

-- The first part of dial and of reconnect.
unfoldable pub connect : DialAttempt → ℕ → ℕ → ℕ → Reply (List PooledChannel)
unfolding declare_exchange build_channels
connect a conn id total = elim a.dial_error [
  | some e ↦ err (wrap (lit "amqp dial: ") e [])
  | none ↦ elim (declare_exchange a) [ some e ↦ err e | none ↦ build_channels a conn id total ]
]

-- `case c.pool <- pc`, with its default: a full pool drops the channel.
abbrev pub put : ℕ → List PooledChannel → PooledChannel → List PooledChannel
put capacity pool pc = if ltb (length pool) capacity then pool ++ pc ∷ [] else pool

unfoldable pub fill : ℕ → List PooledChannel → List PooledChannel → List PooledChannel
fill capacity pool [] = pool
fill capacity pool (pc ∷ pcs) = fill capacity (put capacity pool pc) pcs

unfoldable pub opened : ℕ → List PooledChannel → Client
unfolding fill
opened capacity channels = record {
  capacity = capacity;
  conn = some 0;
  pool = fill capacity [] channels;
  conn_ready = 0;
  signalled = 0 ∷ [];
  closed = false;
}

-- NewClient with the first dial, which numbers the connection 0 and the signal 0; the signal is
-- closed from the start.
unfoldable pub new_client : RabbitConfig → DialAttempt → Reply Client
unfolding apply_defaults connect opened
new_client cfg a =
    let capacity = pos_part (apply_defaults cfg).channel_pool in
    elim (connect a 0 1 capacity) [ err e ↦ err e | ok channels ↦ ok (opened capacity channels) ]

-- The first hold of borrow: the signal to wait for.
unfoldable pub borrow_check : Client → Reply ℕ
borrow_check c = if c.closed then err (sentinel client_closed) else ok c.conn_ready

-- The first hold of release: the client after it, and the connection on which a broken channel is to
-- be replaced.
unfoldable pub release_start : PooledChannel → Client → Client × Option ℕ
release_start pc c =
    if c.closed
    then (c, none)
    else if pc.broken
    then (c, c.conn)
    else (record c { pool = put c.capacity c.pool pc }, none)

abbrev pub is_conn : ℕ → Option ℕ → Bool
is_conn k none = false
is_conn k (some j) = j == k

-- The last hold of release, with a replacement that was opened on its own connection.
unfoldable pub backfill : PooledChannel → Client → Client
backfill fresh c =
    if c.closed || not (is_conn fresh.connection c.conn)
    then c
    else record c { pool = put c.capacity c.pool fresh }

-- The first step of handleDisconnect, with a new signal.
unfoldable pub disconnect : ℕ → Client → Client
disconnect signal c = record c { conn = none; conn_ready = signal }

-- The hold of reconnect, after it has connected.
unfoldable pub commit_reconnect : ℕ → ℕ → List PooledChannel → Client → Reply Client
unfolding fill
commit_reconnect signal conn channels c =
    if c.closed || not (c.conn_ready == signal)
    then err (sentinel client_closed)
    else ok (record c { conn = some conn; pool = fill c.capacity c.pool channels })

-- The first hold of Close.
unfoldable pub close_start : Client → Client
close_start c = if c.closed then c else record c { closed = true; conn = none }

-- The loop of Close over what the pool holds: it ends by itself once it has taken as many channels as the
-- pool has places; `none` means that it waits for its context.
unfoldable pub drain_close : ℕ → List PooledChannel → Option (List PooledChannel)
drain_close zero pool = some pool
drain_close (suc left) [] = none
drain_close (suc left) (pc ∷ pool) = drain_close left pool
