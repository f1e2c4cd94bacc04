-- ===== src/Rabbit/Pool/System.antt =====
-- The client among its workers and its reconnection loop, a hold of the mutex at a time. Between the
-- holds any other may run.
use case_execution.Prelude.{
  ℕ, suc, ◌+◌, ◌*◌, ◌∷◌, [], List, ◌++◌, Bool, true, false, Option, none, some, pos_part, length,
  contains, ◌≡◌,
}
use case_execution.Domain.Errs.{GoError}
use case_execution.Dispatch.Ports.{ok, err}
use case_execution.Relay.Backoff.{doubled}
use case_execution.Rabbit.Pool.{
  RabbitConfig, DialAttempt, PooledChannel, Client, connect, borrow_check, release_start, backfill,
  disconnect, commit_reconnect, close_start, new_client, apply_defaults,
}

-- Where the reconnection loop stands, with its local variables: it watches the connection; it empties
-- the pool after a loss; it waits so long before the next attempt; it has reconnected and is to close
-- the signal; it has returned.
pub data Loop : Type 0 where
  watching stopped : Loop
  draining : (signal : ℕ) → Loop
  retrying : (signal backoff : ℕ) → Loop
  signalling : (signal : ℕ) → Loop

-- Beside the client and its loop: the signals for which workers wait in borrow, the channels that
-- workers hold, the connections on which released channels are to be replaced, the replacements that
-- are open, and the next free number.
pub record System : Type 0 where
  pub client : Client
  pub loop : Loop
  pub waiting : List ℕ
  pub held : List PooledChannel
  pub replacing : List ℕ
  pub fresh : List PooledChannel
  pub next : ℕ

abbrev pub to_replace : Option ℕ → List ℕ → List ℕ
to_replace none replacing = replacing
to_replace (some k) replacing = k ∷ replacing

-- The loop ends where it looks at the stop channel.
abbrev pub is_stoppable : Loop → Bool
is_stoppable watching = true
is_stoppable (retrying signal backoff) = true
is_stoppable _ = false

-- `Keeps` is what a worker that returns a channel as whole has seen to.
pub data Step (cfg : RabbitConfig) (Keeps : Client → PooledChannel → Type 0)
    : System → System → Type 0 where
  -- borrow: the check, the end of the wait without a channel, and the channel.
  check :
      (s : System) (signal : ℕ)
      → borrow_check s.client ≡ ok signal
      → Step cfg Keeps s (record s { waiting = signal ∷ s.waiting })
  give_up :
      (s : System) (before : List ℕ) (signal : ℕ) (after : List ℕ)
      → s.waiting ≡ before ++ signal ∷ after
      → Step cfg Keeps s (record s { waiting = before ++ after })
  take_channel :
      (s : System) (before : List ℕ) (signal : ℕ) (after : List ℕ) (pc : PooledChannel)
      (rest : List PooledChannel)
      → s.waiting ≡ before ++ signal ∷ after
      → contains s.client.signalled signal ≡ true
      → s.client.pool ≡ pc ∷ rest
      → Step cfg Keeps s (record s {
        client = record (s.client) { pool = rest };
        waiting = before ++ after;
        held = pc ∷ s.held;
      })
  -- A batch finds its channel broken.
  break_channel :
      (s : System) (before : List PooledChannel) (pc : PooledChannel) (after : List PooledChannel)
      → s.held ≡ before ++ pc ∷ after
      → Step cfg Keeps s (record s { held = before ++ record pc { broken = true } ∷ after })
  -- release: its first hold, then for a broken channel the failure or the opening of a replacement,
  -- and the last hold.
  release :
      (s : System) (before : List PooledChannel) (pc : PooledChannel) (after : List PooledChannel)
      → s.held ≡ before ++ pc ∷ after
      → (pc.broken ≡ false → Keeps s.client pc)
      → Step cfg Keeps s (record s {
        client = (release_start pc s.client).0;
        held = before ++ after;
        replacing = to_replace (release_start pc s.client).1 s.replacing;
      })
  fail_replacing :
      (s : System) (before : List ℕ) (conn : ℕ) (after : List ℕ)
      → s.replacing ≡ before ++ conn ∷ after
      → Step cfg Keeps s (record s { replacing = before ++ after })
  open_fresh :
      (s : System) (before : List ℕ) (conn : ℕ) (after : List ℕ)
      → s.replacing ≡ before ++ conn ∷ after
      → Step cfg Keeps s (record s {
        replacing = before ++ after;
        fresh = record { id = s.next; connection = conn; broken = false } ∷ s.fresh;
        next = suc s.next;
      })
  finish_replacing :
      (s : System) (before : List PooledChannel) (pc : PooledChannel) (after : List PooledChannel)
      → s.fresh ≡ before ++ pc ∷ after
      → Step cfg Keeps s (record s { client = backfill pc s.client; fresh = before ++ after })
  -- handleDisconnect, after the loss of the connection.
  lose :
      (s : System)
      → s.loop ≡ watching
      → Step cfg Keeps s (record s {
        client = disconnect s.next s.client;
        loop = draining s.next;
        next = suc s.next;
      })
  drain :
      (s : System) (signal : ℕ) (pc : PooledChannel) (rest : List PooledChannel)
      → s.loop ≡ draining signal
      → s.client.pool ≡ pc ∷ rest
      → Step cfg Keeps s (record s { client = record (s.client) { pool = rest } })
  drained :
      (s : System) (signal : ℕ)
      → s.loop ≡ draining signal
      → s.client.pool ≡ []
      → Step cfg Keeps s (record s {
        loop =
            retrying signal (pos_part (apply_defaults cfg).reconnect_initial_backoff_ms * 1000000);
      })
  -- reconnect: an attempt that fails, one that is committed or refused, and the signal.
  retry :
      (s : System) (signal backoff : ℕ) (a : DialAttempt) (e : GoError)
      → s.loop ≡ retrying signal backoff
      → connect a s.next (suc s.next) s.client.capacity ≡ err e
      → Step cfg Keeps s (record s {
        loop =
            retrying signal
              (doubled (pos_part (apply_defaults cfg).reconnect_max_backoff_ms * 1000000) backoff);
      })
  commit :
      (s : System) (signal backoff : ℕ) (a : DialAttempt) (channels : List PooledChannel)
      (c : Client)
      → s.loop ≡ retrying signal backoff
      → connect a s.next (suc s.next) s.client.capacity ≡ ok channels
      → commit_reconnect signal s.next channels s.client ≡ ok c
      → Step cfg Keeps s
          (record s { client = c; loop = signalling signal; next = suc s.next + length channels })
  refuse :
      (s : System) (signal backoff : ℕ) (channels : List PooledChannel) (e : GoError)
      → s.loop ≡ retrying signal backoff
      → commit_reconnect signal s.next channels s.client ≡ err e
      → Step cfg Keeps s (record s { loop = stopped })
  close_signal :
      (s : System) (signal : ℕ)
      → s.loop ≡ signalling signal
      → Step cfg Keeps s (record s {
        client = record (s.client) { signalled = signal ∷ s.client.signalled };
        loop = watching;
      })
  stop :
      (s : System)
      → is_stoppable s.loop ≡ true
      → s.client.closed ≡ true
      → Step cfg Keeps s (record s { loop = stopped })
  -- Close: its hold, and the emptying of the pool.
  close : (s : System) → Step cfg Keeps s (record s { client = close_start s.client })
  close_drain :
      (s : System) (pc : PooledChannel) (rest : List PooledChannel)
      → s.client.closed ≡ true
      → s.client.pool ≡ pc ∷ rest
      → Step cfg Keeps s (record s { client = record (s.client) { pool = rest } })

-- A new client, whose first connection and channels have taken the numbers below `next`.
abbrev pub started : Client → ℕ → System
started c next = record {
  client = c;
  loop = watching;
  waiting = [];
  held = [];
  replacing = [];
  fresh = [];
  next = next;
}

-- The states that a new client can come to.
pub data Reachable (cfg : RabbitConfig) (Keeps : Client → PooledChannel → Type 0)
    : System → Type 0 where
  start :
      (a : DialAttempt) (c : Client)
      → new_client cfg a ≡ ok c
      → Reachable cfg Keeps (started c (suc c.capacity))
  step : (s s' : System) → Reachable cfg Keeps s → Step cfg Keeps s s' → Reachable cfg Keeps s'

-- Any number of steps.
pub data Steps (cfg : RabbitConfig) (Keeps : Client → PooledChannel → Type 0)
    : System → System → Type 0 where
  none_left : (s : System) → Steps cfg Keeps s s
  first : (s s' s'' : System) → Step cfg Keeps s s' → Steps cfg Keeps s' s'' → Steps cfg Keeps s s''
