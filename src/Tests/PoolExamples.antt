-- ===== src/Tests/PoolExamples.antt =====
-- Examples for the pool of channels: a client with two channels.
use case_execution.Prelude.{
  ◌+◌, Option, List, ℕ, ◌≡◌, ◌≤◌, ◌∷◌, [], refl, inl, true, false, none, some, Each, contains,
  arith, pos,
}
use case_execution.Rabbit.Pool.{
  RabbitConfig, DialAttempt, PooledChannel, Client, new_client, connect, release_start,
  commit_reconnect, disconnect, borrow_check, open_channel,
}
use case_execution.Rabbit.Pool.System.{
  System, Steps, Reachable, start, step, check, take_channel, lose, release, none_left, first,
  draining, started,
}
use case_execution.Rabbit.Pool.First.{first_connection_bounded}
use case_execution.Rabbit.Pool.Exclusive.{owned_once, owners}
use case_execution.Rabbit.Pool.Current.{
  pool-IsCurrent, lost_channel_first, IsCurrent, ReturnsCurrent,
}
use case_execution.Rabbit.Pool.Closed.{after_close}
use case_execution.Rabbit.Pool.Woken.{watching_wakes}
use case_execution.Rabbit.Pool.Recovery.{reconnects, IsRestored}
use case_execution.Domain.Errs.{sentinel, client_closed}
use case_execution.Dispatch.Ports.{ok, err}

abbrev settings : RabbitConfig
settings = record {
  channel_pool = pos 2;
  publisher_buffer = pos 0;
  confirm_timeout_ms = pos 0;
  reconnect_initial_backoff_ms = pos 0;
  reconnect_max_backoff_ms = pos 0;
}

abbrev good_dial : DialAttempt
good_dial = record {
  dial_error = none;
  declare_channel_error = none;
  declare_error = none;
  open_error = λ i. none;
  quoted_exchange = [];
}

abbrev client : Client
client = record {
  capacity = 2;
  conn = some 0;
  pool = open_channel 0 1 ∷ open_channel 0 2 ∷ [];
  conn_ready = 0;
  signalled = 0 ∷ [];
  closed = false;
}

client-eq : new_client settings good_dial ≡ ok client
unfolding new_client
client-eq = refl

-- A worker that is about to borrow, and one that has.
abbrev asking : System
asking = record (started client 3) { waiting = 0 ∷ [] }

abbrev borrowed : System
borrowed = record (started client 3) {
  client = record client { pool = open_channel 0 2 ∷ [] };
  held = open_channel 0 1 ∷ [];
}

reach_borrowed : (Keeps : Client → PooledChannel → Type 0) → Reachable settings Keeps borrowed
unfolding borrow_check
reach_borrowed Keeps =
    step asking borrowed
      (step (started client 3) asking (start good_dial client client-eq)
        (check (started client 3) 0 refl))
      (take_channel asking [] 0 [] (open_channel 0 1) (open_channel 0 2 ∷ []) refl refl refl)

-- The connection is lost.
abbrev lost : System
lost = record borrowed {
  client = record (borrowed.client) { conn = none; conn_ready = 3 };
  loop = draining 3;
  next = 4;
}

reach_lost : (Keeps : Client → PooledChannel → Type 0) → Reachable settings Keeps lost
unfolding disconnect
reach_lost Keeps = step borrowed lost (reach_borrowed Keeps) (lose borrowed refl)

first_connection_bounded_example : 1 + 1 + 0 + 0 ≤ 2
first_connection_bounded_example =
    first_connection_bounded settings ReturnsCurrent borrowed (reach_borrowed ReturnsCurrent) refl

owned_once_example : owners 1 borrowed ≤ 1
owned_once_example = owned_once settings ReturnsCurrent 1 borrowed (reach_borrowed ReturnsCurrent)

watching_wakes_example :
    (contains (0 ∷ []) 0 ≡ true) × Each (λ w. contains (0 ∷ []) w ≡ true) borrowed.waiting
watching_wakes_example =
    watching_wakes settings ReturnsCurrent borrowed (reach_borrowed ReturnsCurrent) refl

pool-IsCurrent_example : Each (IsCurrent (some 0)) (open_channel 0 2 ∷ [])
pool-IsCurrent_example = pool-IsCurrent settings borrowed (reach_borrowed ReturnsCurrent) refl refl

reconnects_example : (s' : System) × Steps settings ReturnsCurrent lost s' × IsRestored 4 s'
unfolding connect
reconnects_example =
    reconnects settings ReturnsCurrent lost good_dial (open_channel 4 5 ∷ open_channel 4 6 ∷ [])
      (reach_lost ReturnsCurrent) (inl (3, refl)) refl refl

-- The channel of the lost connection comes back before the reconnection.
abbrev emptied : Client
emptied = record (lost.client) { pool = [] }

lost_channel_first_example :
    (◌≡◌ {A = Option ℕ} (some 4) (some 4))
    × (rest : List PooledChannel) × ((open_channel 0 1 ∷ open_channel 4 5 ∷ [])
        ≡ open_channel 0 1 ∷ rest)
unfolding commit_reconnect release_start
lost_channel_first_example =
    lost_channel_first (open_channel 0 1) emptied
      (record emptied { conn = some 4; pool = open_channel 0 1 ∷ open_channel 4 5 ∷ [] }) 3 4
      (open_channel 4 5 ∷ open_channel 4 6 ∷ []) refl refl (omega arith) refl refl

abbrev Anyone : Client → PooledChannel → Type 0
Anyone c pc = Unit

-- Close, and a channel that is returned after it.
abbrev shut : System
shut = record borrowed { client = record (borrowed.client) { closed = true; conn = none } }

abbrev returned : System
returned = record shut { held = [] }

after_close_example : (borrow_check returned.client ≡ err (sentinel client_closed)) × (1 ≤ 1)
unfolding release_start
after_close_example =
    after_close settings Anyone shut returned
      (first shut returned returned (release shut [] (open_channel 0 1) [] refl (λ h. tt))
        (none_left returned))
      refl
