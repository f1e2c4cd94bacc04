-- ===== src/Rabbit/Pool/Closed.antt =====
-- The client after Close.
use case_execution.Prelude.{
  refl, none, List, ℕ, zero, suc, ◌<◌, [], ◌∷◌, length, ◌≤◌, ◌≡◌, arith, true, ap,
}
use case_execution.Rabbit.Pool.{
  drain_close, Client, PooledChannel, RabbitConfig, disconnect, release_start, backfill,
  close_start, borrow_check,
}
use case_execution.Domain.Errs.{sentinel, client_closed}
use case_execution.Dispatch.Ports.{err}
use case_execution.Rabbit.Pool.System.{
  Step, Steps, none_left, first, System, check, give_up, take_channel, break_channel, release,
  fail_replacing, open_fresh, finish_replacing, lose, drain, drained, retry, commit, refuse,
  close_signal, stop, close, close_drain,
}
use case_execution.Rabbit.Pool.Ready.{commit_reconnect-ok}

-- A closed client stays closed and takes no channel in.
abbrev Shuts : Client → Client → Type 0
Shuts c c' = (c'.closed ≡ true) × (length c'.pool ≤ length c.pool)

release_start-Shuts :
    (pc : PooledChannel) (c : Client) → c.closed ≡ true → Shuts c (release_start pc c).0
unfolding release_start
release_start-Shuts pc c shut = ground arith

backfill-Shuts : (pc : PooledChannel) (c : Client) → c.closed ≡ true → Shuts c (backfill pc c)
unfolding backfill
backfill-Shuts pc c shut = ground arith

close_start-Shuts : (c : Client) → c.closed ≡ true → Shuts c (close_start c)
unfolding close_start
close_start-Shuts c shut = ground arith

-- Close waits for its context where a channel is missing from the pool.
pub drain_close_waits :
    (left : ℕ) (pool : List PooledChannel) → length pool < left → drain_close left pool ≡ none
unfolding drain_close
drain_close_waits zero pool short = absurd (omega (arith, short))
drain_close_waits (suc left) [] short = refl
drain_close_waits (suc left) (pc ∷ pool) short = drain_close_waits left pool (omega (arith, short))

module _ (cfg : RabbitConfig) (Keeps : Client → PooledChannel → Type 0) where
  Step-Shuts :
      (s s' : System) → Step cfg Keeps s s' → s.client.closed ≡ true → Shuts s.client s'.client
  unfolding disconnect
  Step-Shuts _ _ (check s signal e) shut = (shut, omega arith)
  Step-Shuts _ _ (give_up s before signal after e) shut = (shut, omega arith)
  Step-Shuts _ _ (take_channel s before signal after pc rest e open_signal pooled) shut =
      (shut, omega (arith, ap length pooled))
  Step-Shuts _ _ (break_channel s before pc after e) shut = (shut, omega arith)
  Step-Shuts _ _ (release s before pc after e keeps) shut = release_start-Shuts pc s.client shut
  Step-Shuts _ _ (fail_replacing s before conn after e) shut = (shut, omega arith)
  Step-Shuts _ _ (open_fresh s before conn after e) shut = (shut, omega arith)
  Step-Shuts _ _ (finish_replacing s before pc after e) shut = backfill-Shuts pc s.client shut
  Step-Shuts _ _ (lose s e) shut = (shut, omega arith)
  Step-Shuts _ _ (drain s signal pc rest e pooled) shut = (shut, omega (arith, ap length pooled))
  Step-Shuts _ _ (drained s signal e pooled) shut = (shut, omega arith)
  Step-Shuts _ _ (retry s signal backoff a x e failed) shut = (shut, omega arith)
  Step-Shuts _ _ (commit s signal backoff a channels c e connected done) shut =
      absurd (cc ((commit_reconnect-ok signal s.next channels s.client c done).0, shut))
  Step-Shuts _ _ (refuse s signal backoff channels x e refused) shut = (shut, omega arith)
  Step-Shuts _ _ (close_signal s signal e) shut = (shut, omega arith)
  Step-Shuts _ _ (stop s e closed) shut = (shut, omega arith)
  Step-Shuts _ _ (close s) shut = close_start-Shuts s.client shut
  Step-Shuts _ _ (close_drain s pc rest closed pooled) shut =
      (shut, omega (arith, ap length pooled))

  Steps-Shuts :
      (s s' : System) → Steps cfg Keeps s s' → s.client.closed ≡ true → Shuts s.client s'.client
  Steps-Shuts _ _ (none_left s) shut = (shut, omega arith)
  Steps-Shuts _ _ (first s s1 s2 one more) shut =
      let (still, fewer) = Step-Shuts s s1 one shut in
      let (last, fewest) = Steps-Shuts s1 s2 more still in (last, omega arith)

  -- Once the client is closed, whatever workers and the loop go on to do, it stays closed, every borrow
  -- is refused with ErrClientClosed, and the pool takes no channel in.
  pub after_close :
      (s s' : System)
      → Steps cfg Keeps s s'
      → s.client.closed ≡ true
      → (borrow_check s'.client ≡ err (sentinel client_closed))
        × (length s'.client.pool ≤ length s.client.pool)
  unfolding borrow_check
  after_close s s' run shut =
      let (still, fewer) = Steps-Shuts s s' run shut in (ground arith, fewer)
