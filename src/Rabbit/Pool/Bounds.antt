-- ===== src/Rabbit/Pool/Bounds.antt =====
-- The pool stays within its capacity, and takes in nothing after Close.
use case_execution.Prelude.{
  sym, subst, pos_part, length-append, ap, ℕ, ◌∷◌, [], List, length, ◌≡◌, ◌≤◌, arith,
}
use case_execution.Rabbit.Pool.Opening.{new_client-ok}
use case_execution.Rabbit.Pool.{
  opened, apply_defaults, DialAttempt, RabbitConfig, PooledChannel, Client, put, fill,
  release_start, backfill, disconnect, commit_reconnect, close_start, new_client,
}
use case_execution.Dispatch.Ports.{ok}
use case_execution.Rabbit.Pool.System.{
  System, Step, Reachable, check, give_up, take_channel, break_channel, release, fail_replacing,
  open_fresh, finish_replacing, lose, drain, drained, retry, commit, refuse, close_signal, stop,
  close, close_drain, start, step,
}

-- The pool is within the capacity.
abbrev Fits : Client → Type 0
Fits c = length c.pool ≤ c.capacity

put-bounded :
    (capacity : ℕ) (pool : List PooledChannel) (pc : PooledChannel)
    → length pool ≤ capacity
    → length (put capacity pool pc) ≤ capacity
put-bounded capacity pool pc h = ground (arith, length-append pool (pc ∷ []))

fill-bounded :
    (capacity : ℕ) (pool pcs : List PooledChannel)
    → length pool ≤ capacity
    → length (fill capacity pool pcs) ≤ capacity
unfolding fill
fill-bounded capacity pool [] h = h
fill-bounded capacity pool (pc ∷ pcs) h =
    fill-bounded capacity (put capacity pool pc) pcs (put-bounded capacity pool pc h)

release_start-Fits : (pc : PooledChannel) (c : Client) → Fits c → Fits (release_start pc c).0
unfolding release_start
release_start-Fits pc c h = ground (arith, put-bounded c.capacity c.pool pc h)

backfill-Fits : (pc : PooledChannel) (c : Client) → Fits c → Fits (backfill pc c)
unfolding backfill
backfill-Fits pc c h = ground (arith, put-bounded c.capacity c.pool pc h)

commit_reconnect-Fits :
    (signal conn : ℕ) (pcs : List PooledChannel) (c c' : Client)
    → Fits c
    → commit_reconnect signal conn pcs c ≡ ok c'
    → Fits c'
unfolding commit_reconnect
commit_reconnect-Fits signal conn pcs c c' h done =
    ground (arith, fill-bounded c.capacity c.pool pcs h)

close_start-Fits : (c : Client) → Fits c → Fits (close_start c)
unfolding close_start
close_start-Fits c h = ground arith

pub new_client-Fits :
    (cfg : RabbitConfig) (a : DialAttempt) (c : Client) → new_client cfg a ≡ ok c → Fits c
unfolding opened
new_client-Fits cfg a c done =
    let (channels, connected, made) = new_client-ok cfg a c done in
    subst Fits (sym made)
      (fill-bounded (pos_part (apply_defaults cfg).channel_pool) [] channels (omega arith))

module _ (cfg : RabbitConfig) (Keeps : Client → PooledChannel → Type 0) where
  Step-Fits : (s s' : System) → Step cfg Keeps s s' → Fits s.client → Fits s'.client
  unfolding disconnect
  Step-Fits _ _ (check s signal e) h = h
  Step-Fits _ _ (give_up s before signal after e) h = h
  Step-Fits _ _ (take_channel s before signal after pc rest e open_signal pooled) h =
      omega (arith, ap length pooled)
  Step-Fits _ _ (break_channel s before pc after e) h = h
  Step-Fits _ _ (release s before pc after e keeps) h = release_start-Fits pc s.client h
  Step-Fits _ _ (fail_replacing s before conn after e) h = h
  Step-Fits _ _ (open_fresh s before conn after e) h = h
  Step-Fits _ _ (finish_replacing s before pc after e) h = backfill-Fits pc s.client h
  Step-Fits _ _ (lose s e) h = h
  Step-Fits _ _ (drain s signal pc rest e pooled) h = omega (arith, ap length pooled)
  Step-Fits _ _ (drained s signal e pooled) h = h
  Step-Fits _ _ (retry s signal backoff a x e failed) h = h
  Step-Fits _ _ (commit s signal backoff a channels c e connected done) h =
      commit_reconnect-Fits signal s.next channels s.client c h done
  Step-Fits _ _ (refuse s signal backoff channels x e refused) h = h
  Step-Fits _ _ (close_signal s signal e) h = h
  Step-Fits _ _ (stop s e closed) h = h
  Step-Fits _ _ (close s) h = close_start-Fits s.client h
  Step-Fits _ _ (close_drain s pc rest closed pooled) h = omega (arith, ap length pooled)

  -- However workers, the reconnection loop and Close take turns, the pool never holds more channels
  -- than its capacity.
  pub pool_bounded : (s : System) → Reachable cfg Keeps s → length s.client.pool ≤ s.client.capacity
  pool_bounded _ (start a c done) = new_client-Fits cfg a c done
  pool_bounded _ (step s s' before last) = Step-Fits s s' last (pool_bounded s before)
