-- ===== src/Rabbit/Pool/Exclusive.antt =====
-- Who owns a channel: the pool, a worker, or the replacement that is about to join the pool.
use case_execution.Rabbit.Pool.Opening.{build_loop-suc, new_client-ok, length-connect, connect-ok}
use case_execution.Dispatch.Ports.{ok_inj, ok}
use case_execution.Rabbit.Pool.System.{
  started, Step, Reachable, System, start, step, check, give_up, take_channel, break_channel,
  release, fail_replacing, open_fresh, finish_replacing, lose, drain, drained, retry, commit,
  refuse, close_signal, stop, close, close_drain,
}
use case_execution.Rabbit.Pool.{
  apply_defaults, new_client, opened, disconnect, Client, close_start, RabbitConfig, backfill,
  release_start, PooledChannel, DialAttempt, build_loop, build_channels, connect, fill, put,
  open_channel,
}
use case_execution.Prelude.{
  pos_part, refl, true, ap, List, ℕ, ◌+◌, ◌&&◌, ◌≤◌, ◌≡◌, ==_iff, zero, suc, arith, ltb, leb,
  occurs, if◌then◌else◌, ◌++◌, [], ◌∷◌,
}
use case_execution.Rabbit.Pool.Ready.{commit_reconnect-ok}

-- How often a channel stands in a list.
abbrev pub copies : ℕ → List PooledChannel → ℕ
copies id [] = 0
copies id (pc ∷ pcs) = occurs id pc.id + copies id pcs

-- How many hold the channel.
abbrev pub owners : ℕ → System → ℕ
owners id s = copies id s.client.pool + (copies id s.held + copies id s.fresh)

abbrev inside : ℕ → ℕ → ℕ → ℕ
inside id first_id end = if leb first_id id && ltb id end then 1 else 0

copies-append :
    (id : ℕ) (front back : List PooledChannel)
    → copies id (front ++ back) ≡ copies id front + copies id back
copies-append id [] back = omega arith
copies-append id (pc ∷ front) back = omega (arith, copies-append id front back)

copies-put :
    (id capacity : ℕ) (pool : List PooledChannel) (pc : PooledChannel)
    → copies id (put capacity pool pc) ≤ copies id pool + occurs id pc.id
copies-put id capacity pool pc = ground (arith, copies-append id pool (pc ∷ []))

copies-fill :
    (id capacity : ℕ) (pool pcs : List PooledChannel)
    → copies id (fill capacity pool pcs) ≤ copies id pool + copies id pcs
unfolding fill
copies-fill id capacity pool [] = omega arith
copies-fill id capacity pool (pc ∷ pcs) =
    omega
      (arith, copies-fill id capacity (put capacity pool pc) pcs, copies-put id capacity pool pc)

copies-build_loop :
    (id : ℕ) (a : DialAttempt) (conn first_id total i left : ℕ) (kept channels : List PooledChannel)
    → build_loop a conn first_id total i left kept ≡ ok channels
    → copies id channels ≤ copies id kept + inside id first_id (first_id + left)
unfolding build_loop
copies-build_loop id a conn first_id total i zero kept channels done =
    omega (arith, ap (copies id) (ok_inj done))
copies-build_loop id a conn first_id total i (suc left) kept channels done = ground (
  arith,
  copies-build_loop id a conn (suc first_id) total (suc i) left
      (kept ++ open_channel conn first_id ∷ []) channels
      (build_loop-suc a conn first_id total i left kept channels done),
  copies-append id kept (open_channel conn first_id ∷ []),
  ==_iff first_id id,
)

copies-connect :
    (id : ℕ) (a : DialAttempt) (conn first_id total : ℕ) (channels : List PooledChannel)
    → connect a conn first_id total ≡ ok channels
    → copies id channels ≤ inside id first_id (first_id + total)
unfolding build_channels
copies-connect id a conn first_id total channels done = omega (
  arith,
  copies-build_loop id a conn first_id total 0 total [] channels
      (connect-ok a conn first_id total channels done),
)

copies-release_start :
    (id : ℕ) (pc : PooledChannel) (c : Client)
    → copies id (release_start pc c).0.pool ≤ copies id c.pool + occurs id pc.id
unfolding release_start
copies-release_start id pc c = ground (arith, copies-put id c.capacity c.pool pc)

copies-backfill :
    (id : ℕ) (pc : PooledChannel) (c : Client)
    → copies id (backfill pc c).pool ≤ copies id c.pool + occurs id pc.id
unfolding backfill
copies-backfill id pc c = ground (arith, copies-put id c.capacity c.pool pc)

pool-close_start : (c : Client) → (close_start c).pool ≡ c.pool
unfolding close_start
pool-close_start c = ground arith

copies-from :
    (id : ℕ) (before : List PooledChannel) (pc : PooledChannel) (after pcs : List PooledChannel)
    → pcs ≡ before ++ pc ∷ after
    → copies id pcs ≡ copies id (before ++ after) + occurs id pc.id
copies-from id before pc after pcs e =
    omega
      (arith, ap (copies id) e, copies-append id before (pc ∷ after), copies-append id before after)

-- What a step does to the owners of a channel: it may open the channel, under a new number.
abbrev Moves : ℕ → System → System → Type 0
Moves id s s' = (owners id s' ≤ owners id s + inside id s.next s'.next) × (s.next ≤ s'.next)

new_client-owners :
    (id : ℕ) (cfg : RabbitConfig) (a : DialAttempt) (c : Client)
    → new_client cfg a ≡ ok c
    → (owners id (started c (suc c.capacity)) ≤ 1)
      × (suc c.capacity ≤ id → owners id (started c (suc c.capacity)) ≡ 0)
unfolding opened
new_client-owners id cfg a c done =
    let (channels, connected, made) = new_client-ok cfg a c done in
    let capacity = pos_part (apply_defaults cfg).channel_pool in
    let filled : copies id c.pool ≡ copies id (fill capacity [] channels) =
      ap (λ x. copies id x.pool) made in
    let opening = copies-connect id a 0 1 capacity channels connected in
    let few : copies id c.pool ≤ inside id 1 (1 + capacity) =
      omega (arith, filled, opening, copies-fill id capacity [] channels) in
    let size : c.capacity ≡ capacity = ap (λ x. x.capacity) made in
    (ground (arith, few, size), λ h. ground (arith, few, size))

module _ (cfg : RabbitConfig) (Keeps : Client → PooledChannel → Type 0) where
  Step-Moves : (id : ℕ) (s s' : System) → Step cfg Keeps s s' → Moves id s s'
  unfolding disconnect
  Step-Moves id _ _ (check s signal e) = (omega arith, omega arith)
  Step-Moves id _ _ (give_up s before signal after e) = (omega arith, omega arith)
  Step-Moves id _ _ (take_channel s before signal after pc rest e open_signal pooled) =
      (omega (arith, ap (copies id) pooled), omega arith)
  Step-Moves id _ _ (break_channel s before pc after e) = (
    omega (
      arith,
      copies-from id before pc after s.held e,
      copies-from id before (record pc { broken = true }) after _ refl,
    ),
    omega arith,
  )
  Step-Moves id _ _ (release s before pc after e keeps) = (
    omega (arith, copies-from id before pc after s.held e, copies-release_start id pc s.client),
    omega arith,
  )
  Step-Moves id _ _ (fail_replacing s before conn after e) = (omega arith, omega arith)
  Step-Moves id _ _ (open_fresh s before conn after e) =
      (ground (arith, ==_iff s.next id), omega arith)
  Step-Moves id _ _ (finish_replacing s before pc after e) = (
    omega (arith, copies-from id before pc after s.fresh e, copies-backfill id pc s.client),
    omega arith,
  )
  Step-Moves id _ _ (lose s e) = (omega arith, omega arith)
  Step-Moves id _ _ (drain s signal pc rest e pooled) =
      (omega (arith, ap (copies id) pooled), omega arith)
  Step-Moves id _ _ (drained s signal e pooled) = (omega arith, omega arith)
  Step-Moves id _ _ (retry s signal backoff a x e failed) = (omega arith, omega arith)
  Step-Moves id _ _ (commit s signal backoff a channels c e connected done) =
      let (open_now, same, made) = commit_reconnect-ok signal s.next channels s.client c done in
      (
        ground (
          arith,
          ap (λ x. copies id x.pool) made,
          copies-fill id s.client.capacity s.client.pool channels,
          copies-connect id a s.next (suc s.next) s.client.capacity channels connected,
          length-connect a s.next (suc s.next) s.client.capacity channels connected,
        ),
        omega arith,
      )
  Step-Moves id _ _ (refuse s signal backoff channels x e refused) = (omega arith, omega arith)
  Step-Moves id _ _ (close_signal s signal e) = (omega arith, omega arith)
  Step-Moves id _ _ (stop s e closed) = (omega arith, omega arith)
  Step-Moves id _ _ (close s) =
      (omega (arith, ap (copies id) (pool-close_start s.client)), omega arith)
  Step-Moves id _ _ (close_drain s pc rest closed pooled) =
      (omega (arith, ap (copies id) pooled), omega arith)

  -- A channel has at most one owner, and a number that is still to come has none.
  Reachable-owners :
      (id : ℕ) (s : System)
      → Reachable cfg Keeps s
      → (owners id s ≤ 1) × (s.next ≤ id → owners id s ≡ 0)
  Reachable-owners id _ (start a c done) = new_client-owners id cfg a c done
  Reachable-owners id _ (step s s' before last) =
      let (once, none_yet) = Reachable-owners id s before in
      let (moved, later) = Step-Moves id s s' last in (ground arith, λ h. ground arith)

  -- At every time a channel is in one place at most: in the pool, with one worker, or on its way into
  -- the pool as a replacement. So the confirms of a channel belong to one batch.
  pub owned_once : (id : ℕ) (s : System) → Reachable cfg Keeps s → owners id s ≤ 1
  owned_once id s reached = (Reachable-owners id s reached).0
