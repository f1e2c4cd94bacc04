-- ===== src/Rabbit/Pool/First.antt =====
-- How many channels there are on the first connection.
use case_execution.Rabbit.Pool.Bounds.{new_client-Fits}
use case_execution.Rabbit.Pool.Ready.{commit_reconnect-ok}
use case_execution.Rabbit.Pool.{
  Client, PooledChannel, RabbitConfig, release_start, backfill, disconnect, close_start, put,
  is_conn, opened,
}
use case_execution.Rabbit.Pool.System.{
  Reachable, start, step, Step, close_drain, close, stop, close_signal, refuse, commit, retry,
  drained, drain, lose, finish_replacing, open_fresh, fail_replacing, release, break_channel,
  take_channel, give_up, check, System, to_replace,
}
use case_execution.Prelude.{
  ℕ, ◌≡◌, ◌≤◌, ◌<◌, ◌+◌, ◌∷◌, ◌∙◌, ◌++◌, [], List, Bool, Option, none, some, true, false, length,
  length-append, ap, sym, arith, refl, if◌then◌else◌, ◌||◌, not,
}

-- The channels of the client: in the pool, with the workers, about to be replaced, and replaced.
abbrev pub channels : System → ℕ
channels s = length s.client.pool + length s.held + length s.replacing + length s.fresh

-- Connection 0 is the first one.
abbrev IsWithin : System → Type 0
IsWithin s = (0 < s.next) × (is_conn 0 s.client.conn ≡ true → channels s ≤ s.client.capacity)

put-length :
    (capacity : ℕ) (pool : List PooledChannel) (pc : PooledChannel)
    → length (put capacity pool pc) ≤ length pool + 1
put-length capacity pool pc = ground (arith, length-append pool (pc ∷ []))

-- The first hold of release keeps the connection, and takes the channel in, or has it replaced, at most.
release_start-length :
    (pc : PooledChannel) (c : Client) (replacing : List ℕ)
    → let (c', replaced) = release_start pc c in
      (c'.conn ≡ c.conn)
      × (c'.capacity ≡ c.capacity)
      × (length c'.pool + length (to_replace replaced replacing)
          ≤ length c.pool + length replacing + 1)
unfolding release_start
release_start-length pc c replacing = one_of c.closed pc.broken c.conn
  where
    one_of :
        (closed broken : Bool) (conn : Option ℕ)
        → let (c', replaced) =
            if◌then◌else◌ {A = Client × Option ℕ} closed
              (c, none)
              (if broken
                then (c, conn)
                else (record c { pool = put c.capacity c.pool pc }, none)) in
          (c'.conn ≡ c.conn)
          × (c'.capacity ≡ c.capacity)
          × (length c'.pool + length (to_replace replaced replacing)
              ≤ length c.pool + length replacing + 1)
    one_of true broken conn = (refl, refl, omega arith)
    one_of false true none = (refl, refl, omega arith)
    one_of false true (some k) = (refl, refl, omega arith)
    one_of false false conn = (refl, refl, omega (arith, put-length c.capacity c.pool pc))

backfill-length :
    (pc : PooledChannel) (c : Client)
    → ((backfill pc c).conn ≡ c.conn)
      × ((backfill pc c).capacity ≡ c.capacity)
      × (length (backfill pc c).pool ≤ length c.pool + 1)
unfolding backfill
backfill-length pc c = one_of (c.closed || not (is_conn pc.connection c.conn))
  where
    one_of :
        (b : Bool)
        → let c' = if b then c else record c { pool = put c.capacity c.pool pc } in
          (c'.conn ≡ c.conn) × (c'.capacity ≡ c.capacity) × (length c'.pool ≤ length c.pool + 1)
    one_of true = (refl, refl, omega arith)
    one_of false = (refl, refl, put-length c.capacity c.pool pc)

length-without :
    {A : Type 0} (before : List A) (x : A) (after all : List A)
    → all ≡ before ++ x ∷ after
    → length all ≡ length (before ++ after) + 1
length-without before x after all e =
    omega (arith, ap length e, length-append before (x ∷ after), length-append before after)

length-replaced :
    {A : Type 0} (before : List A) (x y : A) (after all : List A)
    → all ≡ before ++ x ∷ after
    → length (before ++ y ∷ after) ≡ length all
length-replaced before x y after all e =
    omega (arith, ap length e, length-append before (x ∷ after), length-append before (y ∷ after))

module _ (cfg : RabbitConfig) (Keeps : Client → PooledChannel → Type 0) where
  Step-IsWithin : (s s' : System) → Step cfg Keeps s s' → IsWithin s → IsWithin s'
  unfolding disconnect close_start
  Step-IsWithin _ _ (check s signal e) h = h
  Step-IsWithin _ _ (give_up s before signal after e) h = h
  Step-IsWithin _ _ (take_channel s before signal after pc rest e open_signal pooled) (next, h) =
      (next, λ first. omega (arith, h first, ap length pooled))
  Step-IsWithin _ _ (break_channel s before pc after e) (next, h) =
      (next, λ first. omega (arith, h first, length-replaced before pc _ after s.held e))
  Step-IsWithin _ _ (release s before pc after e keeps) (next, h) =
      let (conn, capacity, taken) = release_start-length pc s.client s.replacing in
      (
        next,
        λ first. omega (
          arith,
          h (ap (is_conn 0) (sym conn) ∙ first),
          capacity,
          taken,
          length-without before pc after s.held e,
        ),
      )
  Step-IsWithin _ _ (fail_replacing s before conn after e) (next, h) =
      (next, λ first. omega (arith, h first, length-without before conn after s.replacing e))
  Step-IsWithin _ _ (open_fresh s before conn after e) (next, h) = (
    omega (arith, next),
    λ first. omega (arith, h first, length-without before conn after s.replacing e),
  )
  Step-IsWithin _ _ (finish_replacing s before pc after e) (next, h) =
      let (conn, capacity, taken) = backfill-length pc s.client in
      (
        next,
        λ first. omega (
          arith,
          h (ap (is_conn 0) (sym conn) ∙ first),
          capacity,
          taken,
          length-without before pc after s.fresh e,
        ),
      )
  Step-IsWithin _ _ (lose s e) (next, h) = (omega (arith, next), λ first. absurd (cc first))
  Step-IsWithin _ _ (drain s signal pc rest e pooled) (next, h) =
      (next, λ first. omega (arith, h first, ap length pooled))
  Step-IsWithin _ _ (drained s signal e pooled) h = h
  Step-IsWithin _ _ (retry s signal backoff a x e failed) h = h
  Step-IsWithin _ _ (commit s signal backoff a opened c e connected done) (next, h) =
      let (_, _, made) = commit_reconnect-ok signal s.next opened s.client c done in
      (omega (arith, next), λ first. absurd (ground (arith, next, ap (λ x. is_conn 0 x.conn) made)))
  Step-IsWithin _ _ (refuse s signal backoff channels x e refused) h = h
  Step-IsWithin _ _ (close_signal s signal e) h = h
  Step-IsWithin _ _ (stop s e closed) h = h
  Step-IsWithin _ _ (close s) (next, h) = (next, λ first. ground (arith, h))
  Step-IsWithin _ _ (close_drain s pc rest closed pooled) (next, h) =
      (next, λ first. omega (arith, h first, ap length pooled))

  Reachable-IsWithin : (s : System) → Reachable cfg Keeps s → IsWithin s
  Reachable-IsWithin _ (start a c done) =
      (omega arith, λ first. omega (arith, new_client-Fits cfg a c done))
  Reachable-IsWithin _ (step s s' before last) =
      Step-IsWithin s s' last (Reachable-IsWithin s before)

  -- As long as the first connection lasts, the client has no more channels than its capacity: those in the
  -- pool, with the workers, about to be replaced and just replaced together. So there is a place in the
  -- pool for each channel that comes back.
  pub first_connection_bounded :
      (s : System)
      → Reachable cfg Keeps s
      → s.client.conn ≡ some 0
      → length s.client.pool + length s.held + length s.replacing + length s.fresh
        ≤ s.client.capacity
  first_connection_bounded s reached first = (Reachable-IsWithin s reached).1 (ap (is_conn 0) first)
