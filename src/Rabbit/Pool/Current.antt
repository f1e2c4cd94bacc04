-- ===== src/Rabbit/Pool/Current.antt =====
-- Which connection the channels of the pool belong to.
use case_execution.Dispatch.Ports.{ok_inj, ok}
use case_execution.Rabbit.Pool.{
  apply_defaults, new_client, RabbitConfig, PooledChannel, Client, DialAttempt, build_loop,
  build_channels, connect, fill, put, commit_reconnect, open_channel, is_conn, opened, disconnect,
  release_start, backfill, close_start,
}
use case_execution.Prelude.{
  pos_part, length, Bool, List, refl, ℕ, Option, ◌∙◌, ◌||◌, ◌<◌, ◌≡◌, ==_iff, zero, suc, arith, ltb,
  none, some, if◌then◌else◌, ◌++◌, [], ◌∷◌, not, Each, Each-snoc, true, false, ap, sym, subst,
}
use case_execution.Rabbit.Pool.Opening.{build_loop-suc, connect-ok, new_client-ok}
use case_execution.Rabbit.Pool.System.{
  Step, Reachable, System, Loop, start, step, check, give_up, take_channel, break_channel, release,
  fail_replacing, open_fresh, finish_replacing, lose, drain, drained, retry, commit, refuse,
  close_signal, stop, close, close_drain, watching, draining, retrying, signalling, stopped,
}
use case_execution.Rabbit.Pool.Ready.{commit_reconnect-ok}

-- The channel belongs to the client's connection.
abbrev pub IsCurrent : Option ℕ → PooledChannel → Type 0
IsCurrent conn pc = is_conn pc.connection conn ≡ true

put-Each :
    (Q : PooledChannel → Type 0) (capacity : ℕ) (pool : List PooledChannel) (pc : PooledChannel)
    → Q pc
    → Each Q pool
    → Each Q (put capacity pool pc)
put-Each Q capacity pool pc q each = one_of (ltb (length pool) capacity)
  where
    one_of : (b : Bool) → Each Q (if b then pool ++ pc ∷ [] else pool)
    one_of true = Each-snoc Q pc pool q each
    one_of false = each

fill-Each :
    (Q : PooledChannel → Type 0) (capacity : ℕ) (pool pcs : List PooledChannel)
    → Each Q pcs
    → Each Q pool
    → Each Q (fill capacity pool pcs)
unfolding fill
fill-Each Q capacity pool [] more each = each
fill-Each Q capacity pool (pc ∷ pcs) more each =
    fill-Each Q capacity (put capacity pool pc) pcs more.1 (put-Each Q capacity pool pc more.0 each)

build_loop-IsCurrent :
    (a : DialAttempt) (conn id total i left : ℕ) (kept channels : List PooledChannel)
    → Each (IsCurrent (some conn)) kept
    → build_loop a conn id total i left kept ≡ ok channels
    → Each (IsCurrent (some conn)) channels
unfolding build_loop
build_loop-IsCurrent a conn id total i zero kept channels each done =
    subst (Each (IsCurrent (some conn))) (ok_inj done) each
build_loop-IsCurrent a conn id total i (suc left) kept channels each done =
    build_loop-IsCurrent a conn (suc id) total (suc i) left (kept ++ open_channel conn id ∷ [])
      channels
      (Each-snoc (IsCurrent (some conn)) (open_channel conn id) kept ((==_iff conn conn).1 refl)
        each)
      (build_loop-suc a conn id total i left kept channels done)

connect-IsCurrent :
    (a : DialAttempt) (conn id total : ℕ) (channels : List PooledChannel)
    → connect a conn id total ≡ ok channels
    → Each (IsCurrent (some conn)) channels
unfolding build_channels
connect-IsCurrent a conn id total channels done =
    build_loop-IsCurrent a conn id total 0 total [] channels tt
      (connect-ok a conn id total channels done)

-- What holds of the pool where the loop stands, while the client is open.
abbrev Sound : Loop → Client → Type 0
Sound watching c = Each (IsCurrent c.conn) c.pool
Sound stopped c = Unit
Sound (draining signal) c = c.conn ≡ none
Sound (retrying signal backoff) c = (c.conn ≡ none) × (c.pool ≡ [])
Sound (signalling signal) c = Each (IsCurrent c.conn) c.pool

-- A change of the pool alone, which keeps it empty where there is no connection, and current.
abbrev Refills : Client → Client → Type 0
Refills c c' =
    (c'.closed ≡ c.closed)
    × (c'.conn ≡ c.conn)
    × (Each (IsCurrent c.conn) c.pool → Each (IsCurrent c.conn) c'.pool)
    × (c.conn ≡ none → c.pool ≡ [] → c'.pool ≡ [])

Refills-Sound : (loop : Loop) (c c' : Client) → Refills c c' → Sound loop c → Sound loop c'
Refills-Sound watching c c' (still, same, each, empty) h =
    subst (λ k. Each (IsCurrent k) c'.pool) (sym same) (each h)
Refills-Sound stopped c c' (still, same, each, empty) h = tt
Refills-Sound (draining signal) c c' (still, same, each, empty) h = same ∙ h
Refills-Sound (retrying signal backoff) c c' (still, same, each, empty) h =
    (same ∙ h.0, empty h.0 h.1)
Refills-Sound (signalling signal) c c' (still, same, each, empty) h =
    subst (λ k. Each (IsCurrent k) c'.pool) (sym same) (each h)

put-Refills :
    (pc : PooledChannel) (c : Client)
    → IsCurrent c.conn pc
    → Refills c (record c { pool = put c.capacity c.pool pc })
put-Refills pc c current = (
  refl,
  refl,
  put-Each (IsCurrent c.conn) c.capacity c.pool pc current,
  λ lost. absurd (cc (ap (is_conn pc.connection) lost, current)),
)

release_start-Refills :
    (pc : PooledChannel) (c : Client)
    → (pc.broken ≡ false → IsCurrent c.conn pc)
    → Refills c (release_start pc c).0
unfolding release_start
release_start-Refills pc c keeps = one_of c.closed pc.broken keeps
  where
    one_of :
        (closed broken : Bool)
        → (broken ≡ false → IsCurrent c.conn pc)
        → Refills c
            (if◌then◌else◌ {A = Client × Option ℕ} closed
              (c, none)
              (if broken
                then (c, c.conn)
                else (record c { pool = put c.capacity c.pool pc }, none))).0
    one_of true broken keeps = (refl, refl, λ h. h, λ lost h. h)
    one_of false true keeps = (refl, refl, λ h. h, λ lost h. h)
    one_of false false keeps = put-Refills pc c (keeps refl)

backfill-Refills : (pc : PooledChannel) (c : Client) → Refills c (backfill pc c)
unfolding backfill
backfill-Refills pc c = one_of (c.closed || not (is_conn pc.connection c.conn)) (λ h. ground arith)
  where
    one_of :
        (b : Bool)
        → (b ≡ false → IsCurrent c.conn pc)
        → Refills c (if b then c else record c { pool = put c.capacity c.pool pc })
    one_of true current = (refl, refl, λ h. h, λ lost h. h)
    one_of false current = put-Refills pc c (current refl)

close_start-closed : (c : Client) → (close_start c).closed ≡ true
unfolding close_start
close_start-closed c = ground arith

-- What a worker has to see to: it returns a channel as whole only while the connection that the
-- channel belongs to is the client's.
abbrev pub ReturnsCurrent : Client → PooledChannel → Type 0
ReturnsCurrent c pc = IsCurrent c.conn pc

refilled :
    (loop : Loop) (c c' : Client)
    → Refills c c'
    → (c.closed ≡ false → Sound loop c)
    → c'.closed ≡ false
    → Sound loop c'
refilled loop c c' changed h still_open =
    Refills-Sound loop c c' changed (h (sym changed.0 ∙ still_open))

taken-Refills :
    (pc : PooledChannel) (rest : List PooledChannel) (c : Client)
    → c.pool ≡ pc ∷ rest
    → Refills c (record c { pool = rest })
taken-Refills pc rest c pooled = (
  refl,
  refl,
  λ each. (subst (Each (IsCurrent c.conn)) pooled each).1,
  λ lost empty. absurd (cc (pooled, empty)),
)

new_client-Sound :
    (cfg : RabbitConfig) (a : DialAttempt) (c : Client) → new_client cfg a ≡ ok c → Sound watching c
unfolding opened
new_client-Sound cfg a c done =
    let (channels, connected, made) = new_client-ok cfg a c done in
    let capacity = pos_part (apply_defaults cfg).channel_pool in
    subst (λ x. Each (IsCurrent x.conn) x.pool) (sym made)
      (fill-Each (IsCurrent (some 0)) capacity [] channels
        (connect-IsCurrent a 0 1 capacity channels connected) tt)

module _ (cfg : RabbitConfig) where
  Step-Sound :
      (s s' : System)
      → Step cfg ReturnsCurrent s s'
      → (s.client.closed ≡ false → Sound s.loop s.client)
      → s'.client.closed ≡ false
      → Sound s'.loop s'.client
  unfolding disconnect
  Step-Sound _ _ (check s signal e) h = h
  Step-Sound _ _ (give_up s before signal after e) h = h
  Step-Sound _ _ (take_channel s before signal after pc rest e open_signal pooled) h =
      refilled s.loop s.client _ (taken-Refills pc rest s.client pooled) h
  Step-Sound _ _ (break_channel s before pc after e) h = h
  Step-Sound _ _ (release s before pc after e keeps) h =
      refilled s.loop s.client _ (release_start-Refills pc s.client keeps) h
  Step-Sound _ _ (fail_replacing s before conn after e) h = h
  Step-Sound _ _ (open_fresh s before conn after e) h = h
  Step-Sound _ _ (finish_replacing s before pc after e) h =
      refilled s.loop s.client _ (backfill-Refills pc s.client) h
  Step-Sound _ _ (lose s e) h = λ still_open. refl
  Step-Sound _ _ (drain s signal pc rest e pooled) h =
      refilled s.loop s.client _ (taken-Refills pc rest s.client pooled) h
  Step-Sound _ _ (drained s signal e pooled) h =
      λ still_open. (subst (λ l. Sound l s.client) e (h still_open), pooled)
  Step-Sound _ _ (retry s signal backoff a x e failed) h =
      λ still_open. subst (λ l. Sound l s.client) e (h still_open)
  Step-Sound _ _ (commit s signal backoff a channels c e connected done) h =
      let (open_now, same, made) = commit_reconnect-ok signal s.next channels s.client c done in
      let (lost, empty) = subst (λ l. Sound l s.client) e (h open_now) in
      λ still_open.
        subst (λ x. Each (IsCurrent x.conn) x.pool) (sym made)
          (fill-Each (IsCurrent (some s.next)) s.client.capacity s.client.pool channels
            (connect-IsCurrent a s.next (suc s.next) s.client.capacity channels connected)
            (subst (Each (IsCurrent (some s.next))) (sym empty) tt))
  Step-Sound _ _ (refuse s signal backoff channels x e refused) h = λ still_open. tt
  Step-Sound _ _ (close_signal s signal e) h =
      λ still_open. subst (λ l. Sound l s.client) e (h still_open)
  Step-Sound _ _ (stop s e closed) h = λ still_open. tt
  Step-Sound _ _ (close s) h = λ still_open. absurd (cc (still_open, close_start-closed s.client))
  Step-Sound _ _ (close_drain s pc rest closed pooled) h =
      refilled s.loop s.client _ (taken-Refills pc rest s.client pooled) h

  Reachable-Sound :
      (s : System)
      → Reachable cfg ReturnsCurrent s
      → s.client.closed ≡ false
      → Sound s.loop s.client
  Reachable-Sound _ (start a c done) still_open = new_client-Sound cfg a c done
  Reachable-Sound _ (step s s' before last) still_open =
      Step-Sound s s' last (Reachable-Sound s before) still_open

  -- Where each worker returns as whole only channels of the client's connection, every channel that
  -- waits in the pool of an open client belongs to that connection while the loop watches it.
  pub pool-IsCurrent :
      (s : System)
      → Reachable cfg ReturnsCurrent s
      → s.loop ≡ watching
      → s.client.closed ≡ false
      → Each (IsCurrent s.client.conn) s.client.pool
  pool-IsCurrent s reached e still_open =
      subst (λ l. Sound l s.client) e (Reachable-Sound s reached still_open)

fill-keeps :
    (capacity : ℕ) (pc : PooledChannel) (pool pcs : List PooledChannel)
    → (rest : List PooledChannel) × (fill capacity (pc ∷ pool) pcs ≡ pc ∷ rest)
unfolding fill
fill-keeps capacity pc pool [] = (pool, refl)
fill-keeps capacity pc pool (next ∷ pcs) =
    one_of (ltb (suc (length pool)) capacity) (fill-keeps capacity pc (pool ++ next ∷ []) pcs)
      (fill-keeps capacity pc pool pcs)
  where
    one_of :
        (b : Bool)
        → ((rest : List PooledChannel) × (fill capacity (pc ∷ pool ++ next ∷ []) pcs ≡ pc ∷ rest))
        → ((rest : List PooledChannel) × (fill capacity (pc ∷ pool) pcs ≡ pc ∷ rest))
        → (rest : List PooledChannel) × (fill capacity
              (if b then pc ∷ pool ++ next ∷ [] else pc ∷ pool)
              pcs
            ≡ pc ∷ rest)
    one_of true put_in dropped = put_in
    one_of false put_in dropped = dropped

put-first :
    (capacity : ℕ) (pc : PooledChannel) (pool : List PooledChannel)
    → pool ≡ []
    → 0 < capacity
    → put capacity pool pc ≡ pc ∷ []
put-first capacity pc pool empty room = rw empty (one_of (ltb 0 capacity) (ground arith))
  where
    one_of : (b : Bool) → b ≡ true → (if b then pc ∷ [] else []) ≡ pc ∷ []
    one_of true h = refl
    one_of false h = absurd (cc h)

release_start-whole :
    (pc : PooledChannel) (c : Client)
    → c.closed ≡ false
    → pc.broken ≡ false
    → (release_start pc c).0 ≡ record c { pool = put c.capacity c.pool pc }
unfolding release_start
release_start-whole pc c still_open whole = one_of c.closed pc.broken still_open whole
  where
    one_of :
        (closed broken : Bool)
        → closed ≡ false
        → broken ≡ false
        → (if◌then◌else◌ {A = Client × Option ℕ} closed
            (c, none)
            (if broken
              then (c, c.conn)
              else (record c { pool = put c.capacity c.pool pc }, none))).0
          ≡ record c { pool = put c.capacity c.pool pc }
    one_of true broken shut whole = absurd (cc shut)
    one_of false true shut whole = absurd (cc whole)
    one_of false false shut whole = refl

-- Without that care a channel of a lost connection comes back: where a worker returns it as whole after
-- the pool has been emptied and before the reconnection is committed, the channel stands first in the
-- pool of the new connection, whatever connection it belongs to.
pub lost_channel_first :
    (pc : PooledChannel) (c c' : Client) (signal conn : ℕ) (channels : List PooledChannel)
    → c.closed ≡ false
    → c.pool ≡ []
    → 0 < c.capacity
    → pc.broken ≡ false
    → commit_reconnect signal conn channels (release_start pc c).0 ≡ ok c'
    → (c'.conn ≡ some conn) × (rest : List PooledChannel) × (c'.pool ≡ pc ∷ rest)
lost_channel_first pc c c' signal conn channels still_open empty room whole done =
    let (open_now, same, made) = commit_reconnect-ok signal conn channels _ c' done in
    let kept = release_start-whole pc c still_open whole in
    let one : (release_start pc c).0.pool ≡ pc ∷ [] =
      ap (λ x. x.pool) kept ∙ put-first c.capacity pc c.pool empty room in
    let (rest, first_one) = fill-keeps (release_start pc c).0.capacity pc [] channels in
    (
      ap (λ x. x.conn) made,
      rest,
      ap (λ x. x.pool) made
          ∙ (ap (λ p. fill (release_start pc c).0.capacity p channels) one ∙ first_one),
    )
