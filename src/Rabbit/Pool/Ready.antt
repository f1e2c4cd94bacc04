-- ===== src/Rabbit/Pool/Ready.antt =====
-- The signal on which borrow waits, and the reconnection loop that closes it.
use case_execution.Rabbit.Pool.Opening.{new_client-ok, if-eq-ok, if-eq-err}
use case_execution.Rabbit.Pool.{
  opened, new_client, is_conn, fill, put, PooledChannel, release_start, close_start, backfill,
  Client, DialAttempt, RabbitConfig, commit_reconnect, disconnect,
}
use case_execution.Prelude.{
  ap, ◌∙◌, sym, ◌==◌, subst, Option, ◌||◌, not, arith, ==_iff, refl, none, some, if◌then◌else◌,
  Bool, contains, ◌≡◌, List, ℕ, true, false,
}
use case_execution.Dispatch.Ports.{err, ok}
use case_execution.Rabbit.Pool.System.{
  Reachable, start, step, Step, close_drain, close, stop, close_signal, refuse, commit, retry,
  watching, stopped, draining, retrying, signalling, drained, drain, lose, finish_replacing,
  open_fresh, fail_replacing, release, break_channel, take_channel, give_up, check, System, Loop,
}
use case_execution.Domain.Errs.{client_closed, sentinel, GoError}

-- What the loop relies on where it stands: its own signal is the one that workers are given, and a
-- loop that watches has closed it.
abbrev pub IsReady : Loop → Client → Type 0
IsReady watching c = contains c.signalled c.conn_ready ≡ true
IsReady stopped c = c.closed ≡ true
IsReady (draining signal) c = c.conn_ready ≡ signal
IsReady (retrying signal backoff) c = c.conn_ready ≡ signal
IsReady (signalling signal) c = c.conn_ready ≡ signal

-- A change of the client that leaves its signals, and only ever closes it.
abbrev pub Quiet : Client → Client → Type 0
Quiet c c' =
    (c'.conn_ready ≡ c.conn_ready)
    × (c'.signalled ≡ c.signalled)
    × (c.closed ≡ true → c'.closed ≡ true)

Quiet-IsReady : (loop : Loop) (c c' : Client) → Quiet c c' → IsReady loop c → IsReady loop c'
Quiet-IsReady watching c c' (same, kept, shut) h = cc (same, kept, h)
Quiet-IsReady stopped c c' (same, kept, shut) h = shut h
Quiet-IsReady (draining signal) c c' (same, kept, shut) h = cc (same, h)
Quiet-IsReady (retrying signal backoff) c c' (same, kept, shut) h = cc (same, h)
Quiet-IsReady (signalling signal) c c' (same, kept, shut) h = cc (same, h)

pub release_start-Quiet : (pc : PooledChannel) (c : Client) → Quiet c (release_start pc c).0
unfolding release_start
release_start-Quiet pc c = one_of c.closed pc.broken
  where
    one_of :
        (closed broken : Bool)
        → Quiet c
            (if◌then◌else◌ {A = Client × Option ℕ} closed
              (c, none)
              (if broken
                then (c, c.conn)
                else (record c { pool = put c.capacity c.pool pc }, none))).0
    one_of true broken = (refl, refl, λ h. h)
    one_of false true = (refl, refl, λ h. h)
    one_of false false = (refl, refl, λ h. h)

pub backfill-Quiet : (pc : PooledChannel) (c : Client) → Quiet c (backfill pc c)
unfolding backfill
backfill-Quiet pc c = one_of (c.closed || not (is_conn pc.connection c.conn))
  where
    one_of : (b : Bool) → Quiet c (if b then c else record c { pool = put c.capacity c.pool pc })
    one_of true = (refl, refl, λ h. h)
    one_of false = (refl, refl, λ h. h)

pub close_start-Quiet : (c : Client) → Quiet c (close_start c)
unfolding close_start
close_start-Quiet c = one_of c.closed
  where
    one_of : (b : Bool) → Quiet c (if b then c else record c { closed = true; conn = none })
    one_of true = (refl, refl, λ h. h)
    one_of false = (refl, refl, λ h. refl)

-- A commit is made where the client is open and its signal is still the loop's.
pub commit_reconnect-ok :
    (signal conn : ℕ) (pcs : List PooledChannel) (c c' : Client)
    → commit_reconnect signal conn pcs c ≡ ok c'
    → (c.closed ≡ false)
      × (c.conn_ready ≡ signal)
      × (c' ≡ record c { conn = some conn; pool = fill c.capacity c.pool pcs })
unfolding commit_reconnect
commit_reconnect-ok signal conn pcs c c' done =
    let (open_now, same) =
      if-eq-ok (c.closed || not (c.conn_ready == signal)) (sentinel client_closed) _ c' done in
    (ground arith, ground (arith, ==_iff c.conn_ready signal), sym same)

commit_reconnect-err :
    (signal conn : ℕ) (pcs : List PooledChannel) (c : Client) (e : GoError)
    → c.conn_ready ≡ signal
    → commit_reconnect signal conn pcs c ≡ err e
    → c.closed ≡ true
unfolding commit_reconnect
commit_reconnect-err signal conn pcs c e same refused =
    let shut = if-eq-err (c.closed || not (c.conn_ready == signal)) _ e _ refused in
    ground (arith, ==_iff c.conn_ready signal)

new_client-IsReady :
    (cfg : RabbitConfig) (a : DialAttempt) (c : Client)
    → new_client cfg a ≡ ok c
    → IsReady watching c
unfolding opened
new_client-IsReady cfg a c done =
    let (channels, connected, made) = new_client-ok cfg a c done in
    subst (IsReady watching) (sym made) refl

module _ (cfg : RabbitConfig) (Keeps : Client → PooledChannel → Type 0) where
  Step-IsReady :
      (s s' : System) → Step cfg Keeps s s' → IsReady s.loop s.client → IsReady s'.loop s'.client
  unfolding disconnect
  Step-IsReady _ _ (check s signal e) h = h
  Step-IsReady _ _ (give_up s before signal after e) h = h
  Step-IsReady _ _ (take_channel s before signal after pc rest e open_signal pooled) h =
      Quiet-IsReady s.loop s.client _ (refl, refl, λ h. h) h
  Step-IsReady _ _ (break_channel s before pc after e) h = h
  Step-IsReady _ _ (release s before pc after e keeps) h =
      Quiet-IsReady s.loop s.client _ (release_start-Quiet pc s.client) h
  Step-IsReady _ _ (fail_replacing s before conn after e) h = h
  Step-IsReady _ _ (open_fresh s before conn after e) h = h
  Step-IsReady _ _ (finish_replacing s before pc after e) h =
      Quiet-IsReady s.loop s.client _ (backfill-Quiet pc s.client) h
  Step-IsReady _ _ (lose s e) h = refl
  Step-IsReady _ _ (drain s signal pc rest e pooled) h =
      Quiet-IsReady s.loop s.client _ (refl, refl, λ h. h) h
  Step-IsReady _ _ (drained s signal e pooled) h = subst (λ l. IsReady l s.client) e h
  Step-IsReady _ _ (retry s signal backoff a x e failed) h = subst (λ l. IsReady l s.client) e h
  Step-IsReady _ _ (commit s signal backoff a channels c e connected done) h =
      let (open_now, same, made) = commit_reconnect-ok signal s.next channels s.client c done in
      ap (λ x. x.conn_ready) made ∙ same
  Step-IsReady _ _ (refuse s signal backoff channels x e refused) h =
      commit_reconnect-err signal s.next channels s.client x (subst (λ l. IsReady l s.client) e h)
        refused
  Step-IsReady _ _ (close_signal s signal e) h =
      ground (arith, subst (λ l. IsReady l s.client) e h, ==_iff signal s.client.conn_ready)
  Step-IsReady _ _ (stop s e closed) h = closed
  Step-IsReady _ _ (close s) h = Quiet-IsReady s.loop s.client _ (close_start-Quiet s.client) h
  Step-IsReady _ _ (close_drain s pc rest closed pooled) h =
      Quiet-IsReady s.loop s.client _ (refl, refl, λ h. h) h

  pub Reachable-IsReady : (s : System) → Reachable cfg Keeps s → IsReady s.loop s.client
  Reachable-IsReady _ (start a c done) = new_client-IsReady cfg a c done
  Reachable-IsReady _ (step s s' before last) = Step-IsReady s s' last (Reachable-IsReady s before)

  -- The loop ends only after Close.
  pub stopped_closed :
      (s : System) → Reachable cfg Keeps s → s.loop ≡ stopped → s.client.closed ≡ true
  stopped_closed s reached e = subst (λ l. IsReady l s.client) e (Reachable-IsReady s reached)
