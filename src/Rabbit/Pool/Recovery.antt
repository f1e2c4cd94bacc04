-- ===== src/Rabbit/Pool/Recovery.antt =====
-- The way back from a lost connection.
use case_execution.Prelude.{
  if-false, not, true, refl, false, contains, ◌⊎◌, inl, inr, pos_part, ◌*◌, some, [], ◌∷◌, suc, ◌≤◌,
  length, ◌≡◌, List, ℕ, ◌+◌, ◌||◌, ◌==◌, ==_iff, subst, arith,
}
use case_execution.Rabbit.Pool.Opening.{length-fill, length-connect}
use case_execution.Rabbit.Pool.Ready.{Reachable-IsReady, IsReady}
use case_execution.Rabbit.Pool.System.{
  Reachable, Steps, none_left, first, System, Loop, watching, draining, retrying, signalling, drain,
  drained, commit, close_signal,
}
use case_execution.Rabbit.Pool.Bounds.{pool_bounded}
use case_execution.Rabbit.Pool.{
  apply_defaults, Client, RabbitConfig, PooledChannel, DialAttempt, connect, fill, commit_reconnect,
}
use case_execution.Dispatch.Ports.{ok}

commit_reconnect-eq :
    (signal conn : ℕ) (pcs : List PooledChannel) (c : Client)
    → c.closed ≡ false
    → c.conn_ready ≡ signal
    → commit_reconnect signal conn pcs c
      ≡ ok (record c { conn = some conn; pool = fill c.capacity c.pool pcs })
unfolding commit_reconnect
commit_reconnect-eq signal conn pcs c open_now same =
    if-false _ _ (c.closed || not (c.conn_ready == signal))
      (ground (arith, ==_iff c.conn_ready signal))

-- The loop has lost the connection.
abbrev pub IsAway : Loop → Type 0
IsAway loop =
    ((signal : ℕ) × (loop ≡ draining signal))
    ⊎ ((signal : ℕ) × (backoff : ℕ) × (loop ≡ retrying signal backoff))

-- The state after a reconnection.
abbrev pub IsRestored : ℕ → System → Type 0
IsRestored conn s =
    (s.loop ≡ watching)
    × (contains s.client.signalled s.client.conn_ready ≡ true)
    × (s.client.conn ≡ some conn)
    × (length s.client.pool ≡ s.client.capacity)

module _ (cfg : RabbitConfig) (Keeps : Client → PooledChannel → Type 0) where
  joined :
      (s s' s'' : System) → Steps cfg Keeps s s' → Steps cfg Keeps s' s'' → Steps cfg Keeps s s''
  joined _ _ s'' (none_left s) more = more
  joined _ _ s'' (first s s1 s2 one others) more = first s s1 s'' one (joined s1 s2 s'' others more)

  -- What the loop has reached when the pool is empty.
  drain-Steps :
      (pool : List PooledChannel) (s : System) (signal : ℕ)
      → s.client.pool ≡ pool
      → s.loop ≡ draining signal
      → Steps cfg Keeps s (record s {
        client = record (s.client) { pool = [] };
        loop =
            retrying signal (pos_part (apply_defaults cfg).reconnect_initial_backoff_ms * 1000000);
      })
  drain-Steps [] s signal pooled e =
      subst
        (λ p. Steps cfg Keeps s (record s {
          client = record (s.client) { pool = p };
          loop =
              retrying signal
                (pos_part (apply_defaults cfg).reconnect_initial_backoff_ms * 1000000);
        }))
        pooled (first s _ _ (drained s signal e pooled) (none_left _))
  drain-Steps (pc ∷ rest) s signal pooled e =
      let s1 : System = record s { client = record (s.client) { pool = rest } } in
      first s s1 _ (drain s signal pc rest e pooled) (drain-Steps rest s1 signal refl e)

  -- One attempt that connects, and its commit.
  reconnect-Steps :
      (s : System) (signal backoff : ℕ) (a : DialAttempt) (channels : List PooledChannel)
      → s.loop ≡ retrying signal backoff
      → s.client.closed ≡ false
      → s.client.conn_ready ≡ signal
      → length s.client.pool ≤ s.client.capacity
      → connect a s.next (suc s.next) s.client.capacity ≡ ok channels
      → (s' : System) × Steps cfg Keeps s s' × IsRestored s.next s'
  reconnect-Steps s signal backoff a channels e open_now same fits connected =
      let c : Client = record (s.client) {
        conn = some s.next;
        pool = fill s.client.capacity s.client.pool channels;
      } in
      let s1 : System = record s {
        client = c;
        loop = signalling signal;
        next = suc s.next + length channels;
      } in
      let committed = commit_reconnect-eq signal s.next channels s.client open_now same in
      let s2 : System = record s1 {
        client = record c { signalled = signal ∷ c.signalled };
        loop = watching;
      } in
      let many = length-connect a s.next (suc s.next) s.client.capacity channels connected in
      (
        s2,
        first s s1 s2 (commit s signal backoff a channels c e connected committed)
            (first s1 s2 s2 (close_signal s1 signal refl) (none_left s2)),
        (
          refl,
          ground (arith, ==_iff signal s.client.conn_ready),
          refl,
          length-fill s.client.capacity s.client.pool channels fits (omega (arith, many)),
        ),
      )

  -- The reconnection loop gets back from wherever it stands: once the loop has lost the connection, and
  -- while the client is open, an attempt that connects leads to a state in which the loop watches the
  -- new connection, the pool is full, and the signal that borrow waits for is closed.
  pub reconnects :
      (s : System) (a : DialAttempt) (channels : List PooledChannel)
      → Reachable cfg Keeps s
      → IsAway s.loop
      → s.client.closed ≡ false
      → connect a s.next (suc s.next) s.client.capacity ≡ ok channels
      → (s' : System) × Steps cfg Keeps s s' × IsRestored s.next s'
  reconnects s a channels reached away open_now connected = elim away [
    | inl (signal, e) ↦
        let backoff = pos_part (apply_defaults cfg).reconnect_initial_backoff_ms * 1000000 in
        let s1 : System = record s {
          client = record (s.client) { pool = [] };
          loop = retrying signal backoff;
        } in
        let (s', more, restored) =
          reconnect-Steps s1 signal backoff a channels refl open_now
            (subst (λ l. IsReady l s.client) e (Reachable-IsReady cfg Keeps s reached))
            (omega arith) connected in
        (s', joined s s1 s' (drain-Steps s.client.pool s signal refl e) more, restored)
    | inr (signal, backoff, e) ↦
        reconnect-Steps s signal backoff a channels e open_now
          (subst (λ l. IsReady l s.client) e (Reachable-IsReady cfg Keeps s reached))
          (pool_bounded cfg Keeps s reached) connected
  ]
