-- ===== src/Rabbit/Pool/Woken.antt =====
-- The signals on which the workers in borrow wait, and the loop that closes them.
use case_execution.Rabbit.Pool.Ready.{
  IsReady, Reachable-IsReady, commit_reconnect-ok, Quiet, release_start-Quiet, backfill-Quiet,
  close_start-Quiet,
}
use case_execution.Rabbit.Pool.{
  Client, PooledChannel, RabbitConfig, release_start, backfill, disconnect, close_start,
  borrow_check,
}
use case_execution.Rabbit.Pool.Opening.{if-eq-ok}
use case_execution.Rabbit.Pool.System.{
  Reachable, start, step, Step, close_drain, close, stop, close_signal, refuse, commit, retry,
  watching, stopped, draining, retrying, signalling, drained, drain, lose, finish_replacing,
  open_fresh, fail_replacing, release, break_channel, take_channel, give_up, check, System, Loop,
}
use case_execution.Prelude.{
  ℕ, ◌≡◌, ◌==◌, ◌||◌, ◌++◌, ◌∷◌, [], List, Bool, true, false, contains, Each, Each-imp, ap, sym,
  subst, ==_iff, arith,
}

-- The loop is yet to close the signal; after Close nothing is asked of it.
abbrev is_pending : Loop → ℕ → Bool
is_pending watching w = false
is_pending stopped w = true
is_pending (draining signal) w = signal == w
is_pending (retrying signal backoff) w = signal == w
is_pending (signalling signal) w = signal == w

-- A signal is closed, or is the one that the loop will close.
abbrev IsKept : Loop → Client → ℕ → Type 0
IsKept loop c w = (contains c.signalled w || is_pending loop w) ≡ true

ready-IsKept : (loop : Loop) (c : Client) → IsReady loop c → IsKept loop c c.conn_ready
ready-IsKept watching c h = ground arith
ready-IsKept stopped c h = ground arith
ready-IsKept (draining signal) c h = ground (arith, ==_iff signal c.conn_ready)
ready-IsKept (retrying signal backoff) c h = ground (arith, ==_iff signal c.conn_ready)
ready-IsKept (signalling signal) c h = ground (arith, ==_iff signal c.conn_ready)

stopped-IsKept : (c : Client) (ws : List ℕ) → Each (IsKept stopped c) ws
stopped-IsKept c [] = tt
stopped-IsKept c (w ∷ ws) = (ground arith, stopped-IsKept c ws)

-- One of the waiting workers goes.
Each-without :
    (Q : ℕ → Type 0) (before : List ℕ) (w : ℕ) (after : List ℕ)
    → Each Q (before ++ w ∷ after)
    → Each Q (before ++ after)
Each-without Q [] w after each = each.1
Each-without Q (b ∷ before) w after each = (each.0, Each-without Q before w after each.1)

Quiet-IsKept :
    (loop : Loop) (c c' : Client) (ws : List ℕ)
    → Quiet c c'
    → Each (IsKept loop c) ws
    → Each (IsKept loop c') ws
Quiet-IsKept loop c c' ws (same, kept, shut) each =
    subst (λ x. Each (λ w. (contains x w || is_pending loop w) ≡ true) ws) (sym kept) each

module _ (cfg : RabbitConfig) (Keeps : Client → PooledChannel → Type 0) where
  Step-IsKept :
      (s s' : System)
      → Step cfg Keeps s s'
      → IsReady s.loop s.client
      → Each (IsKept s.loop s.client) s.waiting
      → Each (IsKept s'.loop s'.client) s'.waiting
  unfolding disconnect borrow_check
  Step-IsKept _ _ (check s signal e) ready h =
      let (_, same) = if-eq-ok s.client.closed _ s.client.conn_ready signal e in
      (subst (IsKept s.loop s.client) same (ready-IsKept s.loop s.client ready), h)
  Step-IsKept _ _ (give_up s before signal after e) ready h =
      Each-without (IsKept s.loop s.client) before signal after
        (subst (Each (IsKept s.loop s.client)) e h)
  Step-IsKept _ _ (take_channel s before signal after pc rest e open_signal pooled) ready h =
      Each-without (IsKept s.loop s.client) before signal after
        (subst (Each (IsKept s.loop s.client)) e h)
  Step-IsKept _ _ (break_channel s before pc after e) ready h = h
  Step-IsKept _ _ (release s before pc after e keeps) ready h =
      Quiet-IsKept s.loop s.client (release_start pc s.client).0 s.waiting
        (release_start-Quiet pc s.client) h
  Step-IsKept _ _ (fail_replacing s before conn after e) ready h = h
  Step-IsKept _ _ (open_fresh s before conn after e) ready h = h
  Step-IsKept _ _ (finish_replacing s before pc after e) ready h =
      Quiet-IsKept s.loop s.client (backfill pc s.client) s.waiting (backfill-Quiet pc s.client) h
  Step-IsKept _ _ (lose s e) ready h =
      Each-imp (IsKept watching s.client) (IsKept (draining s.next) s.client) s.waiting
        (λ w kept. ground arith) (subst (λ l. Each (IsKept l s.client) s.waiting) e h)
  Step-IsKept _ _ (drain s signal pc rest e pooled) ready h = h
  Step-IsKept _ _ (drained s signal e pooled) ready h =
      subst (λ l. Each (IsKept l s.client) s.waiting) e h
  Step-IsKept _ _ (retry s signal backoff a x e failed) ready h =
      subst (λ l. Each (IsKept l s.client) s.waiting) e h
  Step-IsKept _ _ (commit s signal backoff a channels c e connected done) ready h =
      let (_, _, made) = commit_reconnect-ok signal s.next channels s.client c done in
      subst (λ x. Each (λ w. (contains x w || is_pending (signalling signal) w) ≡ true) s.waiting)
        (sym (ap (λ x. x.signalled) made)) (subst (λ l. Each (IsKept l s.client) s.waiting) e h)
  Step-IsKept _ _ (refuse s signal backoff channels x e refused) ready h =
      stopped-IsKept s.client s.waiting
  Step-IsKept _ _ (close_signal s signal e) ready h =
      Each-imp (IsKept (signalling signal) s.client)
        (λ w. (contains (signal ∷ s.client.signalled) w || false) ≡ true) s.waiting
        (λ w kept. ground arith) (subst (λ l. Each (IsKept l s.client) s.waiting) e h)
  Step-IsKept _ _ (stop s e closed) ready h = stopped-IsKept s.client s.waiting
  Step-IsKept _ _ (close s) ready h =
      Quiet-IsKept s.loop s.client (close_start s.client) s.waiting (close_start-Quiet s.client) h
  Step-IsKept _ _ (close_drain s pc rest closed pooled) ready h = h

  Reachable-IsKept : (s : System) → Reachable cfg Keeps s → Each (IsKept s.loop s.client) s.waiting
  Reachable-IsKept _ (start a c done) = tt
  Reachable-IsKept _ (step s s' before last) =
      Step-IsKept s s' last (Reachable-IsReady cfg Keeps s before) (Reachable-IsKept s before)

  -- No wake-up is lost: while the loop watches a connection, the signal that borrow gives out has been
  -- closed, and so has every signal on which a worker in borrow still waits, however many connections have
  -- been lost and attempts have failed since it began to wait.
  pub watching_wakes :
      (s : System)
      → Reachable cfg Keeps s
      → s.loop ≡ watching
      → (contains s.client.signalled s.client.conn_ready ≡ true)
        × Each (λ w. contains s.client.signalled w ≡ true) s.waiting
  watching_wakes s reached e = (
    subst (λ l. IsReady l s.client) e (Reachable-IsReady cfg Keeps s reached),
    Each-imp (IsKept watching s.client) (λ w. contains s.client.signalled w ≡ true) s.waiting
        (λ w kept. ground arith)
        (subst (λ l. Each (IsKept l s.client) s.waiting) e (Reachable-IsKept s reached)),
  )
