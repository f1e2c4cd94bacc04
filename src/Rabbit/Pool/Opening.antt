-- ===== src/Rabbit/Pool/Opening.antt =====
-- The opening of channels, and how a commit of them can end.
use case_execution.Dispatch.Ports.{ok_inj, Reply, err, ok}
use case_execution.Prelude.{
  inr, inl, ltb, sym, Bool-cases, ◌++◌, ◌∷◌, ap, [], ◌≤◌, pos_part, Option, length, refl, ◌≡◌, List,
  Bool, ℕ, ◌+◌, arith, length-append, zero, suc, none, some, true, false, if◌then◌else◌,
}
use case_execution.Rabbit.Pool.{
  declare_exchange, apply_defaults, PooledChannel, Client, RabbitConfig, DialAttempt, build_loop,
  build_channels, connect, fill, open_channel, open_failed, new_client, opened,
}
use case_execution.Text.{lit}
use case_execution.Domain.Errs.{wrap, GoError}

pub if-eq-ok :
    {A : Type 0} (b : Bool) (e : GoError) (x y : A)
    → (if b then err e else ok x) ≡ ok y
    → (b ≡ false) × (x ≡ y)
if-eq-ok true e x y done = absurd (cc done)
if-eq-ok false e x y done = (refl, cc done)

pub if-eq-err :
    {A : Type 0} (b : Bool) (e e' : GoError) (x : A)
    → (if b then err e else ok x) ≡ err e'
    → b ≡ true
if-eq-err true e e' x done = refl
if-eq-err false e e' x done = absurd (cc done)

-- A loop that succeeds has opened its next channel.
pub build_loop-suc :
    (a : DialAttempt) (conn id total i left : ℕ) (kept channels : List PooledChannel)
    → build_loop a conn id total i (suc left) kept ≡ ok channels
    → build_loop a conn (suc id) total (suc i) left (kept ++ open_channel conn id ∷ [])
      ≡ ok channels
unfolding build_loop
build_loop-suc a conn id total i left kept channels done = one_of (a.open_error i) done
  where
    one_of :
        (failure : Option GoError)
        → elim failure [
          | some e ↦ err (open_failed i total e)
          | none ↦ build_loop a conn (suc id) total (suc i) left (kept ++ open_channel conn id ∷ [])
        ]
          ≡ ok channels
        → build_loop a conn (suc id) total (suc i) left (kept ++ open_channel conn id ∷ [])
          ≡ ok channels
    one_of (some e) failing = absurd (cc failing)
    one_of none going = going

length-build_loop :
    (a : DialAttempt) (conn id total i left : ℕ) (kept channels : List PooledChannel)
    → build_loop a conn id total i left kept ≡ ok channels
    → length channels ≡ length kept + left
unfolding build_loop
length-build_loop a conn id total i zero kept channels done = omega (arith, ap length (ok_inj done))
length-build_loop a conn id total i (suc left) kept channels done = omega (
  arith,
  length-build_loop a conn (suc id) total (suc i) left (kept ++ open_channel conn id ∷ []) channels
      (build_loop-suc a conn id total i left kept channels done),
  length-append kept (open_channel conn id ∷ []),
)

pub connect-ok :
    (a : DialAttempt) (conn id total : ℕ) (channels : List PooledChannel)
    → connect a conn id total ≡ ok channels
    → build_channels a conn id total ≡ ok channels
unfolding connect
connect-ok a conn id total channels done = one_of a.dial_error (declare_exchange a) done
  where
    one_of :
        (dialled declared : Option GoError)
        → elim dialled [
          | some e ↦ err (wrap (lit "amqp dial: ") e [])
          | none ↦ elim declared [ some e ↦ err e | none ↦ build_channels a conn id total ]
        ]
          ≡ ok channels
        → build_channels a conn id total ≡ ok channels
    one_of (some e) declared failing = absurd (cc failing)
    one_of none (some e) failing = absurd (cc failing)
    one_of none none going = going

-- A connection that is made brings as many channels as are asked for.
pub length-connect :
    (a : DialAttempt) (conn id total : ℕ) (channels : List PooledChannel)
    → connect a conn id total ≡ ok channels
    → length channels ≡ total
unfolding build_channels
length-connect a conn id total channels done = omega (
  arith,
  length-build_loop a conn id total 0 total [] channels (connect-ok a conn id total channels done),
)

pub length-fill :
    (capacity : ℕ) (pool pcs : List PooledChannel)
    → length pool ≤ capacity
    → capacity ≤ length pool + length pcs
    → length (fill capacity pool pcs) ≡ capacity
unfolding fill
length-fill capacity pool [] fits enough = omega arith
length-fill capacity pool (pc ∷ pcs) fits enough = elim (Bool-cases (ltb (length pool) capacity)) [
  | inl e ↦ rw e (
      length-fill capacity (pool ++ pc ∷ []) pcs (ground (arith, length-append pool (pc ∷ [])))
        (omega (arith, length-append pool (pc ∷ []))))
  | inr e ↦ rw e (length-fill capacity pool pcs fits (ground arith))
]

pub new_client-ok :
    (cfg : RabbitConfig) (a : DialAttempt) (c : Client)
    → new_client cfg a ≡ ok c
    → (channels : List PooledChannel) × (connect a 0 1 (pos_part (apply_defaults cfg).channel_pool)
        ≡ ok channels)
      × (c ≡ opened (pos_part (apply_defaults cfg).channel_pool) channels)
unfolding new_client
new_client-ok cfg a c done =
    one_of (connect a 0 1 (pos_part (apply_defaults cfg).channel_pool)) done
  where
    one_of :
        (opening : Reply (List PooledChannel))
        → elim opening [
          | err e ↦ err e
          | ok channels ↦ ok (opened (pos_part (apply_defaults cfg).channel_pool) channels)
        ]
          ≡ ok c
        → (channels : List PooledChannel) × (opening ≡ ok channels)
          × (c ≡ opened (pos_part (apply_defaults cfg).channel_pool) channels)
    one_of (err e) failing = absurd (cc failing)
    one_of (ok channels) going = (channels, refl, sym (ok_inj going))
