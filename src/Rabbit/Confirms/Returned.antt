-- ===== src/Rabbit/Confirms/Returned.antt =====
-- A message that the broker has returned is not reported as a success, if the wait comes to its end.
use case_execution.Rabbit.Confirms.Acknowledged.{sort_returned-success}
use case_execution.Rabbit.Confirms.{
  waiting, sort_returned, confirm, drained, give_up, Pending, drain, note_return,
  execution_id_from_return, Wait, Event, context_done, deadline, channel_closed, confirms_closed,
  returns_closed, message_returned, confirmation, wait_step, wait_loop, after_loop, wait_confirms,
}
use case_execution.Prelude.{
  lookup, ap, is_nil, Bool-cases, ◌∙◌, inr, inl, Option-cases, arith, not, true, contains, false,
  ◌≡◌, Bool, List, ℕ, refl, none, some, [], ◌∷◌, ◌==◌, ◌&&◌, ◌||◌, if◌then◌else◌,
}
use case_execution.Text.{Bytes}

abbrev names : ℕ → Event → Bool
names a (message_returned m) = elim (execution_id_from_return m) [
  | none ↦ false
  | some id ↦ id == a
]
names a _ = false

-- Some message is returned that names the execution.
abbrev pub is_returned : ℕ → List Event → Bool
is_returned a [] = false
is_returned a (event ∷ events) = names a event || is_returned a events

abbrev is_close : Event → Bool
is_close returns_closed = true
is_close _ = false

-- The stream of returns stays open.
abbrev pub stays_open : List Event → Bool
stays_open [] = true
stays_open (event ∷ events) = not (is_close event) && stays_open events

note_return-returned :
    (a : ℕ) (m : Bytes) (w : Wait)
    → contains (note_return m w).returned a
      ≡ (names a (message_returned m) || contains w.returned a)
note_return-returned a m w = elim (Option-cases (execution_id_from_return m)) [
  | inl e ↦ rw (e, note_return, names) refl
  | inr (id, e) ↦ rw (e, note_return, names) refl
]

drain-returned :
    (a : ℕ) (events : List Event) (w : Wait)
    → stays_open events ≡ true
    → (contains w.returned a || is_returned a events) ≡ true
    → contains (drain events w).returned a ≡ true
drain-returned a [] w h named = ground arith
drain-returned a (message_returned m ∷ events) w h named =
    drain-returned a events (note_return m w) h (ground (arith, note_return-returned a m w))
drain-returned a (returns_closed ∷ events) w h named = cc
drain-returned a (context_done ∷ events) w h named = drain-returned a events w h named
drain-returned a (deadline ∷ events) w h named = drain-returned a events w h named
drain-returned a (channel_closed ∷ events) w h named = drain-returned a events w h named
drain-returned a (confirms_closed ∷ events) w h named = drain-returned a events w h named
drain-returned a (confirmation tag ack ∷ events) w h named = drain-returned a events w h named

confirm-returned :
    (tag : ℕ) (ack : Bool) (w : Wait)
    → ((confirm tag ack w).returned ≡ w.returned)
      × ((confirm tag ack w).returns_open ≡ w.returns_open)
confirm-returned tag ack w = elim (Option-cases (lookup tag w.pending)) [
  | inl e ↦ rw (e, confirm) (refl, refl)
  | inr (id, e) ↦ rw (e, confirm) (ground arith, ground arith)
]

note_return-open : (m : Bytes) (w : Wait) → (note_return m w).returns_open ≡ w.returns_open
note_return-open m w = elim (Option-cases (execution_id_from_return m)) [
  | inl e ↦ rw (e, note_return) refl
  | inr (id, e) ↦ rw (e, note_return) refl
]

-- One round keeps the returns open, and notes the one that it reads.
wait_step-returned :
    (a : ℕ) (event : Event) (w : Wait)
    → w.returns_open ≡ true
    → is_close event ≡ false
    → ((wait_step event w).returns_open ≡ true)
      × (contains (wait_step event w).returned a ≡ (names a event || contains w.returned a))
unfolding wait_step
wait_step-returned a context_done w opened h = (opened, refl)
wait_step-returned a deadline w opened h = (opened, refl)
wait_step-returned a channel_closed w opened h = (opened, refl)
wait_step-returned a confirms_closed w opened h = (opened, refl)
wait_step-returned a returns_closed w opened h = cc
wait_step-returned a (message_returned m) w opened h = one_of w.returns_open opened
  where
    one_of :
        (b : Bool)
        → b ≡ true
        → ((if b then note_return m w else w).returns_open ≡ true)
          × (contains (if b then note_return m w else w).returned a
              ≡ (names a (message_returned m) || contains w.returned a))
    one_of true e = (note_return-open m w ∙ opened, note_return-returned a m w)
    one_of false e = cc
wait_step-returned a (confirmation tag ack) w opened h =
    let (same, same_open) = confirm-returned tag ack w in
    (same_open ∙ opened, ap (λ ids. contains ids a) same)

-- What the loop has not read of the returns is left for the drain.
wait_loop-returned :
    (a : ℕ) (events : List Event) (w : Wait)
    → w.returns_open ≡ true
    → stays_open events ≡ true
    → (contains w.returned a || is_returned a events) ≡ true
    → let (w', rest) = wait_loop events w in
      w'.gave_up ≡ false
      → (w'.returns_open ≡ true)
        × (stays_open rest ≡ true)
        × ((contains w'.returned a || is_returned a rest) ≡ true)
unfolding wait_loop
wait_loop-returned a [] w opened h named = one_of (is_nil w.pending)
  where
    one_of :
        (b : Bool)
        → let (w', rest) : Wait × List Event = if b then (w, []) else (give_up w, []) in
          w'.gave_up ≡ false
          → (w'.returns_open ≡ true)
            × (stays_open rest ≡ true)
            × ((contains w'.returned a || is_returned a rest) ≡ true)
    one_of true kept = (opened, refl, named)
    one_of false kept = absurd (cc kept)
wait_loop-returned a (event ∷ events) w opened h named =
    let (opened', read) = wait_step-returned a event w opened (ground arith) in
    let later =
      wait_loop-returned a events (wait_step event w) opened' (ground arith)
        (ground (arith, read)) in
    one_of (is_nil w.pending) later
  where
    Rest : Wait × List Event → Type 0
    Rest (w', rest) =
        w'.gave_up ≡ false
        → (w'.returns_open ≡ true)
          × (stays_open rest ≡ true)
          × ((contains w'.returned a || is_returned a rest) ≡ true)

    one_of :
        (b : Bool)
        → Rest (wait_loop events (wait_step event w))
        → Rest (if b then (w, event ∷ events) else wait_loop events (wait_step event w))
    one_of true later kept = (opened, h, named)
    one_of false later kept = later kept

after_loop-unreturned :
    (a : ℕ) (w : Wait) (events : List Event)
    → let (success, _, gave_up) = after_loop (w, events) in
      gave_up ≡ false
      → contains success a ≡ true
      → (w.gave_up ≡ false) × (contains (drained w events).returned a ≡ false)
unfolding after_loop
after_loop-unreturned a w events = one_of w.gave_up refl
  where
    one_of :
        (b : Bool)
        → w.gave_up ≡ b
        → let (success, _, gave_up) : List ℕ × List ℕ × Bool =
            if b then (w.success, w.failed, true) else (
              (sort_returned (drained w events)).0,
              (sort_returned (drained w events)).1,
              false,
            ) in
          gave_up ≡ false
          → contains success a ≡ true
          → (w.gave_up ≡ false) × (contains (drained w events).returned a ≡ false)
    one_of true e kept h = absurd (cc kept)
    one_of false e kept h = (e, (sort_returned-success a (drained w events) h).1)

-- Where the wait reads its last confirmation, and the stream of returns stays open, no success has
-- been returned as unroutable, in whatever order the returns and the confirmations have been read.
pub wait_unreturned :
    (a : ℕ) (events : List Event) (pending : Pending)
    → stays_open events ≡ true
    → (wait_confirms events pending).2 ≡ false
    → contains (wait_confirms events pending).0 a ≡ true
    → is_returned a events ≡ false
unfolding wait_confirms
wait_unreturned a events [] h kept success = cc
wait_unreturned a events (p ∷ pending) h kept success = elim (Bool-cases (is_returned a events)) [
  | inr e ↦ e
  | inl e ↦
      let start = waiting (p ∷ pending) in
      let (w, rest) = wait_loop events start in
      let (unbroken, absent) = after_loop-unreturned a w rest kept success in
      let (opened, h', named) = wait_loop-returned a events start refl h e unbroken in
      absurd (ground (arith, drained_returned a w rest opened h' named))
]
  where
    drained_returned :
        (a : ℕ) (w : Wait) (rest : List Event)
        → w.returns_open ≡ true
        → stays_open rest ≡ true
        → (contains w.returned a || is_returned a rest) ≡ true
        → contains (drained w rest).returned a ≡ true
    drained_returned a w rest opened h named = one_of w.returns_open opened
      where
        one_of : (b : Bool) → b ≡ true → contains (if b then drain rest w else w).returned a ≡ true
        one_of true e = drain-returned a rest w h named
        one_of false e = cc
