-- ===== src/Rabbit/Confirms/Acknowledged.antt =====
-- What the publisher reports as a success was acknowledged by the broker.
use case_execution.Rabbit.Confirms.Conservation.{drained_keeps, note_return_lists, pending_after}
use case_execution.Rabbit.Confirms.{
  drained, sort_returned, waiting, move_one, execution_id_from_return, note_return, Moving,
  settle_tag, delete, confirm, Event, Wait, Pending, context_done, deadline, channel_closed,
  confirms_closed, returns_closed, message_returned, confirmation, wait_step, wait_loop, after_loop,
  wait_confirms, move_returned,
}
use case_execution.Prelude.{
  ◌⊎◌, not, is_nil, Bool-cases, ◌==◌, ◌&&◌, ◌||◌, inr, inl, Option-cases, ==_iff, arith, true, ◌++◌,
  ◌≡◌, false, contains, lookup, Bool, List, ℕ, refl, none, some, [], ◌∷◌, if◌then◌else◌,
}
use case_execution.Text.{Bytes}

-- The tag is that of the execution.
abbrev holds : Pending → ℕ → ℕ → Bool
holds pending tag id = elim (lookup tag pending) [ none ↦ false | some other ↦ other == id ]

abbrev acks : Pending → ℕ → Event → Bool
acks pending id (confirmation tag true) = holds pending tag id
acks pending id _ = false

-- Some event is a positive confirmation of the execution.
abbrev pub acked : Pending → ℕ → List Event → Bool
acked pending id [] = false
acked pending id (event ∷ events) = acks pending id event || acked pending id events

-- What is left of the pending messages holds no other tags.
abbrev Within : Pending → Pending → Type 0
Within pending whole = (tag id : ℕ) → lookup tag pending ≡ some id → lookup tag whole ≡ some id

lookup-delete :
    (gone tag id : ℕ) (pending : Pending)
    → lookup tag (delete gone pending) ≡ some id
    → lookup tag pending ≡ some id
lookup-delete gone tag id [] h = h
lookup-delete gone tag id (p ∷ pending) h = ground (
  arith,
  lookup-delete gone tag id pending,
  lookup_gone gone pending,
  ==_iff p.0 gone,
  ==_iff p.0 tag,
)
  where
    lookup_gone : (gone : ℕ) (pending : Pending) → lookup gone (delete gone pending) ≡ none
    lookup_gone gone [] = refl
    lookup_gone gone (p ∷ pending) = ground (arith, lookup_gone gone pending)

contains-snoc :
    (ids : List ℕ) (id a : ℕ) → contains (ids ++ id ∷ []) a ≡ (contains ids a || id == a)
contains-snoc [] id a = ground arith
contains-snoc (x ∷ ids) id a = ground (arith, contains-snoc ids id a)

settle_tag-success :
    (a tag : ℕ) (ack : Bool) (id : ℕ) (w : Wait)
    → contains (settle_tag tag ack id w).success a ≡ true
    → (contains w.success a || (ack && id == a)) ≡ true
settle_tag-success a tag true id w h = ground (arith, contains-snoc w.success id a)
settle_tag-success a tag false id w h = ground arith

confirmed :
    (a tag : ℕ) (ack : Bool) (id : ℕ) (whole : Pending) (before : Bool)
    → (before || (ack && id == a)) ≡ true
    → lookup tag whole ≡ some id
    → (before || acks whole a (confirmation tag ack)) ≡ true
confirmed a tag true id whole before h e = ground arith
confirmed a tag false id whole before h e = ground arith

confirm-success :
    (a tag : ℕ) (ack : Bool) (w : Wait) (whole : Pending)
    → Within w.pending whole
    → contains (confirm tag ack w).success a ≡ true
    → (contains w.success a || acks whole a (confirmation tag ack)) ≡ true
confirm-success a tag ack w whole within h = elim (Option-cases (lookup tag w.pending)) [
  | inl e ↦ ground (arith, (rw (e, confirm) at h))
  | inr (id, e) ↦
      confirmed a tag ack id whole (contains w.success a)
        (settle_tag-success a tag ack id w (rw (e, confirm) at h)) (within tag id e)
]

confirm-Within :
    (tag : ℕ) (ack : Bool) (w : Wait) (whole : Pending)
    → Within w.pending whole
    → Within (confirm tag ack w).pending whole
confirm-Within tag ack w whole within = elim (Option-cases (lookup tag w.pending)) [
  | inl e ↦ rw (e, confirm) within
  | inr (id, e) ↦
      rw (e, confirm)
        (rw (pending_after tag ack id w)
          (λ other found h. within other found (lookup-delete tag other found w.pending h)))
]

note_return-pending : (m : Bytes) (w : Wait) → (note_return m w).pending ≡ w.pending
note_return-pending m w = elim (Option-cases (execution_id_from_return m)) [
  | inl e ↦ rw (e, note_return) refl
  | inr (id, e) ↦ rw (e, note_return) refl
]

-- One round adds no success that its event does not acknowledge.
wait_step_lem :
    (a : ℕ) (event : Event) (w : Wait) (whole : Pending)
    → Within w.pending whole
    → Within (wait_step event w).pending whole
      × (contains (wait_step event w).success a ≡ true
          → (contains w.success a || acks whole a event) ≡ true)
unfolding wait_step
wait_step_lem a context_done w whole within = (λ tag id e. cc, λ h. ground arith)
wait_step_lem a deadline w whole within = (λ tag id e. cc, λ h. ground arith)
wait_step_lem a channel_closed w whole within = (λ tag id e. cc, λ h. ground arith)
wait_step_lem a confirms_closed w whole within = (λ tag id e. cc, λ h. ground arith)
wait_step_lem a returns_closed w whole within = (within, λ h. ground arith)
wait_step_lem a (message_returned m) w whole within = one_of w.returns_open
  where
    one_of :
        (b : Bool)
        → Within (if b then note_return m w else w).pending whole
          × (contains (if b then note_return m w else w).success a ≡ true
              → (contains w.success a || false) ≡ true)
    one_of true = (
      rw (note_return-pending m w) within,
      λ h. ground (arith, rw ((note_return_lists m w).0) at h),
    )
    one_of false = (within, λ h. ground arith)
wait_step_lem a (confirmation tag ack) w whole within =
    (confirm-Within tag ack w whole within, λ h. confirm-success a tag ack w whole within h)

wait_loop-success :
    (a : ℕ) (events : List Event) (w : Wait) (whole : Pending)
    → Within w.pending whole
    → contains (wait_loop events w).0.success a ≡ true
    → (contains w.success a || acked whole a events) ≡ true
unfolding wait_loop wait_step
wait_loop-success a [] w whole within h = elim (Bool-cases (is_nil w.pending)) [
  | inl e ↦ ground (arith, rw e at h)
  | inr e ↦ ground (arith, rw e at h)
]
wait_loop-success a (event ∷ events) w whole within h =
    let (within', added) = wait_step_lem a event w whole within in
    elim (Bool-cases (is_nil w.pending)) [
      | inl e ↦ ground (arith, rw e at h)
      | inr e ↦
          ground
            (arith, wait_loop-success a events (wait_step event w) whole within' (rw e at h), added)
    ]

move_returned-confirmed :
    (a : ℕ) (returned ids : List ℕ) (m : Moving)
    → contains (move_returned returned ids m).confirmed a ≡ true
    → (contains m.confirmed a || (contains ids a && not (contains returned a))) ≡ true
unfolding move_returned
move_returned-confirmed a returned [] m h = ground arith
move_returned-confirmed a returned (id ∷ ids) m h = ground (
  arith,
  move_returned-confirmed a returned ids (move_one returned id m) h,
  contains-snoc m.confirmed id a,
  ==_iff id a,
)

pub sort_returned-success :
    (a : ℕ) (w : Wait)
    → contains (sort_returned w).0 a ≡ true
    → (contains w.success a ≡ true) × (contains w.returned a ≡ false)
sort_returned-success a w h = elim (list_cases w.returned) [
  | inl (e, n) ↦ (rw n at h, rw e refl)
  | inr n ↦ ground (
    arith,
    move_returned-confirmed a w.returned w.success
        (record { confirmed = []; failed = w.failed; failed_set = w.failed }) (rw n at h),
  )
]
  where
    list_cases : (ids : List ℕ) → ((ids ≡ []) × (is_nil ids ≡ true)) ⊎ (is_nil ids ≡ false)
    list_cases [] = inl (refl, refl)
    list_cases (id ∷ ids) = inr refl

after_loop-success :
    (a : ℕ) (w : Wait) (events : List Event)
    → contains (after_loop (w, events)).0 a ≡ true
    → contains w.success a ≡ true
unfolding after_loop
after_loop-success a w events h = one_of w.gave_up h
  where
    one_of :
        (b : Bool)
        → (let (success, _, _) : List ℕ × List ℕ × Bool =
              if b then (w.success, w.failed, true) else (
                (sort_returned (drained w events)).0,
                (sort_returned (drained w events)).1,
                false,
              ) in
            contains success a ≡ true)
        → contains w.success a ≡ true
    one_of true h = h
    one_of false h =
        rw (drained_keeps w events).0 at ((sort_returned-success a (drained w events) h).0)

-- An execution that is reported as a success was published under a tag that the broker has confirmed
-- positively: no success is made up, whatever arrives.
pub wait_acknowledged :
    (a : ℕ) (events : List Event) (pending : Pending)
    → contains (wait_confirms events pending).0 a ≡ true
    → acked pending a events ≡ true
unfolding wait_confirms
wait_acknowledged a events [] h = cc
wait_acknowledged a events (p ∷ pending) h =
    let (w, rest) = wait_loop events (waiting (p ∷ pending)) in
    wait_loop-success a events (waiting (p ∷ pending)) (p ∷ pending) (λ tag id e. e)
      (after_loop-success a w rest h)
