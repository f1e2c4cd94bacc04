-- ===== src/Rabbit/Confirms/Conservation.antt =====
-- No identifier is lost while the publisher waits for its confirmations.
use case_execution.Prelude.{
  ap, if◌then◌else◌, count-contains, ◌∙◌, count-snoc, is_nil, ==_iff, inr, ◌&&◌, occurs, inl,
  Option-cases, [], count-append, Bool-cases, count_absent, some, not, ◌+◌, false, ◌∷◌, lookup, ◌≤◌,
  arith, map, ◌≡◌, true, contains, count, Bool, List, ℕ, refl,
}
use case_execution.Rabbit.Confirms.{
  drained, move_one, waiting, sort_returned, drain, Moving, context_done, deadline, channel_closed,
  confirms_closed, returns_closed, message_returned, confirmation, execution_id_from_return,
  settle_tag, pending_ids, delete, confirm, note_return, give_up, Wait, Event, Pending, wait_step,
  wait_loop, after_loop, wait_confirms, move_returned,
}
use case_execution.Text.{Bytes}

abbrev pub no_duplicates : List ℕ → Bool
no_duplicates [] = true
no_duplicates (x ∷ xs) = not (contains xs x) && no_duplicates xs

pub no_duplicates-count : (a : ℕ) (xs : List ℕ) → no_duplicates xs ≡ true → count a xs ≤ 1
no_duplicates-count a [] h = omega arith
no_duplicates-count a (x ∷ xs) h = ground (arith, no_duplicates-count a xs, count_absent a xs)

abbrev pub tags : Pending → List ℕ
tags = map (λ p. p.0)

delete_absent :
    (tag : ℕ) (pending : Pending)
    → contains (tags pending) tag ≡ false
    → delete tag pending ≡ pending
delete_absent tag [] h = refl
delete_absent tag (p ∷ pending) h = ground (arith, delete_absent tag pending)

contains-delete :
    (tag other : ℕ) (pending : Pending)
    → contains (tags pending) other ≡ false
    → contains (tags (delete tag pending)) other ≡ false
contains-delete tag other [] h = refl
contains-delete tag other (p ∷ pending) h = ground (arith, contains-delete tag other pending)

no_duplicates-delete :
    (tag : ℕ) (pending : Pending)
    → no_duplicates (tags pending) ≡ true
    → no_duplicates (tags (delete tag pending)) ≡ true
no_duplicates-delete tag [] h = refl
no_duplicates-delete tag (p ∷ pending) h =
    ground (arith, no_duplicates-delete tag pending, contains-delete tag p.0 pending)

delete-count :
    (a tag id : ℕ) (pending : Pending)
    → no_duplicates (tags pending) ≡ true
    → lookup tag pending ≡ some id
    → count a (pending_ids (delete tag pending)) + occurs a id ≡ count a (pending_ids pending)
delete-count a tag id [] h found = cc
delete-count a tag id (p ∷ pending) h found =
    ground (arith, delete-count a tag id pending, delete_absent tag pending, ==_iff p.0 tag)

-- How often an identifier is pending, a success or a failure.
abbrev total : ℕ → Wait → ℕ
total a w = count a w.success + count a w.failed + count a (pending_ids w.pending)

-- The tags of the pending messages stay apart, and nothing is lost.
abbrev Keeps : Wait → Wait → Type 0
Keeps w w' = (no_duplicates (tags w'.pending) ≡ true) × ((a : ℕ) → total a w' ≡ total a w)

give_up-Keeps : (w : Wait) → Keeps w (give_up w)
give_up-Keeps w = (refl, λ a. ground (arith, count-append a w.failed (pending_ids w.pending)))

note_return-Keeps :
    (m : Bytes) (w : Wait) → no_duplicates (tags w.pending) ≡ true → Keeps w (note_return m w)
note_return-Keeps m w h = elim (Option-cases (execution_id_from_return m)) [
  | inl e ↦ rw (e, note_return) (h, λ a. refl)
  | inr (id, e) ↦ rw (e, note_return) (h, λ a. refl)
]

pub pending_after :
    (tag : ℕ) (ack : Bool) (id : ℕ) (w : Wait)
    → (settle_tag tag ack id w).pending ≡ delete tag w.pending
pending_after tag ack id w = ground arith

settle_tag-Keeps :
    (tag : ℕ) (ack : Bool) (id : ℕ) (w : Wait)
    → no_duplicates (tags w.pending) ≡ true
    → lookup tag w.pending ≡ some id
    → Keeps w (settle_tag tag ack id w)
settle_tag-Keeps tag ack id w h found = (
  rw (pending_after tag ack id w) (no_duplicates-delete tag w.pending h),
  λ a. ground (
    arith,
    delete-count a tag id w.pending h found,
    count-snoc a w.failed id,
    count-snoc a w.success id,
  ),
)

confirm-Keeps :
    (tag : ℕ) (ack : Bool) (w : Wait)
    → no_duplicates (tags w.pending) ≡ true
    → Keeps w (confirm tag ack w)
confirm-Keeps tag ack w h = elim (Option-cases (lookup tag w.pending)) [
  | inl e ↦ rw (e, confirm) (h, λ a. refl)
  | inr (id, e) ↦ rw (e, confirm) (settle_tag-Keeps tag ack id w h e)
]

if_Keeps :
    (b : Bool) (w w' : Wait)
    → Keeps w w'
    → no_duplicates (tags w.pending) ≡ true
    → Keeps w (if b then w' else w)
if_Keeps true w w' keeps h = keeps
if_Keeps false w w' keeps h = (h, λ a. refl)

wait_step-Keeps :
    (event : Event) (w : Wait) → no_duplicates (tags w.pending) ≡ true → Keeps w (wait_step event w)
unfolding wait_step
wait_step-Keeps context_done w h = give_up-Keeps w
wait_step-Keeps deadline w h = give_up-Keeps w
wait_step-Keeps channel_closed w h = give_up-Keeps w
wait_step-Keeps confirms_closed w h = give_up-Keeps w
wait_step-Keeps returns_closed w h = (h, λ a. refl)
wait_step-Keeps (message_returned m) w h =
    if_Keeps w.returns_open w (note_return m w) (note_return-Keeps m w h) h
wait_step-Keeps (confirmation tag ack) w h = confirm-Keeps tag ack w h

nil_of : (p : Pending) → is_nil p ≡ true → p ≡ []
nil_of [] e = refl
nil_of (x ∷ p) e = cc

loop_ends :
    (events : List Event) (w : Wait)
    → no_duplicates (tags w.pending) ≡ true
    → let w' = (wait_loop events w).0 in (w'.pending ≡ []) × ((a : ℕ) → total a w' ≡ total a w)
unfolding wait_loop wait_step
loop_ends [] w h = elim (Bool-cases (is_nil w.pending)) [
  | inl e ↦ rw e (nil_of w.pending e, λ a. refl)
  | inr e ↦ rw e (refl, (give_up-Keeps w).1)
]
loop_ends (event ∷ events) w h =
    let (h', kept) = wait_step-Keeps event w h in
    let (ended, kept_after) = loop_ends events (wait_step event w) h' in
    elim (Bool-cases (is_nil w.pending)) [
      | inl e ↦ rw e (nil_of w.pending e, λ a. refl)
      | inr e ↦ rw e (ended, λ a. kept_after a ∙ kept a)
    ]

-- One step of the last loop.
move_one_keeps :
    (returned ids : List ℕ) (id : ℕ) (m : Moving) (b : ℕ)
    → m.failed_set ≡ m.failed
    → count id m.failed + 1 ≤ 1
    → let m' = move_one returned id m in
      (m'.failed_set ≡ m'.failed)
      × (count b m'.confirmed + count b m'.failed
          ≡ count b m.confirmed + count b m.failed + occurs b id)
move_one_keeps returned ids id m b same once =
    ground
      (arith, count-contains id m.failed, count-snoc b m.failed id, count-snoc b m.confirmed id)

move_returned-count :
    (a : ℕ) (returned ids : List ℕ) (m : Moving)
    → m.failed_set ≡ m.failed
    → ((b : ℕ) → count b m.confirmed + count b m.failed + count b ids ≤ 1)
    → let m' = move_returned returned ids m in
      count a m'.confirmed + count a m'.failed
      ≡ count a m.confirmed + count a m.failed + count a ids
unfolding move_returned
move_returned-count a returned [] m same once = omega arith
move_returned-count a returned (id ∷ ids) m same once =
    let m' = move_one returned id m in
    let fresh : count id m.failed + 1 ≤ 1 = ground (arith, once id) in
    let (same', kept) = move_one_keeps returned ids id m a same fresh in
    omega (
      arith,
      move_returned-count a returned ids m' same'
          (λ b. omega (arith, once b, (move_one_keeps returned ids id m b same fresh).1)),
      kept,
    )

sort_returned-count :
    (a : ℕ) (w : Wait)
    → ((b : ℕ) → count b w.success + count b w.failed ≤ 1)
    → let (success, failed) = sort_returned w in
      count a success + count a failed ≡ count a w.success + count a w.failed
sort_returned-count a w once = elim (Bool-cases (is_nil w.returned)) [
  | inl e ↦ rw e refl
  | inr e ↦ rw e (
      omega (
        arith,
        move_returned-count a w.returned w.success
            (record { confirmed = []; failed = w.failed; failed_set = w.failed }) refl
            (λ b. omega (arith, once b)),
      ))
]

pub note_return_lists :
    (m : Bytes) (w : Wait)
    → ((note_return m w).success ≡ w.success) × ((note_return m w).failed ≡ w.failed)
note_return_lists m w = elim (Option-cases (execution_id_from_return m)) [
  | inl e ↦ rw (e, note_return) (refl, refl)
  | inr (id, e) ↦ rw (e, note_return) (refl, refl)
]

drain_keeps :
    (events : List Event) (w : Wait)
    → let w' = drain events w in (w'.success ≡ w.success) × (w'.failed ≡ w.failed)
drain_keeps [] w = (refl, refl)
drain_keeps (message_returned m ∷ events) w =
    let (succ, failing) = drain_keeps events (note_return m w) in
    let (succ', failing') = note_return_lists m w in (succ ∙ succ', failing ∙ failing')
drain_keeps (returns_closed ∷ events) w = (refl, refl)
drain_keeps (context_done ∷ events) w = drain_keeps events w
drain_keeps (deadline ∷ events) w = drain_keeps events w
drain_keeps (channel_closed ∷ events) w = drain_keeps events w
drain_keeps (confirms_closed ∷ events) w = drain_keeps events w
drain_keeps (confirmation tag ack ∷ events) w = drain_keeps events w

pub drained_keeps :
    (w : Wait) (events : List Event)
    → ((drained w events).success ≡ w.success) × ((drained w events).failed ≡ w.failed)
drained_keeps w events = one_of w.returns_open (drain_keeps events w)
  where
    one_of :
        (b : Bool)
        → ((drain events w).success ≡ w.success) × ((drain events w).failed ≡ w.failed)
        → ((if b then drain events w else w).success ≡ w.success)
          × ((if b then drain events w else w).failed ≡ w.failed)
    one_of true same = same
    one_of false same = (refl, refl)

after_loop-count :
    (a : ℕ) (w : Wait) (events : List Event)
    → ((b : ℕ) → count b w.success + count b w.failed ≤ 1)
    → let (success, failed, _) = after_loop (w, events) in
      count a success + count a failed ≡ count a w.success + count a w.failed
unfolding after_loop
after_loop-count a w events once =
    let (succ, failing) = drained_keeps w events in
    one_of w.gave_up (
      omega (
        arith,
        sort_returned-count a (drained w events) (λ b. ground (arith, once b, succ, failing)),
        ap (count a) succ,
        ap (count a) failing,
      ))
  where
    one_of :
        (b : Bool)
        → (let (success, failed) = sort_returned (drained w events) in
            count a success + count a failed ≡ count a w.success + count a w.failed)
        → (let (success, failed, _) : List ℕ × List ℕ × Bool =
              if b then (w.success, w.failed, true) else (
                (sort_returned (drained w events)).0,
                (sort_returned (drained w events)).1,
                false,
              ) in
            count a success + count a failed ≡ count a w.success + count a w.failed)
    one_of true same = refl
    one_of false same = same

-- Whatever arrives on the channel, the wait ends, and it reports each published execution once: an
-- identifier occurs among the successes and failures together as often as among the published ones.
-- The delivery tags are distinct, and so are the published identifiers.
pub wait_conserves :
    (a : ℕ) (events : List Event) (pending : Pending)
    → no_duplicates (tags pending) ≡ true
    → no_duplicates (pending_ids pending) ≡ true
    → let (success, failed, _) = wait_confirms events pending in
      count a success + count a failed ≡ count a (pending_ids pending)
unfolding wait_confirms
wait_conserves a events [] tags_distinct ids_distinct = refl
wait_conserves a events (p ∷ pending) tags_distinct ids_distinct =
    let (ended, kept) = loop_ends events (waiting (p ∷ pending)) tags_distinct in
    let w = (wait_loop events (waiting (p ∷ pending))).0 in
    let rest = (wait_loop events (waiting (p ∷ pending))).1 in
    let none_pending = λ (b : ℕ). ap (λ pending. count b (pending_ids pending)) ended in
    omega (
      arith,
      after_loop-count a w rest (λ b. omega (
        arith,
        kept b,
        none_pending b,
        no_duplicates-count b (pending_ids (p ∷ pending)) ids_distinct,
      )),
      kept a,
      none_pending a,
    )
