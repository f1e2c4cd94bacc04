-- ===== src/Rabbit/Confirms.antt =====
-- waitConfirms of internal/infrastructure/mq/rabbitmq/executor_client.go: from the events of one
-- channel to the identifiers that the broker has and those that failed.
pub mod Conservation
pub mod Acknowledged
pub mod Returned
use case_execution.Prelude.{
  ◌&&◌, leb, ◌-◌, ◌^◌, ◌+◌, contains, ◌*◌, ◌==◌, is_nil, ltb, true, if◌then◌else◌, none, map,
  lookup, ◌++◌, some, ◌∷◌, false, Bool, [], Option, List, ℕ,
}
use case_execution.Text.{Bytes}

-- strconv.ParseInt(s, 10, 64) for the texts that FormatInt writes: digits alone. A sign is left out,
-- since an identifier is positive; `none` is an error.
abbrev digits_value : ℕ → Bytes → Option ℕ
digits_value n [] = some n
digits_value n (c ∷ s) =
    let rest = digits_value (n * 10 + (c - 48)) s in if leb 48 c && leb c 57 then rest else none

abbrev in_int64 : Option ℕ → Option ℕ
in_int64 none = none
in_int64 (some n) = if ltb n (2 ^ 63) then some n else none

unfoldable pub execution_id_from_return : Bytes → Option ℕ
execution_id_from_return [] = none
execution_id_from_return (c ∷ s) = in_int64 (digits_value 0 (c ∷ s))

-- What the select of the loop finds ready: the end of the context, the deadline, the close of the
-- channel, a returned message with its identifier, the end of the returns, a confirmation with its
-- tag, and the end of the confirmations.
pub data Event : Type 0 where
  context_done deadline channel_closed confirms_closed returns_closed : Event
  message_returned : Bytes → Event
  confirmation : ℕ → Bool → Event

-- The map from a delivery tag to the execution, in the order of publication.
abbrev pub Pending : Type 0
Pending = List (ℕ × ℕ)

abbrev pub pending_ids : Pending → List ℕ
pending_ids = map (λ p. p.1)

-- `delete(seq2id, tag)`.
abbrev pub delete : ℕ → Pending → Pending
delete tag [] = []
delete tag (p ∷ pending) = if p.0 == tag then delete tag pending else p ∷ delete tag pending

-- The variables of the loop.
pub record Wait : Type 0 where
  pub pending : Pending
  pub returned : List ℕ
  pub returns_open : Bool
  pub success : List ℕ
  pub failed : List ℕ
  pub gave_up : Bool

-- The identifiers that are still pending fail, and the channel is given up. A map is left in no
-- certain order; here it is that of publication.
abbrev give_up : Wait → Wait
give_up w = record w { pending = []; failed = w.failed ++ pending_ids w.pending; gave_up = true }

abbrev note_return : Bytes → Wait → Wait
note_return message_id w = elim (execution_id_from_return message_id) [
  | none ↦ w
  | some id ↦ record w { returned = id ∷ w.returned }
]

abbrev settle_tag : ℕ → Bool → ℕ → Wait → Wait
settle_tag tag ack id w =
    let rest : Wait = record w { pending = delete tag w.pending } in
    if contains w.returned id
    then record rest { failed = w.failed ++ id ∷ [] }
    else if ack
    then record rest { success = w.success ++ id ∷ [] }
    else record rest { failed = w.failed ++ id ∷ [] }

-- A confirmation of an earlier batch has a tag that is not pending, and is passed over.
abbrev confirm : ℕ → Bool → Wait → Wait
confirm tag ack w = elim (lookup tag w.pending) [ none ↦ w | some id ↦ settle_tag tag ack id w ]

-- One round of the loop.
unfoldable pub wait_step : Event → Wait → Wait
wait_step context_done w = give_up w
wait_step deadline w = give_up w
wait_step channel_closed w = give_up w
wait_step confirms_closed w = give_up w
wait_step returns_closed w = record w { returns_open = false }
wait_step (message_returned message_id) w = if w.returns_open then note_return message_id w else w
wait_step (confirmation tag ack) w = confirm tag ack w

-- The loop ends when nothing is pending. Where the events end before, the deadline fires. The events
-- that it does not read are left.
unfoldable pub wait_loop : List Event → Wait → Wait × List Event
unfolding wait_step
wait_loop [] w = if is_nil w.pending then (w, []) else (wait_step deadline w, [])
wait_loop (event ∷ events) w =
    let rest = wait_loop events (wait_step event w) in
    if is_nil w.pending then (w, event ∷ events) else rest

-- The returns that are in the buffer when the last confirmation has been read.
abbrev drain : List Event → Wait → Wait
drain [] w = w
drain (message_returned message_id ∷ events) w = drain events (note_return message_id w)
drain (returns_closed ∷ events) w = w
drain (_ ∷ events) w = drain events w

-- The variables of the last loop; `failed_set` holds what `failed` does.
pub record Moving : Type 0 where
  pub confirmed : List ℕ
  pub failed : List ℕ
  pub failed_set : List ℕ

abbrev move_one : List ℕ → ℕ → Moving → Moving
move_one returned id m =
    if contains returned id
    then if contains m.failed_set id
      then m
      else record m { failed = m.failed ++ id ∷ []; failed_set = m.failed_set ++ id ∷ [] }
    else record m { confirmed = m.confirmed ++ id ∷ [] }

-- The successes that were returned after all go to the failures, once each.
unfoldable pub move_returned : List ℕ → List ℕ → Moving → Moving
move_returned returned [] m = m
move_returned returned (id ∷ ids) m = move_returned returned ids (move_one returned id m)

abbrev sort_returned : Wait → List ℕ × List ℕ
sort_returned w =
    let m =
      move_returned w.returned w.success
        (record { confirmed = []; failed = w.failed; failed_set = w.failed }) in
    if is_nil w.returned then (w.success, w.failed) else (m.confirmed, m.failed)

-- A closed stream of returns has no more to read.
abbrev drained : Wait → List Event → Wait
drained w events = if w.returns_open then drain events w else w

-- What follows the loop, unless the loop has returned.
unfoldable pub after_loop : Wait × List Event → List ℕ × List ℕ × Bool
unfolding move_returned
after_loop (w, events) =
    let (success, failed) = sort_returned (drained w events) in
    if w.gave_up then (w.success, w.failed, true) else (success, failed, false)

abbrev pub waiting : Pending → Wait
waiting pending = record {
  pending = pending;
  returned = [];
  returns_open = true;
  success = [];
  failed = [];
  gave_up = false;
}

-- The successes, the failures, and whether the channel is broken.
unfoldable pub wait_confirms : List Event → Pending → List ℕ × List ℕ × Bool
unfolding wait_loop after_loop
wait_confirms events pending =
    if is_nil pending then ([], [], false) else after_loop (wait_loop events (waiting pending))
