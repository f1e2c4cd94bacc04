-- ===== src/Domain/Lifecycle.antt =====
-- What the transitions of internal/domain/entity/execution_record.go keep of a record.
use case_execution.Domain.Status.Paths.{edge_first, can_transit_to-Edge}
use case_execution.Domain.Status.{here, Reach, ExecutionStatus, is_terminal, can_transit_to, Edge}
use case_execution.Prelude.{
  inl, inr, subst, ◌∙◌, Option-cases, refl, ℕ, ◌≡◌, Bool, true, false, Option, none, some, List, [],
  ◌∷◌, arith,
}
use case_execution.Domain.Errs.{
  GoError, illegal_status_transition, is_err, new_illegal_status_transition,
}
use case_execution.Domain.Entity.{
  ExecutionRecord, transit, mark_as_dispatch_failed, mark_as_failed, mark_as_running,
}

-- The fields that no transition may touch.
pub record SameIdentity (r s : ExecutionRecord) : Type 0 where
  pub execution_id : r.execution_id ≡ s.execution_id
  pub request_id : r.request_id ≡ s.request_id
  pub case_id : r.case_id ≡ s.case_id
  pub version : r.version ≡ s.version
  pub create_by : r.create_by ≡ s.create_by
  pub create_at : r.create_at ≡ s.create_at

SameIdentity-refl : (r : ExecutionRecord) → SameIdentity r r
SameIdentity-refl r = ground arith

-- A call of a method that changes the status, with the times that it reads.
pub data Call : Type 0 where
  dispatch_fails fails : ℕ → Call
  runs : ℕ → ℕ → Call

unfoldable pub call : Call → ExecutionRecord → ExecutionRecord × Option GoError
unfolding mark_as_dispatch_failed mark_as_failed mark_as_running
call (dispatch_fails now) r = mark_as_dispatch_failed now r
call (fails now) r = mark_as_failed now r
call (runs now later) r = mark_as_running now later r

unfoldable pub calls : List Call → ExecutionRecord → ExecutionRecord
calls [] r = r
calls (c ∷ cs) r = calls cs (call c r).0

-- The finish time stands exactly on the records in a terminal state.
abbrev is_some : Option ℕ → Bool
is_some none = false
is_some (some t) = true

abbrev pub IsDated : ExecutionRecord → Type 0
IsDated r = is_some r.finish_at ≡ is_terminal r.status

call-IsDated : (c : Call) (r : ExecutionRecord) → IsDated r → IsDated (call c r).0
unfolding call transit can_transit_to is_terminal
call-IsDated (dispatch_fails now) r h = ground arith
call-IsDated (fails now) r h = ground arith
call-IsDated (runs now later) r h = ground arith

call-SameIdentity : (c : Call) (r : ExecutionRecord) → SameIdentity r (call c r).0
unfolding call transit
call-SameIdentity (dispatch_fails now) r = ground arith
call-SameIdentity (fails now) r = ground arith
call-SameIdentity (runs now later) r = ground arith

-- A call that returns an error changes nothing, and the error is the illegal transition.
pub call_refused :
    (c : Call) (r : ExecutionRecord) (e : GoError)
    → (call c r).1 ≡ some e
    → ((call c r).0 ≡ r) × (is_err e illegal_status_transition ≡ true)
unfolding call transit is_err new_illegal_status_transition
call_refused (dispatch_fails now) r e h = ground arith
call_refused (fails now) r e h = ground arith
call_refused (runs now later) r e h = ground arith

call-Edge :
    (c : Call) (r : ExecutionRecord) → (call c r).1 ≡ none → Edge r.status (call c r).0.status
unfolding call transit
call-Edge (dispatch_fails now) r h = (can_transit_to-Edge r.status _).0 (ground arith)
call-Edge (fails now) r h = (can_transit_to-Edge r.status _).0 (ground arith)
call-Edge (runs now later) r h = (can_transit_to-Edge r.status _).0 (ground arith)

call-terminal : (c : Call) (r : ExecutionRecord) → is_terminal r.status ≡ true → (call c r).0 ≡ r
unfolding call transit can_transit_to is_terminal
call-terminal (dispatch_fails now) r h = ground arith
call-terminal (fails now) r h = ground arith
call-terminal (runs now later) r h = ground arith

call-Reach :
    (c : Call) (r : ExecutionRecord) {t : ExecutionStatus}
    → Reach (call c r).0.status t
    → Reach r.status t
call-Reach c r {t} path = elim (Option-cases (call c r).1) [
  | inl accepted ↦ edge_first (call-Edge c r accepted) path
  | inr (e, refused) ↦ subst (λ q. Reach q.status t) (call_refused c r e refused).0 path
]

SameIdentity-trans :
    (r s t : ExecutionRecord) → SameIdentity r s → SameIdentity s t → SameIdentity r t
SameIdentity-trans r s t h k = ground arith

-- Any sequence of transitions keeps the identity of a record, follows the diagram, keeps the finish
-- time on exactly the terminal records, and changes a record in a terminal state no more.
pub calls_lifecycle :
    (cs : List Call) (r : ExecutionRecord)
    → IsDated r
    → SameIdentity r (calls cs r)
      × Reach r.status (calls cs r).status
      × IsDated (calls cs r)
      × (is_terminal r.status ≡ true → calls cs r ≡ r)
unfolding calls
calls_lifecycle [] r h = (SameIdentity-refl r, here, h, λ t. refl)
calls_lifecycle (c ∷ cs) r h =
    let (same, path, dated, still) = calls_lifecycle cs (call c r).0 (call-IsDated c r h) in
    (
      SameIdentity-trans r (call c r).0 _ (call-SameIdentity c r) same,
      call-Reach c r path,
      dated,
      λ t. let e = call-terminal c r t in still (rw e t) ∙ e,
    )
