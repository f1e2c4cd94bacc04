-- ===== src/Domain/Status/Paths.antt =====
-- The state machine of internal/domain/vo/execution_status.go and the diagram in its comment.
use case_execution.Prelude.{ℕ, ◌≤◌, ◌<◌, ◌≡◌, ◌↔◌, refl, true, arith}
use case_execution.Domain.Status.{
  ExecutionStatus, wait, running, success, failed, dispatch_failed, is_terminal, can_transit_to,
  Edge, start, wait_success, wait_failed, wait_dispatch_failed, finish, fail, Reach, here, next,
}

edge_of : (s t : ExecutionStatus) → can_transit_to s t ≡ true → Edge s t
unfolding can_transit_to
edge_of wait running h = start
edge_of wait success h = wait_success
edge_of wait failed h = wait_failed
edge_of wait dispatch_failed h = wait_dispatch_failed
edge_of running success h = finish
edge_of running failed h = fail
edge_of _ _ h = cc

transit_of : {s t : ExecutionStatus} → Edge s t → can_transit_to s t ≡ true
unfolding can_transit_to
transit_of start = refl
transit_of wait_success = refl
transit_of wait_failed = refl
transit_of wait_dispatch_failed = refl
transit_of finish = refl
transit_of fail = refl

-- CanTransitTo accepts exactly the edges of the diagram.
pub can_transit_to-Edge : (s t : ExecutionStatus) → (can_transit_to s t ≡ true) ↔ Edge s t
can_transit_to-Edge s t = (edge_of s t, transit_of)

-- How far an execution has come.
abbrev pub progress : ExecutionStatus → ℕ
progress wait = 0
progress running = 1
progress _ = 2

Edge-progress : {s t : ExecutionStatus} → Edge s t → progress s < progress t
Edge-progress start = omega arith
Edge-progress wait_success = omega arith
Edge-progress wait_failed = omega arith
Edge-progress wait_dispatch_failed = omega arith
Edge-progress finish = omega arith
Edge-progress fail = omega arith

Reach-progress : {s t : ExecutionStatus} → Reach s t → progress s ≤ progress t
Reach-progress here = omega arith
Reach-progress (next r e) = omega (arith, Reach-progress r, Edge-progress e)

no_edge : {s t : ExecutionStatus} → Edge s t → is_terminal s ≡ true → ⊥
unfolding is_terminal
no_edge start h = cc
no_edge wait_success h = cc
no_edge wait_failed h = cc
no_edge wait_dispatch_failed h = cc
no_edge finish h = cc
no_edge fail h = cc

terminal_stays : {s t : ExecutionStatus} → is_terminal s ≡ true → Reach s t → t ≡ s
terminal_stays h here = refl
terminal_stays {s} h (next {t} r e) = absurd (no_edge e (rw (terminal_stays h r) h))

pub edge_first : {s t u : ExecutionStatus} → Edge s t → Reach t u → Reach s u
edge_first e here = next here e
edge_first e (next r f) = next (edge_first e r) f

-- A status that is reached never lies behind, and nothing leaves a terminal status.
pub Reach-forward :
    {s t : ExecutionStatus} → Reach s t → (progress s ≤ progress t) × (is_terminal s ≡ true → t ≡ s)
Reach-forward r = (Reach-progress r, λ h. terminal_stays h r)
