-- ===== src/Relay/Loop.antt =====
-- Run of internal/usecase/outbox_relay.go.
use case_execution.Relay.Claim.{OutboxRelay}
use case_execution.Relay.Pass.{dispatch_once}
use case_execution.Prelude.{ℕ, List, [], ◌∷◌}

-- What a pass reads from the clock: its time, and those of the transitions.
pub record Clock : Type 0 where
  pub now : ℕ
  pub failed_at : ℕ → ℕ

-- One pass at once, and one at each tick until the context is done; the error of a pass is only logged.
unfoldable pub run : {D Q : Type 0} → OutboxRelay D Q → Clock → List Clock → D → Q → D × Q
unfolding dispatch_once
run relay clock [] d q =
    let (e, d', q') = dispatch_once relay clock.now clock.failed_at d q in (d', q')
run relay clock (tick ∷ ticks) d q =
    let (e, d', q') = dispatch_once relay clock.now clock.failed_at d q in
    run relay tick ticks d' q'
