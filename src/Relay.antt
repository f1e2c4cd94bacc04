-- ===== src/Relay.antt =====
-- The outbox relay, internal/usecase/outbox_relay.go: one pass claims messages, publishes them and
-- writes in one transaction what became of each. The loop of Run only repeats the pass.
pub mod Config
pub mod Backoff
pub mod Claim
pub mod Pass
pub mod Loop
