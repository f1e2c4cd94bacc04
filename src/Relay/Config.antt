-- ===== src/Relay/Config.antt =====
-- The settings of the use cases: the two withDefaults of internal/usecase/outbox_relay.go and
-- dispatch_app_service.go. A duration counts nanoseconds.
use case_execution.Prelude.{ℕ, ◌≡◌, false, ℤ, pos, non_positive, arith, if◌then◌else◌, ◌<◌}

abbrev pub or_default : ℤ → ℕ → ℤ
or_default x d = if non_positive x then pos d else x

pub record OutboxRelayConfig : Type 0 where
  pub poll_interval : ℤ
  pub batch_size : ℤ
  pub lease_duration : ℤ
  pub max_attempts : ℤ
  pub initial_backoff : ℤ
  pub max_backoff : ℤ

unfoldable pub relay_defaults : OutboxRelayConfig → OutboxRelayConfig
relay_defaults c = record {
  poll_interval = or_default c.poll_interval 1000000000;
  batch_size = or_default c.batch_size 200;
  lease_duration = or_default c.lease_duration 30000000000;
  max_attempts = or_default c.max_attempts 8;
  initial_backoff = or_default c.initial_backoff 1000000000;
  max_backoff = or_default c.max_backoff 60000000000;
}

pub record DispatchConfig : Type 0 where
  pub batch_size : ℤ
  pub worker_count : ℤ
  pub max_concurrent_batches : ℤ
  pub outbox_fast_path_grace : ℤ

unfoldable pub dispatch_defaults : DispatchConfig → DispatchConfig
dispatch_defaults c = record {
  batch_size = or_default c.batch_size 1000;
  worker_count = or_default c.worker_count 4;
  max_concurrent_batches = or_default c.max_concurrent_batches 8;
  outbox_fast_path_grace = or_default c.outbox_fast_path_grace 10000000000;
}

or_default-positive : (x : ℤ) (d : ℕ) → 0 < d → non_positive (or_default x d) ≡ false
or_default-positive x d h = ground arith
