-- ===== src/Domain/Entity.antt =====
-- internal/domain/entity and the value object internal/domain/vo/batch_result.go.
mod Record
mod Outbox
unfoldable pub use Record.*
unfoldable pub use Outbox.*
