-- ===== src/Domain.antt =====
-- The domain layer, execution-engine/internal/domain: value objects, entities, errors and the
-- domain service.
pub mod Status
pub mod Errs
pub mod Entity
pub mod Service
pub mod Batch
pub mod Lifecycle
