-- ===== src/Mysql.antt =====
-- internal/infrastructure/persistence/mysql. GORM and the database are parameters.
pub mod Rows
pub mod Helpers
pub mod Table
pub mod Lease
pub mod Claim
pub mod Executions
pub mod Outbox
pub mod Cases
pub mod Repositories
pub mod Acceptance
pub mod Retry
