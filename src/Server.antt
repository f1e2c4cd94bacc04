-- ===== src/Server.antt =====
-- The process of cmd/server/main.go.
pub mod Settings
pub mod Run
pub mod Shutdown
