-- ===== src/Dispatch.antt =====
-- The application layer, execution-engine/internal/usecase.
pub mod Partition
pub mod Ports
pub mod RequestId
pub mod App
pub mod Chunk
pub mod Single
pub mod Stream
