-- ===== src/Grpc.antt =====
-- The handlers and the error mapping of internal/infrastructure/grpcserver/handler.go.
pub mod Errors
pub mod Handler
pub mod Streaming
pub mod Server
