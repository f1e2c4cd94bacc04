-- ===== src/Rabbit.antt =====
-- The publisher of internal/infrastructure/mq/rabbitmq/executor_client.go. A channel of the pool is
-- what its library makes of it: which sequence number a publication gets, and which events arrive.
pub mod Confirms
pub mod BatchRun
pub mod Pool
