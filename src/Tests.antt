-- ===== src/Tests.antt =====
-- The theorems at concrete inputs, and tests of the definitions.
mod Memory
mod DomainExamples
mod ChunkExamples
mod SingleExamples
mod RelayExamples
mod RabbitExamples
mod GrpcExamples
mod StreamExamples
mod MysqlExamples
mod PoolExamples
mod Tables
mod RepositoryExamples
mod GroupExamples
mod Stores
mod ServerExamples
mod RetryExamples
