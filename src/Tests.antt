-- ===== src/Tests.antt =====
-- Concrete runs of the model, and the theorems at concrete inputs.
mod CacheRuns
mod StorageRuns
mod SmallRuns
mod QueueRuns
mod RedisServer
mod RedisRuns
mod ServiceRuns
mod AuditRuns
