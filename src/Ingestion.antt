-- ===== src/Ingestion.antt =====
-- The queue of ingestion jobs, in Redis and in RabbitMQ: apps/server/internal/knowledge/data/queue.go.
pub mod Queue
pub mod Retries
pub mod Rabbit
pub mod Ledger
pub mod Stuck
pub mod Examples
