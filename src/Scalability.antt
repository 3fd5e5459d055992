-- ===== src/Scalability.antt =====
-- scalability/: the queue between the ingestion and the workers.
pub mod MessageQueue
pub mod Autoscaler
pub mod WorkerPool
mod Tests
