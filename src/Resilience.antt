-- ===== src/Resilience.antt =====
-- resilience/: what wraps every call of an external service.
pub mod CircuitBreaker
pub mod Retry
mod Tests
