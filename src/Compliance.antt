-- ===== src/Compliance.antt =====
-- compliance/retention.py and compliance/gdpr.py: legal holds, the purge of what is older than its
-- retention period, and the erasure of the data of one person.
pub mod Holds
pub mod Retention
pub mod Gdpr
pub mod Sweep
pub mod Laws
pub mod Erasure
mod Tests
