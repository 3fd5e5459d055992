-- ===== src/Delivery.antt =====
-- delivery/: what happens to a message once the decision is made.
pub mod Quarantine
pub mod Relay
pub mod Pipeline
pub mod AutoZap
mod Tests
