-- ===== src/Auth.antt =====
-- auth_checker/: SPF, DMARC with identifier alignment, the sender baseline, and the auth verdict.
pub mod Models
pub mod Resolver
pub mod Spf
pub mod Dmarc
pub mod Baseline
pub mod Scoring
mod Tests
