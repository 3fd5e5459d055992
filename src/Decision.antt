-- ===== src/Decision.antt =====
-- decision_engine/: from the scores of the analysis stages to one routing action.
pub mod Models
pub mod AllowBlock
pub mod Vip
pub mod Shadow
pub mod TenantConfig
pub mod Feedback
pub mod Explain
pub mod Scorer
pub mod Campaign
mod Tests
