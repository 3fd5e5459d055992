-- ===== src/Security.antt =====
-- security/: the guards in front of the webhook.
pub mod RateLimit
pub mod WebhookAuth
pub mod Redact
mod Tests
