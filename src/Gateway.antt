-- ===== src/Gateway.antt =====
-- webhook_receiver/app.py: the gateway, which runs one message through every stage.
pub mod Bounce
pub mod Process
pub mod Admin
pub mod Malware
pub mod Links
pub mod Webhooks
pub mod Tests
