-- ===== src/Attachments.antt =====
-- attachment_analysis/: the score and the reasons that attachments add to a message.
pub mod Models
pub mod Extensions
pub mod Magic
pub mod Polyglot
pub mod Policy
pub mod Pipeline
pub mod Tests
