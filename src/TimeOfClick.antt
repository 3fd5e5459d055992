-- ===== src/TimeOfClick.antt =====
-- time_of_click/: signed links that are checked when they are clicked.
pub mod Rewriter
pub mod Service
mod Tests
