-- ===== src/Content.antt =====
-- content_analysis/: `analyze_content` of pipeline.py and the checks that it calls, a module each.
pub mod Models
pub mod Homoglyphs
pub mod Keywords
pub mod DisplayName
pub mod Rtl
pub mod HtmlEvasion
pub mod Relationship
pub mod Urls
pub mod VisualBrand
pub mod Caching
pub mod Points
pub mod Pipeline
pub mod Tests
