-- ===== src/Crawler/Extractors.antt =====
-- The extractors of src/extractors.
pub mod JsonLd
pub mod Indicators
pub mod Pages
