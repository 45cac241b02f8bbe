-- ===== src/Crawler.antt =====
-- The crawler under src/.
pub mod Contract
pub mod Browser
pub mod Config
pub mod Discovery
pub mod Feeds
pub mod RateLimiter
pub mod HttpSource
pub mod Robots
pub mod Url
pub mod Extractors
pub mod Pipeline
pub mod Outputs
pub mod Run
pub mod Records
mod Tests
