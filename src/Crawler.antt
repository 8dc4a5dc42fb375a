-- ===== src/Crawler.antt =====
-- agent/crawler: the crawl engine of the agent.
pub mod Config
pub mod Pagination
pub mod Engine
pub mod Links
pub mod Worker
pub mod Frontier
