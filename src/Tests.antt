-- ===== src/Tests.antt =====
-- The theorems at concrete inputs.
pub mod Data
mod Claims
mod Walks
mod Texts
mod Queries
mod Endpoint
mod Exporter
mod Versions
mod Scraper
mod Ending
mod Locking
