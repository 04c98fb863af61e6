-- ===== src/Metrics.antt =====
-- src/metrics.h and src/metrics.c: the metrics' names, the columns of the SQL view, and the text of
-- the HTTP endpoint.
pub mod Types
pub mod Columns
pub mod Buffer
pub mod Unescape
pub mod Scrape
pub mod Format
pub mod Text
pub mod Agree
