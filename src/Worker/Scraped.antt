-- ===== src/Worker/Scraped.antt =====
-- What a scraper reads in the answer of `metrics_handler` (src/bg_worker.c) about the backends that
-- handle their signal meanwhile.
use pg_what_is_happening.Doubles.{Doubles}
