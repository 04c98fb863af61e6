-- ===== src/Http.antt =====
-- The HTTP exporter: src/http_server.c with its two backends, and src/bg_worker.c.
pub mod Address
pub mod Request
pub mod Response
pub mod Handler
pub mod Dumb
pub mod Vtable
pub mod Server
pub mod Mongoose
pub mod Body
