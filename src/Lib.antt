-- ===== src/Lib.antt =====
-- pg_what_is_happening, a PostgreSQL extension that shows the plan nodes of running queries: the
-- slots in shared memory, the executor hooks and the signal handler that fill them, and the SQL
-- view and the HTTP endpoint that show them.
--
-- How the parts interact. Each tracked query has a slot in shared memory. The start hook of the
-- executor claims it and sets up one element for each plan node; SIGUSR2 makes the backend read its
-- instrumentation into these elements; the end hook, the abort callback and the exit callback give
-- the slot back. The exporter's request handler removes the slots of processes that are gone,
-- signals the others, waits, and formats all slots as text of the exposition format. The view returns one row
-- for each node.
--
-- - Base: Boolean tests and lists over the native numbers; texts as lists of bytes. Doubles: the type
--   double is a parameter with the operations that the program uses.
-- - Tags: src/compatibility.c and src/compatibility/15-18.h, the names of node tags.
-- - Compat: src/compatibility.h, which header of src/compatibility a version takes, and what differs
--   between them: the node names, the plan's query id, the lock macros, the set-up of the lock, the
--   request for memory and pqsignal. Gucs: src/gucs.c and src/gucs.h. Init: _PG_init, _PG_fini and the registered worker.
-- - Memory: src/shared_memory.c and src/shared_memory.h. The array of slots is a list; a C pointer to a
--   slot is its index, NULL is none. Layout has the sizes and offsets, Startup the hooks that create the
--   memory, Race the claims of several backends at once; Tally is the abstract view of the
--   array, a pool of places, and Progress what a cleanup makes possible.
-- - Walker: src/plan_tree_walker.c. The tree of PlanState nodes is a data type with the children that
--   the walk visits; a visitor is a function on a context.
-- - Metrics: src/metrics.c and src/metrics.h. A FormatterBuffer has the bytes written so far. Scrape is
--   a reader of the exposition format, which stands for the scraper; it goes over the text once.
-- - Status: v1_status_f of src/pg_what_is_happening.c; each call takes and leaves a cursor;
--   Changing is the calls while the slots change between them.
-- - QueryId: pwh_hash_djb2 of src/common.h, pwh_compute_query_id and get_query_id.
-- - Signal: src/signal_handler.c; Signal/Reads is what a signal reads into a slot, described by the
--   preorder of the plan tree. Hooks: the hooks and callbacks of src/pg_what_is_happening.c, and in
--   Hooks/World all backends as a step relation on the slots, a complete call being one step;
--   Hooks/Refine maps it to the pool, Hooks/Session is one backend over time, and Hooks/Interrupt is
--   the start hook write by write, with signals between the writes, and Hooks/Ending the end hook.
-- - Locking: the calls of the lock macros that each hook, callback and handler makes, and the
--   processes of a server that make them, one call of the lock being one step.
-- - Http: src/http_server.c, check_listen_address of src/gucs.c, the request handler of
--   src/bg_worker.c, and the servers src/http_server_backend/dumb.c and
--   src/http_server_backend/mongoose.c. Http/Vtable is the interface of a server with its laws, which
--   Http/Server/Backend and Http/Mongoose/Laws fill; Http/Dumb/Whole and Http/Dumb/Overflow are an
--   answer that the plain server's buffer has room for, and a longer one. A server's
--   loop takes what happens to it as a list.
-- - Worker: pwh_bgworker_main and handle_sigterm of src/bg_worker.c, over any server that keeps the
--   laws; Plain and Mongoose are the worker over each, and Freshness is the request handler together
--   with the signal handlers of the backends; Scraped is what a scraper reads in its answer.
-- - Tests: the theorems at concrete inputs.
--
-- The only fuel is in Status.all_calls and Status.Changing.all_calls_over, the executor's calls of
-- the view's function: one more than the number of rows is enough, or than the number of places for
-- a row. All other loops are recursions on the list or the tree that they go through.
--
-- Parameters: what kill answers, when LWLockAcquire waits, how malloc and the socket calls end, at which addresses the
-- mongoose library can listen and what it finds on its sockets, PostgreSQL's checked size
-- arithmetic, ExecutorStart of PostgreSQL or a previous hook, the printing of integers, the
-- operations on double, and what the signalled backends do to the slots while a request waits.
-- Integers of the C types are natural numbers with the wrap-around written out where it can occur;
-- a negative number is its bit pattern. Outside Compat the code is that for PostgreSQL 15 to 18.
--
-- Not modelled: logging, the sockets themselves, the memory that the requests allocate and free, check_stack_depth
-- and the other errors within PostgreSQL save as outcomes, the vendored mongoose library, the SQL
-- scripts, reads beyond the metrics array for a count that is larger than it,
-- and of the headers for other versions of PostgreSQL the macros that only rename a call.
pub mod Base
pub mod Tags
pub mod Doubles
pub mod Memory
pub mod Walker
pub mod Metrics
pub mod Status
pub mod QueryId
pub mod Signal
pub mod Hooks
pub mod Http
pub mod Worker
pub mod Compat
pub mod Gucs
pub mod Init
pub mod Locking
pub mod Tests
