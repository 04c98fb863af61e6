-- ===== src/Worker.antt =====
-- The background worker of src/bg_worker.c: `pwh_bgworker_main` and `handle_sigterm`, over whichever
-- backend is linked in. The request handler is Http.Handler.
pub mod Outcome
pub mod Plain
pub mod Mongoose
pub mod Freshness
pub mod Scraped
use pg_what_is_happening.Base.{
  ℕ, Bool, true, false, Option, none, some, List, [], ◌∷◌, Bytes, codes,
}
use pg_what_is_happening.Doubles.{Doubles}
use pg_what_is_happening.Memory.{Slots, KillResult}
use pg_what_is_happening.Metrics.Format.{Printf}
use pg_what_is_happening.Http.Dumb.{Handles}
use pg_what_is_happening.Http.Handler.{Signals, metrics_handler}
use pg_what_is_happening.Http.Vtable.{
  Resources, Mallocs, Run, HttpServerVtable, http_server_create, http_server_destroy,
  http_server_set_handler, http_server_run, http_server_stop,
}

-- How the process ends: after `ereport(FATAL)`, or by `proc_exit` with a code.
pub data ExitStatus : Type 0 where
  fatal : ExitStatus
  proc_exit : ℕ → ExitStatus

-- `HTTP_SERVER_INSTANCE`; how the process has ended, `none` while it is in the server's loop; what it
-- has sent; the slots; what it holds.
pub record Worker {F : Type 0} (vtable : HttpServerVtable F) : Type 0 where
  pub http_server_instance : Option vtable.Impl
  pub exit : Option ExitStatus
  pub sent : List vtable.Answer
  pub slots : Slots F
  pub resources : Resources

-- `listen_addr`.
unfoldable pub worker_address : Bytes → Bytes
worker_address [] = codes "127.0.0.1:9187"
worker_address (c ∷ v) = c ∷ v

module _ {F : Type 0} (vtable : HttpServerVtable F) where
  -- What follows `pwh_http_server_run`. It does not look at the result, and leaves
  -- `HTTP_SERVER_INSTANCE` as it is.
  abbrev pub after_run : Option Bool → Run F vtable.Impl vtable.Answer × Resources → Worker vtable
  after_run none (r, res) = record {
    http_server_instance = some r.server;
    exit = none;
    sent = r.sent;
    slots = r.slots;
    resources = res;
  }
  after_run (some result) (r, res) = record {
    http_server_instance = some r.server;
    exit = some (proc_exit 0);
    sent = r.sent;
    slots = r.slots;
    resources = http_server_destroy vtable r.server res;
  }

  abbrev run_server :
      Handles F
      → vtable.Impl
      → vtable.Start
      → List vtable.Input
      → Slots F
      → Resources
      → Worker vtable
  run_server handler impl start inputs slots res =
      let r =
        http_server_run vtable start (http_server_set_handler vtable handler impl) inputs slots
          res in
      after_run r.0.result r

  abbrev pub with_server :
      Handles F
      → vtable.Start
      → List vtable.Input
      → Slots F
      → Option vtable.Impl × Resources
      → Worker vtable
  with_server handler start inputs slots (none, res) = record {
    http_server_instance = none;
    exit = some fatal;
    sent = [];
    slots = slots;
    resources = res;
  }
  with_server handler start inputs slots (some impl, res) =
      run_server handler impl start inputs slots res

  -- With the setting's value, how the system's calls end, and what the server's loop finds.
  unfoldable pub bgworker_main :
      Doubles F
      → Printf
      → (ℕ → KillResult)
      → Signals F
      → Mallocs
      → Bytes
      → vtable.Start
      → List vtable.Input
      → Slots F
      → Resources
      → Worker vtable
  bgworker_main d p kill0 signalled m setting start inputs slots res =
      with_server (metrics_handler d p kill0 signalled) start inputs slots
        (http_server_create vtable m (worker_address setting) res)

  abbrev worker_stopped : Worker vtable → Option vtable.Impl → Worker vtable
  worker_stopped w none = record w { exit = some (proc_exit 0) }
  worker_stopped w (some impl) =
      let r = http_server_stop vtable impl w.resources in
      record w { http_server_instance = some r.0; exit = some (proc_exit 0); resources = r.1 }

  -- The signal handler, which does not return.
  unfoldable pub handle_sigterm : Worker vtable → Worker vtable
  handle_sigterm w = worker_stopped w w.http_server_instance
