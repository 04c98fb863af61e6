-- ===== src/Worker/Plain.antt =====
-- The worker of src/bg_worker.c over src/http_server_backend/dumb.c, for a listen address that
-- the check of src/gucs.c accepts.
use pg_what_is_happening.Base.{
  ℕ, ◌+◌, ◌≡◌, refl, ap, ◌∙◌, Bool, true, false, ◌&&◌, Option, none, some, List, [], ◌∷◌, Bytes,
  All,
}
use pg_what_is_happening.Doubles.{Doubles}
use pg_what_is_happening.Memory.{Slots, KillResult}
use pg_what_is_happening.Metrics.Format.{Printf}
use pg_what_is_happening.Http.Address.{Number, check_listen_address, dumb_port}
use pg_what_is_happening.Http.Address.Port.{PortOf, dumb_port-check}
use pg_what_is_happening.Http.Dumb.{Sent}
use pg_what_is_happening.Http.Handler.{Signals, metrics_handler}
use pg_what_is_happening.Http.Vtable.{Resources, Mallocs, serve_all}
use pg_what_is_happening.Http.Server.{
  DumbHttpServer, SocketResults, Event, dumb_stop, is_stop, dumb_serve,
}
use pg_what_is_happening.Http.Server.Backend.{all_ok, dumb_vtable, dumb_laws, add_sub}
use pg_what_is_happening.Worker.{proc_exit, Worker, worker_address, bgworker_main, handle_sigterm}
use pg_what_is_happening.Worker.Outcome.{bgworker_main-serves}

pub worker_address-check : (v : Bytes) → check_listen_address (some v) ≡ true → worker_address v ≡ v
unfolding worker_address check_listen_address
worker_address-check [] h = cc
worker_address-check (c ∷ v) h = refl

module _ {F : Type 0} (d : Doubles F) (p : Printf) (kill0 : ℕ → KillResult)
    (signalled : Signals F) where
  abbrev pub dumb_worker :
      Mallocs
      → Bytes
      → SocketResults
      → List Event
      → Slots F
      → Resources
      → Worker (dumb_vtable {F = F} p)
  dumb_worker = bgworker_main (dumb_vtable p) d p kill0 signalled

  -- The plain server on a port, with the metrics handler.
  abbrev pub metrics_server : ℕ → Bool → DumbHttpServer F
  metrics_server port is_open = record {
    port = port;
    listen_open = is_open;
    is_running = is_open;
    handler_fn = some (metrics_handler d p kill0 signalled);
  }

  abbrev pub dumb_served : List Event → Slots F → List (Option Sent) × Slots F
  dumb_served = serve_all (dumb_serve p (some (metrics_handler d p kill0 signalled)))

  dumb_worker-serves :
      (m : Mallocs) (v : Bytes) (sys : SocketResults) (events : List Event) (slots : Slots F)
      (res : Resources)
      → (m.server_ok && m.impl_ok) ≡ true
      → all_ok sys ≡ true
      → All (λ e. is_stop e ≡ false) events
      → dumb_worker m v sys events slots res ≡ record {
        http_server_instance = some (metrics_server (dumb_port (worker_address v)) true);
        exit = none;
        sent = (dumb_served events slots).0;
        slots = (dumb_served events slots).1;
        resources = record res { blocks = res.blocks + 2; sockets = res.sockets + 1 };
      }
  dumb_worker-serves m v sys events slots res h ok stops =
      bgworker_main-serves (dumb_laws p) d p kill0 signalled m v sys events slots res h ok stops
      ∙ rw
          (ap (λ r. r.server.listen_open)
            ((dumb_laws p).run-waits (worker_address v) (metrics_handler d p kill0 signalled) sys
              events slots res ok stops))
          refl

  -- Over the plain server, with a listen address that the setting's check accepts, a worker whose
  -- calls of the system succeed serves until SIGTERM comes, and then exits with code 0: it has
  -- answered, on the port that the address names, each client that came, in order, on the slots that
  -- the answer before left; and its socket is closed.
  pub dumb_worker-sigterm :
      (m : Mallocs) (v : Bytes) (sys : SocketResults) (events : List Event) (slots : Slots F)
      (res : Resources)
      → check_listen_address (some v) ≡ true
      → (m.server_ok && m.impl_ok) ≡ true
      → all_ok sys ≡ true
      → All (λ e. is_stop e ≡ false) events
      → (n : Number) × PortOf v n
        × (handle_sigterm (dumb_vtable p) (dumb_worker m v sys events slots res) ≡ record {
          http_server_instance = some (metrics_server n.magnitude false);
          exit = some (proc_exit 0);
          sent = (dumb_served events slots).0;
          slots = (dumb_served events slots).1;
          resources = record res { blocks = res.blocks + 2 };
        })
  unfolding handle_sigterm dumb_stop
  dumb_worker-sigterm m v sys events slots res accepted h ok stops =
      let (n, port_of, port) = dumb_port-check v accepted in
      (
        n,
        port_of,
        ap (handle_sigterm (dumb_vtable p)) (dumb_worker-serves m v sys events slots res h ok stops)
            ∙ rw (worker_address-check v accepted, port, add_sub res.sockets 1) refl,
      )
