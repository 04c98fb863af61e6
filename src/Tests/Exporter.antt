-- ===== src/Tests/Exporter.antt =====
-- The background worker over both servers at concrete inputs.
use pg_what_is_happening.Base.{
  ℕ, ◌+◌, ◌≡◌, refl, ◌&&◌, List, true, false, none, some, [], ◌∷◌, ◌++◌, arith, Bytes, codes,
}
use pg_what_is_happening.Http.Address.{check_listen_address, Number}
use pg_what_is_happening.Http.Address.Port.{PortOf}
use pg_what_is_happening.Http.Vtable.{Resources, Mallocs}
use pg_what_is_happening.Http.Server.{SocketResults, Event, client, accept_failed}
use pg_what_is_happening.Http.Server.Backend.{dumb_vtable, dumb_laws}
use pg_what_is_happening.Http.Mongoose.Server.{MgInput, event, poll_returns}
use pg_what_is_happening.Worker.{proc_exit, worker_address, bgworker_main, handle_sigterm}
use pg_what_is_happening.Worker.Outcome.{exit_status, bgworker_main-exit}
use pg_what_is_happening.Worker.Plain.{
  dumb_worker, metrics_server, dumb_served, dumb_worker-sigterm,
}
use pg_what_is_happening.Worker.Mongoose.{
  mongoose_worker, listening, mongoose_served, mongoose_worker-serves,
}
use pg_what_is_happening.Signal.Reads.{read_tree}
use pg_what_is_happening.Http.Request.{HttpRequest}
use pg_what_is_happening.Signal.Reads.{read_tree}
use pg_what_is_happening.Tests.Data.{naturals, printf, slots, kill0, unhandled}

abbrev address : Bytes
address = codes "localhost:9187"

accepted : check_listen_address (some address) ≡ true
unfolding check_listen_address
accepted = refl

abbrev mallocs : Mallocs
mallocs = record { server_ok = true; impl_ok = true }

abbrev nothing_held : Resources
nothing_held = record { blocks = 0; managers = 0; sockets = 0 }

abbrev sockets : SocketResults
sockets = record { socket_ok = true; bind_ok = true; listen_ok = true }

-- The port is taken.
abbrev no_bind : SocketResults
no_bind = record { socket_ok = true; bind_ok = false; listen_ok = true }

abbrev clients : List Event
clients = client (some (codes "GET /metrics HTTP/1.1\r\n")) ∷ accept_failed ∷ client none ∷ []

abbrev polls : List MgInput
polls = event (some (codes "GET", codes "/metrics")) ∷ poll_returns ∷ event none ∷ []

sigterm_example :
    (n : Number) × PortOf address n
    × (handle_sigterm (dumb_vtable printf) (
          dumb_worker naturals printf kill0 unhandled mallocs address sockets clients slots
            nothing_held)
        ≡ record {
          http_server_instance =
              some (metrics_server naturals printf kill0 unhandled n.magnitude false);
          exit = some (proc_exit 0);
          sent = (dumb_served naturals printf kill0 unhandled clients slots).0;
          slots = (dumb_served naturals printf kill0 unhandled clients slots).1;
          resources = record nothing_held { blocks = nothing_held.blocks + 2 };
        })
sigterm_example =
    dumb_worker-sigterm naturals printf kill0 unhandled mallocs address sockets clients slots
      nothing_held accepted refl refl (refl, (refl, (refl, tt)))

exit_example :
    (bgworker_main
      (dumb_vtable printf)
      naturals
      printf
      kill0
      unhandled
      mallocs
      address
      no_bind
      clients
      slots
      nothing_held).exit
    ≡ exit_status
        (mallocs.server_ok && mallocs.impl_ok)
        ((dumb_laws {F = ℕ} printf).starts no_bind (worker_address address))
exit_example =
    bgworker_main-exit (dumb_laws printf) naturals printf kill0 unhandled mallocs address no_bind
      clients slots nothing_held (refl, (refl, (refl, tt)))

mongoose_worker_example :
    mongoose_worker naturals printf kill0 unhandled mallocs address
      (λ a. true)
      polls
      slots
      nothing_held
    ≡ record {
      http_server_instance =
          some (listening naturals printf kill0 unhandled (codes "http://" ++ address));
      exit = none;
      sent = (mongoose_served naturals printf kill0 unhandled polls slots).0;
      slots = (mongoose_served naturals printf kill0 unhandled polls slots).1;
      resources = record {
        blocks = nothing_held.blocks + 2;
        managers = nothing_held.managers + 1;
        sockets = nothing_held.sockets + 1;
      };
    }
mongoose_worker_example =
    mongoose_worker-serves naturals printf kill0 unhandled mallocs address (λ a. true) polls slots
      nothing_held accepted (omega arith) refl refl (refl, (refl, (refl, tt)))

abbrev get_metrics : HttpRequest
get_metrics = record { method = codes "GET"; path = codes "/metrics"; version = codes "HTTP/1.1" }
