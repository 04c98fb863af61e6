-- ===== src/Worker/Mongoose.antt =====
-- The worker of src/bg_worker.c over src/http_server_backend/mongoose.c, for a listen address that
-- the check of src/gucs.c accepts.
use pg_what_is_happening.Base.{
  ℕ, ◌+◌, ◌≤◌, ◌≡◌, refl, ap, ◌∙◌, Bool, true, false, ◌&&◌, none, some, List, ◌++◌, length, Bytes,
  codes, All,
}
use pg_what_is_happening.Doubles.{Doubles}
use pg_what_is_happening.Memory.{Slots, KillResult}
use pg_what_is_happening.Metrics.Format.{Printf}
use pg_what_is_happening.Http.Address.{check_listen_address}
use pg_what_is_happening.Http.Address.Scheme.{listen_address-check}
use pg_what_is_happening.Http.Handler.{Signals, metrics_handler}
use pg_what_is_happening.Http.Vtable.{Resources, Mallocs, serve_all}
use pg_what_is_happening.Http.Mongoose.{MgReply, listen_address}
use pg_what_is_happening.Http.Mongoose.Server.{
  MongooseHttpServer, MgInput, is_stop, mongoose_created, acquired, mongoose_set_handler,
  mongoose_vtable, mongoose_serve,
}
use pg_what_is_happening.Http.Mongoose.Laws.{mongoose_run-started, mongoose_laws}
use pg_what_is_happening.Worker.{Worker, worker_address, bgworker_main}
use pg_what_is_happening.Worker.Outcome.{bgworker_main-serves}
use pg_what_is_happening.Worker.Plain.{worker_address-check}

module _ {F : Type 0} (d : Doubles F) (p : Printf) (kill0 : ℕ → KillResult)
    (signalled : Signals F) where
  abbrev pub mongoose_worker :
      Mallocs
      → Bytes
      → (Bytes → Bool)
      → List MgInput
      → Slots F
      → Resources
      → Worker (mongoose_vtable {F = F})
  mongoose_worker = bgworker_main mongoose_vtable d p kill0 signalled

  -- The server that listens at an address, with the metrics handler.
  abbrev pub listening : Bytes → MongooseHttpServer F
  listening addr = record {
    mgr = 1;
    connection = true;
    listen_addr = addr;
    is_running = true;
    handler_fn = some (metrics_handler d p kill0 signalled);
  }

  abbrev pub mongoose_served : List MgInput → Slots F → List MgReply × Slots F
  mongoose_served = serve_all (mongoose_serve (some (metrics_handler d p kill0 signalled)))

  -- Over the mongoose server, with a listen address of at most 120 bytes that the setting's check
  -- accepts, a worker whose calls of `malloc` succeed, for which the library can listen at the address
  -- behind "http://", serves as long as nothing stops it: it listens at just that address, and has
  -- answered each message in order, on the slots that the answer before left.
  pub mongoose_worker-serves :
      (m : Mallocs) (v : Bytes) (listens : Bytes → Bool) (inputs : List MgInput) (slots : Slots F)
      (res : Resources)
      → check_listen_address (some v) ≡ true
      → length v ≤ 120
      → (m.server_ok && m.impl_ok) ≡ true
      → listens (codes "http://" ++ v) ≡ true
      → All (λ i. is_stop i ≡ false) inputs
      → mongoose_worker m v listens inputs slots res ≡ record {
        http_server_instance = some (listening (codes "http://" ++ v));
        exit = none;
        sent = (mongoose_served inputs slots).0;
        slots = (mongoose_served inputs slots).1;
        resources = record {
          blocks = res.blocks + 2;
          managers = res.managers + 1;
          sockets = res.sockets + 1;
        };
      }
  mongoose_worker-serves m v listens inputs slots res accepted short h ok stops =
      bgworker_main-serves mongoose_laws d p kill0 signalled m v listens inputs slots res h
        (ap listens stored ∙ ok) stops
      ∙ rw
          (
            ap (λ r. r.1)
                (mongoose_run-started listens
                  (mongoose_set_handler (metrics_handler d p kill0 signalled)
                    (mongoose_created (worker_address v)))
                  inputs slots (acquired res) (ap listens stored ∙ ok)),
            stored,
          )
          refl
    where
      stored : listen_address (worker_address v) ≡ codes "http://" ++ v
      stored =
          ap listen_address (worker_address-check v accepted)
          ∙ (listen_address-check v accepted).1 short
