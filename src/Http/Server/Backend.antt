-- ===== src/Http/Server/Backend.antt =====
-- The vtable of src/http_server_backend/dumb.c: `dumb_create`, `dumb_destroy`, `dumb_set_handler` and
-- the sockets that `dumb_run` and `dumb_stop` open and close; and the laws it keeps.
use pg_what_is_happening.Base.{
  ℕ, ◌+◌, ◌-◌, ◌≡◌, refl, ◌∙◌, Bool, true, false, ◌&&◌, Option, none, some, List, [], arith,
  if◌then◌else◌, Bytes,
}
use pg_what_is_happening.Memory.{Slots}
use pg_what_is_happening.Metrics.Format.{Printf}
use pg_what_is_happening.Http.Address.{dumb_port}
use pg_what_is_happening.Http.Dumb.{Handles, Sent}
use pg_what_is_happening.Http.Vtable.{Resources, Mallocs, HttpServerVtable, HttpServerLaws}
use pg_what_is_happening.Http.Server.{
  DumbHttpServer, SocketResults, Event, DumbRun, is_stop, accept_loop, accept_loop-waits,
  dumb_serve, dumb_run, dumb_stop,
}

abbrev pub dumb_created : {F : Type 0} → Bytes → DumbHttpServer F
dumb_created listen_addr = record {
  port = dumb_port listen_addr;
  listen_open = false;
  is_running = false;
  handler_fn = none;
}

-- Of the first block, nothing is left when there is no memory for the second.
unfoldable pub dumb_create :
    {F : Type 0} → Mallocs → Bytes → Resources → Option (DumbHttpServer F) × Resources
dumb_create m listen_addr res =
    if m.server_ok
    then if m.impl_ok
      then (some (dumb_created listen_addr), record res { blocks = res.blocks + 2 })
      else (none, record res { blocks = res.blocks + 1 - 1 })
    else (none, res)

abbrev pub open_sockets : Bool → ℕ
open_sockets listen_open = if listen_open then 1 else 0

-- It closes the socket if it is open, and frees the two blocks.
unfoldable pub dumb_destroy : {F : Type 0} → DumbHttpServer F → Resources → Resources
dumb_destroy impl res = record res {
  sockets = res.sockets - open_sockets impl.listen_open;
  blocks = res.blocks - 2;
}

abbrev pub dumb_set_handler : {F : Type 0} → Handles F → DumbHttpServer F → DumbHttpServer F
dumb_set_handler handler impl = record impl { handler_fn = some handler }

-- `dumb_run` overwrites `listen_fd`, so that it adds the socket that it leaves open.
abbrev pub run_sockets : {F : Type 0} → DumbRun F → Resources → DumbRun F × Resources
run_sockets r res = (r, record res { sockets = res.sockets + open_sockets r.server.listen_open })

abbrev pub dumb_vtable : {F : Type 0} → Printf → HttpServerVtable F
dumb_vtable {F} p = record {
  Impl = DumbHttpServer F;
  Start = SocketResults;
  Input = Event;
  Answer = Option Sent;
  create_fn = dumb_create;
  destroy_fn = dumb_destroy;
  set_handler_fn = dumb_set_handler;
  run_fn = λ sys impl events slots res. run_sockets (dumb_run p sys impl events slots) res;
  stop_fn = λ impl res.
      (dumb_stop impl, record res { sockets = res.sockets - open_sockets impl.listen_open });
}

-- The three system calls succeed.
abbrev pub all_ok : SocketResults → Bool
all_ok sys = sys.socket_ok && sys.bind_ok && sys.listen_ok

abbrev pub dumb_started : {F : Type 0} → DumbHttpServer F → DumbHttpServer F
dumb_started impl = record impl { is_running = true; listen_open = true }

pub add_sub : (n k : ℕ) → n + k - k ≡ n
add_sub n k = omega arith

module _ {F : Type 0} (p : Printf) where
  pub dumb_run-fails :
      (sys : SocketResults) (impl : DumbHttpServer F) (events : List Event) (slots : Slots F)
      → all_ok sys ≡ false
      → (dumb_run p sys impl events slots).result ≡ some false
  unfolding dumb_run
  dumb_run-fails sys impl events slots h = ground arith

  pub dumb_run-started :
      (sys : SocketResults) (impl : DumbHttpServer F) (events : List Event) (slots : Slots F)
      → all_ok sys ≡ true
      → dumb_run p sys impl events slots ≡ accept_loop p (dumb_started impl) events [] slots
  unfolding dumb_run
  dumb_run-started sys impl events slots h = ground arith

  pub dumb_create-fails :
      (m : Mallocs) (listen_addr : Bytes) (res : Resources)
      → (m.server_ok && m.impl_ok) ≡ false
      → dumb_create {F = F} m listen_addr res ≡ (none, res)
  unfolding dumb_create
  dumb_create-fails m listen_addr res h = rw (add_sub res.blocks 1) (ground arith)

  pub dumb_create-dumb_created :
      (m : Mallocs) (listen_addr : Bytes) (res : Resources)
      → (m.server_ok && m.impl_ok) ≡ true
      → dumb_create m listen_addr res
        ≡ (some (dumb_created {F = F} listen_addr), record res { blocks = res.blocks + 2 })
  unfolding dumb_create
  dumb_create-dumb_created m listen_addr res h = ground arith

  pub dumb_destroy-run :
      (r : DumbRun F) (res : Resources)
      → dumb_destroy r.server (run_sockets r (record res { blocks = res.blocks + 2 })).1 ≡ res
  unfolding dumb_destroy
  dumb_destroy-run r res =
      rw (add_sub res.blocks 2, add_sub res.sockets (open_sockets r.server.listen_open)) refl

  -- The plain server keeps the laws of a backend.
  abbrev pub dumb_laws : HttpServerLaws (dumb_vtable {F = F} p)
  dumb_laws = record {
    fresh = dumb_created;
    held = λ res. record res { blocks = res.blocks + 2 };
    starts = λ sys listen_addr. all_ok sys;
    running = dumb_started;
    is_stop = is_stop;
    serve = λ handler. dumb_serve p (some handler);
    create-fails = dumb_create-fails;
    create-fresh = dumb_create-dumb_created;
    run-fails = λ listen_addr handler sys events slots res h.
        dumb_run-fails sys (dumb_set_handler handler (dumb_created listen_addr)) events slots h;
    run-waits = λ listen_addr handler sys events slots res h stops.
        dumb_run-started sys (dumb_set_handler handler (dumb_created listen_addr)) events slots h
        ∙ accept_loop-waits p (dumb_started (dumb_set_handler handler (dumb_created listen_addr)))
            events [] slots refl stops;
    destroy-balanced = λ listen_addr handler sys events slots res r e. rw⁻¹ e (
        dumb_destroy-run
          (dumb_run p sys (dumb_set_handler handler (dumb_created listen_addr)) events slots) res);
  }
