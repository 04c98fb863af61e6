-- ===== src/Http/Vtable.antt =====
-- `HttpServerVtable` of src/http_server.h, the calls that src/http_server.c makes through it, and the
-- laws that a backend keeps.
use pg_what_is_happening.Base.{
  ℕ, ◌≡◌, Bool, true, false, ◌&&◌, Option, none, some, List, [], ◌∷◌, ◌++◌, Bytes, All,
}
use pg_what_is_happening.Memory.{Slots}
use pg_what_is_happening.Http.Dumb.{Handles}

-- What a process holds: blocks from `malloc`, managers of the mongoose library, listening sockets.
pub record Resources : Type 0 where
  pub blocks : ℕ
  pub managers : ℕ
  pub sockets : ℕ

-- How the two calls of `malloc` in a `createFn` end.
pub record Mallocs : Type 0 where
  pub server_ok : Bool
  pub impl_ok : Bool

-- How a run ends: with the result of a `runFn`, `some true` for 0 and `some false` for -1; or not
-- yet, when it waits for its next input. With the answers that it sent, the slots and the server.
pub record Run (F Impl Answer : Type 0) : Type 0 where
  pub result : Option Bool
  pub sent : List Answer
  pub slots : Slots F
  pub server : Impl

-- The function pointers, with the backend's types: its data; how the system calls that start it end;
-- what can happen while it runs; what it sends.
pub record HttpServerVtable (F : Type 0) : Type 1 where
  pub Impl : Type 0
  pub Start : Type 0
  pub Input : Type 0
  pub Answer : Type 0
  pub create_fn : Mallocs → Bytes → Resources → Option Impl × Resources
  pub destroy_fn : Impl → Resources → Resources
  pub set_handler_fn : Handles F → Impl → Impl
  pub run_fn : Start → Impl → List Input → Slots F → Resources → Run F Impl Answer × Resources
  pub stop_fn : Impl → Resources → Impl × Resources

-- `choose_backend` gives the vtable of the backend that is linked in, here a parameter; it is never
-- NULL.
module _ {F : Type 0} (vtable : HttpServerVtable F) where
  abbrev pub http_server_create : Mallocs → Bytes → Resources → Option vtable.Impl × Resources
  http_server_create = vtable.create_fn

  abbrev pub http_server_destroy : vtable.Impl → Resources → Resources
  http_server_destroy = vtable.destroy_fn

  abbrev pub http_server_set_handler : Handles F → vtable.Impl → vtable.Impl
  http_server_set_handler = vtable.set_handler_fn

  abbrev pub http_server_run :
      vtable.Start
      → vtable.Impl
      → List vtable.Input
      → Slots F
      → Resources
      → Run F vtable.Impl vtable.Answer × Resources
  http_server_run = vtable.run_fn

  abbrev pub http_server_stop : vtable.Impl → Resources → vtable.Impl × Resources
  http_server_stop = vtable.stop_fn

-- What one input alone makes a backend do: the answers it sends, and the slots.
abbrev pub Serves : (F Input Answer : Type 0) → Type 0
Serves F Input Answer = Input → Slots F → List Answer × Slots F

-- Each input alone, in order, on the slots that the one before left.
abbrev pub serve_all :
    {F Input Answer : Type 0} → Serves F Input Answer → List Input → Slots F → List Answer × Slots F
serve_all serve [] slots = ([], slots)
serve_all serve (i ∷ inputs) slots =
    let first = serve i slots in
    let rest = serve_all serve inputs first.1 in (first.0 ++ rest.0, rest.1)

-- A run that has not returned.
abbrev pub waiting : {F Impl Answer : Type 0} → Impl → List Answer × Slots F → Run F Impl Answer
waiting server served = record { result = none; sent = served.0; slots = served.1; server = server }

-- A server that is given a handler, and then run.
abbrev pub run_with :
    {F : Type 0}
    → (vtable : HttpServerVtable F) → vtable.Impl
    → Handles F
    → vtable.Start
    → List vtable.Input
    → Slots F
    → Resources
    → Run F vtable.Impl vtable.Answer × Resources
run_with vtable impl handler start =
    http_server_run vtable start (http_server_set_handler vtable handler impl)

-- What a client of a backend may rely on, for a server that was created and given a handler. `fresh`
-- is the server that is created and `held` what it holds, `starts` tells whether it can start,
-- `running` what becomes of it then; `is_stop` tells which inputs are a call of `stopFn`.
pub record HttpServerLaws {F : Type 0} (vtable : HttpServerVtable F) : Type 1 where
  pub fresh : Bytes → vtable.Impl
  pub held : Resources → Resources
  pub starts : vtable.Start → Bytes → Bool
  pub running : vtable.Impl → vtable.Impl
  pub is_stop : vtable.Input → Bool
  pub serve : Handles F → Serves F vtable.Input vtable.Answer
  pub create-fails :
      (m : Mallocs) (listen_addr : Bytes) (res : Resources)
      → (m.server_ok && m.impl_ok) ≡ false
      → http_server_create vtable m listen_addr res ≡ (none, res)
  pub create-fresh :
      (m : Mallocs) (listen_addr : Bytes) (res : Resources)
      → (m.server_ok && m.impl_ok) ≡ true
      → http_server_create vtable m listen_addr res ≡ (some (fresh listen_addr), held res)
  pub run-fails :
      (listen_addr : Bytes) (handler : Handles F) (start : vtable.Start)
      (inputs : List vtable.Input) (slots : Slots F) (res : Resources)
      → starts start listen_addr ≡ false
      → (run_with vtable (fresh listen_addr) handler start inputs slots res).0.result ≡ some false
  pub run-waits :
      (listen_addr : Bytes) (handler : Handles F) (start : vtable.Start)
      (inputs : List vtable.Input) (slots : Slots F) (res : Resources)
      → starts start listen_addr ≡ true
      → All (λ i. is_stop i ≡ false) inputs
      → (run_with vtable (fresh listen_addr) handler start inputs slots res).0
        ≡ waiting
            (running (http_server_set_handler vtable handler (fresh listen_addr)))
            (serve_all (serve handler) inputs slots)
  pub destroy-balanced :
      (listen_addr : Bytes) (handler : Handles F) (start : vtable.Start)
      (inputs : List vtable.Input) (slots : Slots F) (res : Resources)
      (r : Run F vtable.Impl vtable.Answer × Resources)
      → run_with vtable (fresh listen_addr) handler start inputs slots (held res) ≡ r
      → http_server_destroy vtable r.0.server r.1 ≡ res
