-- ===== src/Http/Mongoose/Server.antt =====
-- The server of src/http_server_backend/mongoose.c: its vtable and its event loop. What the
-- mongoose library finds on its sockets is the input of a run.
use pg_what_is_happening.Base.{
  ℕ, ◌+◌, ◌-◌, Bool, true, false, Option, none, some, List, [], ◌∷◌, ◌++◌, if◌then◌else◌, Bytes,
}
use pg_what_is_happening.Memory.{Slots}
use pg_what_is_happening.Http.Dumb.{Handles}
use pg_what_is_happening.Http.Vtable.{Resources, Mallocs, Run, HttpServerVtable, Serves}
use pg_what_is_happening.Http.Mongoose.{MgReply, listen_address, mongoose_event_handler}

-- `MongooseHttpServer`; of the manager `mgr`, how many listening connections it has. `connection` is
-- whether the pointer is not NULL. The context is not used.
pub record MongooseHttpServer (F : Type 0) : Type 0 where
  pub mgr : ℕ
  pub connection : Bool
  pub listen_addr : Bytes
  pub is_running : Bool
  pub handler_fn : Option (Handles F)

-- What happens to a server that runs: an event within `mg_mgr_poll`, with the strings of the method
-- and the path if it is `MG_EV_HTTP_MSG`; the return of `mg_mgr_poll`; or `mongoose_stop` in a signal
-- handler.
pub data MgInput : Type 0 where
  event : Option (Bytes × Bytes) → MgInput
  poll_returns : MgInput
  stop : MgInput

abbrev pub is_stop : MgInput → Bool
is_stop stop = true
is_stop (event e) = false
is_stop poll_returns = false

abbrev pub replies : Option MgReply → List MgReply
replies none = []
replies (some r) = r ∷ []

abbrev pub mongoose_created : {F : Type 0} → Bytes → MongooseHttpServer F
mongoose_created addr = record {
  mgr = 0;
  connection = false;
  listen_addr = listen_address addr;
  is_running = false;
  handler_fn = none;
}

abbrev pub acquired : Resources → Resources
acquired res = record res { blocks = res.blocks + 2; managers = res.managers + 1 }

unfoldable pub mongoose_create :
    {F : Type 0} → Mallocs → Bytes → Resources → Option (MongooseHttpServer F) × Resources
mongoose_create m addr res =
    if m.server_ok
    then if m.impl_ok
      then (some (mongoose_created addr), acquired res)
      else (none, record res { blocks = res.blocks + 1 - 1 })
    else (none, res)

-- `mg_mgr_free` closes the connections of the manager.
unfoldable pub mongoose_destroy : {F : Type 0} → MongooseHttpServer F → Resources → Resources
mongoose_destroy impl res = record {
  blocks = res.blocks - 2;
  managers = res.managers - 1;
  sockets = res.sockets - impl.mgr;
}

abbrev pub mongoose_set_handler :
    {F : Type 0} → Handles F → MongooseHttpServer F → MongooseHttpServer F
mongoose_set_handler handler impl = record impl { handler_fn = some handler }

unfoldable pub mongoose_stop : {F : Type 0} → MongooseHttpServer F → MongooseHttpServer F
mongoose_stop impl = record impl { is_running = false }

abbrev pub MgRun : Type 0 → Type 0
MgRun F = Run F (MongooseHttpServer F) MgReply

module _ {F : Type 0} where
  abbrev pub left : Option Bool → MongooseHttpServer F → List MgReply → Slots F → MgRun F
  left result impl sent slots = record {
    result = result;
    sent = sent;
    slots = slots;
    server = impl;
  }

  -- The loop. `is_running` is tested when a poll returns, so that the events of a poll are answered
  -- also after a stop.
  unfoldable pub poll_loop : MongooseHttpServer F → List MgInput → List MgReply → Slots F → MgRun F
  poll_loop impl [] sent slots = left none impl sent slots
  poll_loop impl (event e ∷ inputs) sent slots =
      let r = mongoose_event_handler impl.handler_fn e slots in
      poll_loop impl inputs (sent ++ replies r.0) r.1
  poll_loop impl (poll_returns ∷ inputs) sent slots =
      let after = poll_loop impl inputs sent slots in
      if impl.is_running then after else left (some true) impl sent slots
  poll_loop impl (stop ∷ inputs) sent slots = poll_loop (mongoose_stop impl) inputs sent slots

  abbrev pub mongoose_started : MongooseHttpServer F → MongooseHttpServer F
  mongoose_started impl = record impl { mgr = impl.mgr + 1; connection = true; is_running = true }

  -- `listens` tells at which addresses `mg_http_listen` gives a connection.
  unfoldable pub mongoose_run :
      (Bytes → Bool)
      → MongooseHttpServer F
      → List MgInput
      → Slots F
      → Resources
      → MgRun F × Resources
  mongoose_run listens impl inputs slots res =
      if listens impl.listen_addr
      then (
        poll_loop (mongoose_started impl) inputs [] slots,
        record res { sockets = res.sockets + 1 },
      )
      else (left (some false) (record impl { connection = false }) [] slots, res)

  abbrev pub mongoose_vtable : HttpServerVtable F
  mongoose_vtable = record {
    Impl = MongooseHttpServer F;
    Start = Bytes → Bool;
    Input = MgInput;
    Answer = MgReply;
    create_fn = mongoose_create;
    destroy_fn = mongoose_destroy;
    set_handler_fn = mongoose_set_handler;
    run_fn = mongoose_run;
    stop_fn = λ impl res. (mongoose_stop impl, res);
  }

  abbrev pub mongoose_serve : Option (Handles F) → Serves F MgInput MgReply
  mongoose_serve h (event e) slots = let r = mongoose_event_handler h e slots in (replies r.0, r.1)
  mongoose_serve h poll_returns slots = ([], slots)
  mongoose_serve h stop slots = ([], slots)
