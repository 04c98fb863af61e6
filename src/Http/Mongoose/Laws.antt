-- ===== src/Http/Mongoose/Laws.antt =====
-- The vtable of src/http_server_backend/mongoose.c keeps the laws of a backend.
use pg_what_is_happening.Base.{
  ℕ, ◌+◌, ◌≡◌, refl, sym, ap, ◌∙◌, append-nil, append_assoc, arith, Bool, true, false, ◌&&◌, Option,
  none, some, List, [], ◌∷◌, ◌++◌, Bytes, All, Bool-cases, inl, inr,
}
use pg_what_is_happening.Memory.{Slots}
use pg_what_is_happening.Http.Vtable.{Resources, Mallocs, HttpServerLaws, serve_all, waiting}
use pg_what_is_happening.Http.Server.Backend.{add_sub}
use pg_what_is_happening.Http.Mongoose.{MgReply, listen_address, mongoose_event_handler}
use pg_what_is_happening.Http.Mongoose.Server.{
  MongooseHttpServer, MgInput, event, poll_returns, stop, is_stop, replies, mongoose_created,
  acquired, MgRun, left, mongoose_create, mongoose_destroy, mongoose_set_handler, mongoose_stop,
  poll_loop, mongoose_started, mongoose_run, mongoose_vtable, mongoose_serve,
}

module _ {F : Type 0} where
  poll_loop-returns :
      (impl : MongooseHttpServer F) (inputs : List MgInput) (sent : List MgReply) (slots : Slots F)
      → impl.is_running ≡ true
      → poll_loop impl (poll_returns ∷ inputs) sent slots ≡ poll_loop impl inputs sent slots
  unfolding poll_loop
  poll_loop-returns impl inputs sent slots run = ground arith

  -- While nothing stops it, the server polls on, and has answered each message in order.
  pub poll_loop-waits :
      (impl : MongooseHttpServer F) (inputs : List MgInput) (sent : List MgReply) (slots : Slots F)
      → impl.is_running ≡ true
      → All (λ i. is_stop i ≡ false) inputs
      → poll_loop impl inputs sent slots
        ≡ waiting impl (
          sent ++ (serve_all (mongoose_serve impl.handler_fn) inputs slots).0,
          (serve_all (mongoose_serve impl.handler_fn) inputs slots).1,
        )
  unfolding poll_loop
  poll_loop-waits impl [] sent slots run h =
      ap (λ l. waiting impl (l, slots)) (sym (append-nil sent))
  poll_loop-waits impl (stop ∷ inputs) sent slots run h = cc
  poll_loop-waits impl (poll_returns ∷ inputs) sent slots run h =
      poll_loop-returns impl inputs sent slots run ∙ poll_loop-waits impl inputs sent slots run h.1
  poll_loop-waits impl (event e ∷ inputs) sent slots run h =
      poll_loop-waits impl inputs (sent ++ replies first.0) first.1 run h.1
      ∙ ap (λ l. waiting impl (l, rest.1)) (append_assoc sent (replies first.0) rest.0)
    where
      first : Option MgReply × Slots F
      first = mongoose_event_handler impl.handler_fn e slots

      rest : List MgReply × Slots F
      rest = serve_all (mongoose_serve impl.handler_fn) inputs first.1

  -- The loop opens and closes no connection.
  poll_loop-mgr :
      (impl : MongooseHttpServer F) (inputs : List MgInput) (sent : List MgReply) (slots : Slots F)
      → (poll_loop impl inputs sent slots).server.mgr ≡ impl.mgr
  unfolding poll_loop mongoose_stop
  poll_loop-mgr impl [] sent slots = refl
  poll_loop-mgr impl (stop ∷ inputs) sent slots =
      poll_loop-mgr (mongoose_stop impl) inputs sent slots
  poll_loop-mgr impl (event e ∷ inputs) sent slots =
      poll_loop-mgr impl inputs (sent ++ replies (mongoose_event_handler impl.handler_fn e slots).0)
        (mongoose_event_handler impl.handler_fn e slots).1
  poll_loop-mgr impl (poll_returns ∷ inputs) sent slots =
      ground (arith, poll_loop-mgr impl inputs sent slots)

  pub mongoose_create-fails :
      (m : Mallocs) (addr : Bytes) (res : Resources)
      → (m.server_ok && m.impl_ok) ≡ false
      → mongoose_create {F = F} m addr res ≡ (none, res)
  unfolding mongoose_create
  mongoose_create-fails m addr res h = rw (add_sub res.blocks 1) (ground arith)

  pub mongoose_create-created :
      (m : Mallocs) (addr : Bytes) (res : Resources)
      → (m.server_ok && m.impl_ok) ≡ true
      → mongoose_create {F = F} m addr res ≡ (some (mongoose_created addr), acquired res)
  unfolding mongoose_create
  mongoose_create-created m addr res h = ground arith

  pub mongoose_run-fails :
      (listens : Bytes → Bool) (impl : MongooseHttpServer F) (inputs : List MgInput)
      (slots : Slots F) (res : Resources)
      → listens impl.listen_addr ≡ false
      → mongoose_run listens impl inputs slots res
        ≡ (left (some false) (record impl { connection = false }) [] slots, res)
  unfolding mongoose_run
  mongoose_run-fails listens impl inputs slots res h = ground arith

  pub mongoose_run-started :
      (listens : Bytes → Bool) (impl : MongooseHttpServer F) (inputs : List MgInput)
      (slots : Slots F) (res : Resources)
      → listens impl.listen_addr ≡ true
      → mongoose_run listens impl inputs slots res ≡ (
        poll_loop (mongoose_started impl) inputs [] slots,
        record res { sockets = res.sockets + 1 },
      )
  unfolding mongoose_run
  mongoose_run-started listens impl inputs slots res h = ground arith

  freed :
      (impl : MongooseHttpServer F) (res : Resources) (sockets : ℕ)
      → res.sockets + impl.mgr ≡ sockets
      → mongoose_destroy impl (record (acquired res) { sockets = sockets }) ≡ res
  unfolding mongoose_destroy
  freed impl res sockets h =
      rw⁻¹ h (rw (add_sub res.blocks 2, add_sub res.managers 1, add_sub res.sockets impl.mgr) refl)

  pub run_freed :
      (listens : Bytes → Bool) (impl : MongooseHttpServer F) (inputs : List MgInput)
      (slots : Slots F) (res : Resources) (r : MgRun F × Resources)
      → impl.mgr ≡ 0
      → mongoose_run listens impl inputs slots (acquired res) ≡ r
      → mongoose_destroy r.0.server r.1 ≡ res
  run_freed listens impl inputs slots res r m e = elim (Bool-cases (listens impl.listen_addr)) [
    | inl h ↦ rw⁻¹ (e) (
        rw (mongoose_run-started listens impl inputs slots (acquired res) h) (
          freed (poll_loop (mongoose_started impl) inputs [] slots).server res (res.sockets + 1) (
            ap (λ n. res.sockets + n)
              (poll_loop-mgr (mongoose_started impl) inputs [] slots ∙ ap (λ n. n + 1) m))))
    | inr h ↦ rw⁻¹ (e) (
        rw (mongoose_run-fails listens impl inputs slots (acquired res) h)
          (freed (record impl { connection = false }) res res.sockets (omega (arith, m))))
  ]

  -- The mongoose server keeps the laws of a backend.
  abbrev pub mongoose_laws : HttpServerLaws (mongoose_vtable {F = F})
  mongoose_laws = record {
    fresh = mongoose_created;
    held = acquired;
    starts = λ listens addr. listens (listen_address addr);
    running = mongoose_started;
    is_stop = is_stop;
    serve = λ handler. mongoose_serve (some handler);
    create-fails = mongoose_create-fails;
    create-fresh = mongoose_create-created;
    run-fails = λ addr handler listens inputs slots res h.
        ap (λ r. r.0.result)
          (mongoose_run-fails listens (mongoose_set_handler handler (mongoose_created addr)) inputs
            slots res h);
    run-waits = λ addr handler listens inputs slots res h stops.
        ap (λ r. r.0)
          (mongoose_run-started listens (mongoose_set_handler handler (mongoose_created addr))
            inputs slots res h)
        ∙ poll_loop-waits (mongoose_started (mongoose_set_handler handler (mongoose_created addr)))
            inputs [] slots refl stops;
    destroy-balanced = λ addr handler listens inputs slots res r.
        run_freed listens (mongoose_set_handler handler (mongoose_created addr)) inputs slots res r
          refl;
  }
