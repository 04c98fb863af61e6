-- ===== src/Worker/Outcome.antt =====
-- How `pwh_bgworker_main` of src/bg_worker.c ends, for every backend that keeps the laws.
use pg_what_is_happening.Base.{
  ◌≡◌, refl, ap, ◌∙◌, ◌&&◌, Option, none, some, List, Bytes, All, Bool, true, false, Bool-cases,
  inl, inr,
}
use pg_what_is_happening.Doubles.{Doubles}
use pg_what_is_happening.Memory.{Slots, KillResult}
use pg_what_is_happening.Metrics.Format.{Printf}
use pg_what_is_happening.Http.Handler.{Signals, metrics_handler}
use pg_what_is_happening.Http.Vtable.{
  Resources, Mallocs, Run, HttpServerVtable, HttpServerLaws, serve_all, run_with,
  http_server_set_handler,
}
use pg_what_is_happening.Worker.{
  ExitStatus, fatal, proc_exit, Worker, worker_address, after_run, with_server, bgworker_main,
}
use Prim.Native.Nat.{ℕ}

-- The exit status, from whether the server can be created and whether it can start.
abbrev pub exit_status : Bool → Bool → Option ExitStatus
exit_status false starts = some fatal
exit_status true false = some (proc_exit 0)
exit_status true true = none

module _ {F : Type 0} {vtable : HttpServerVtable F} (laws : HttpServerLaws vtable) (d : Doubles F)
    (p : Printf) (kill0 : ℕ → KillResult) (signalled : Signals F) where
  abbrev ran :
      Bytes
      → vtable.Start
      → List vtable.Input
      → Slots F
      → Resources
      → Run F vtable.Impl vtable.Answer × Resources
  ran setting start inputs slots res =
      run_with vtable (laws.fresh (worker_address setting)) (metrics_handler d p kill0 signalled)
        start inputs slots (laws.held res)

  abbrev worker :
      Mallocs → Bytes → vtable.Start → List vtable.Input → Slots F → Resources → Worker vtable
  worker = bgworker_main vtable d p kill0 signalled

  worker-created :
      (m : Mallocs) (setting : Bytes) (start : vtable.Start) (inputs : List vtable.Input)
      (slots : Slots F) (res : Resources)
      → (m.server_ok && m.impl_ok) ≡ true
      → worker m setting start inputs slots res
        ≡ after_run vtable
            (ran setting start inputs slots res).0.result
            (ran setting start inputs slots res)
  unfolding bgworker_main
  worker-created m setting start inputs slots res h =
      ap (with_server vtable (metrics_handler d p kill0 signalled) start inputs slots)
        (laws.create-fresh m (worker_address setting) res h)

  worker-refused :
      (m : Mallocs) (setting : Bytes) (start : vtable.Start) (inputs : List vtable.Input)
      (slots : Slots F) (res : Resources)
      → (m.server_ok && m.impl_ok) ≡ false
      → worker m setting start inputs slots res
        ≡ with_server vtable (metrics_handler d p kill0 signalled) start inputs slots (none, res)
  unfolding bgworker_main
  worker-refused m setting start inputs slots res h =
      ap (with_server vtable (metrics_handler d p kill0 signalled) start inputs slots)
        (laws.create-fails m (worker_address setting) res h)

  -- The server of a worker that serves.
  abbrev pub serving : Bytes → vtable.Impl
  serving setting = laws.running (
      http_server_set_handler vtable (metrics_handler d p kill0 signalled)
        (laws.fresh (worker_address setting)))

  -- What the inputs make the handler answer.
  abbrev pub served : List vtable.Input → Slots F → List vtable.Answer × Slots F
  served = serve_all (laws.serve (metrics_handler d p kill0 signalled))

  -- A worker whose server is created and starts is still there, however many requests and other
  -- inputs come, if nothing stops it: it has answered each of them with the metrics handler, in
  -- order, on the slots that the one before left.
  pub bgworker_main-serves :
      (m : Mallocs) (setting : Bytes) (start : vtable.Start) (inputs : List vtable.Input)
      (slots : Slots F) (res : Resources)
      → (m.server_ok && m.impl_ok) ≡ true
      → laws.starts start (worker_address setting) ≡ true
      → All (λ i. laws.is_stop i ≡ false) inputs
      → worker m setting start inputs slots res ≡ record {
        http_server_instance = some (serving setting);
        exit = none;
        sent = (served inputs slots).0;
        slots = (served inputs slots).1;
        resources = (ran setting start inputs slots res).1;
      }
  bgworker_main-serves m setting start inputs slots res h starts stops =
      worker-created m setting start inputs slots res h
      ∙ ap (λ r. after_run vtable r.result (r, (ran setting start inputs slots res).1))
          (laws.run-waits (worker_address setting) (metrics_handler d p kill0 signalled) start
            inputs slots (laws.held res) starts stops)

  after_run-some :
      (b : Bool) (o : Option Bool) (r : Run F vtable.Impl vtable.Answer × Resources)
      → o ≡ some b
      → (after_run vtable o r).exit ≡ some (proc_exit 0)
  after_run-some b none r e = cc
  after_run-some b (some c) r e = refl

  -- Over any backend that keeps the laws of the interface, while nothing stops the server, the worker
  -- ends by FATAL exactly if the server cannot be created, and with code 0 exactly if the server is
  -- created but cannot start; else it does not end.
  pub bgworker_main-exit :
      (m : Mallocs) (setting : Bytes) (start : vtable.Start) (inputs : List vtable.Input)
      (slots : Slots F) (res : Resources)
      → All (λ i. laws.is_stop i ≡ false) inputs
      → (worker m setting start inputs slots res).exit
        ≡ exit_status (m.server_ok && m.impl_ok) (laws.starts start (worker_address setting))
  bgworker_main-exit m setting start inputs slots res stops =
      elim (Bool-cases (m.server_ok && m.impl_ok)) [
        | inr h ↦ rw h (ap (λ w. w.exit) (worker-refused m setting start inputs slots res h))
        | inl h ↦ elim (Bool-cases (laws.starts start (worker_address setting))) [
          | inl s ↦
              rw (h, s)
                (ap (λ w. w.exit) (bgworker_main-serves m setting start inputs slots res h s stops))
          | inr s ↦
              rw (h, s)
                (ap (λ w. w.exit) (worker-created m setting start inputs slots res h)
                  ∙ after_run-some false (ran setting start inputs slots res).0.result
                      (ran setting start inputs slots res)
                      (laws.run-fails (worker_address setting) (metrics_handler d p kill0 signalled)
                        start inputs slots (laws.held res) s))
        ]
      ]
