-- ===== src/Http/Server/Stopped.antt =====
-- `dumb_run` of src/http_server_backend/dumb.c when `dumb_stop` is called while it runs.
use pg_what_is_happening.Base.{
  ◌≡◌, refl, sym, ap, ◌∙◌, append-nil, append_assoc, Bool, true, false, Option, some, List, [], ◌∷◌,
  ◌++◌,
}
use pg_what_is_happening.Memory.{Slots}
use pg_what_is_happening.Metrics.Format.{Printf}
use pg_what_is_happening.Http.Dumb.{Handles, Sent, handle_connection}
use pg_what_is_happening.Http.Server.{
  DumbHttpServer, SocketResults, Event, client, accept_failed, stop, DumbRun, dumb_stop, leave_loop,
  accept_loop, dumb_run,
}

abbrev pub has_stop : List Event → Bool
has_stop [] = false
has_stop (stop ∷ events) = true
has_stop (client received ∷ events) = has_stop events
has_stop (accept_failed ∷ events) = has_stop events

module _ {F : Type 0} (p : Printf) where
  -- Each client alone, in order, on the slots that the one before left.
  abbrev pub answers : Option (Handles F) → List Event → Slots F → List (Option Sent)
  answers h [] slots = []
  answers h (client received ∷ events) slots =
      (handle_connection p h received slots).0
      ∷ answers h events (handle_connection p h received slots).1
  answers h (accept_failed ∷ events) slots = answers h events slots
  answers h (stop ∷ events) slots = []

  abbrev pub slots_after : Option (Handles F) → List Event → Slots F → Slots F
  slots_after h [] slots = slots
  slots_after h (client received ∷ events) slots =
      slots_after h events (handle_connection p h received slots).1
  slots_after h (accept_failed ∷ events) slots = slots_after h events slots
  slots_after h (stop ∷ events) slots = slots

  abbrev pub finished : DumbHttpServer F → List (Option Sent) → Slots F → DumbRun F
  finished impl sent slots = record {
    result = some true;
    sent = sent;
    slots = slots;
    server = record impl { is_running = false; listen_open = false };
  }

  accept_loop-answers :
      (impl : DumbHttpServer F) (events : List Event) (sent : List (Option Sent)) (slots : Slots F)
      → impl.is_running ≡ true
      → has_stop events ≡ true
      → accept_loop p impl events sent slots
        ≡ finished impl
            (sent ++ answers impl.handler_fn events slots)
            (slots_after impl.handler_fn events slots)
  unfolding accept_loop leave_loop dumb_stop
  accept_loop-answers impl [] sent slots run h = cc
  accept_loop-answers impl (stop ∷ events) sent slots run h =
      ap (λ l. finished impl l slots) (sym (append-nil sent))
  accept_loop-answers impl (accept_failed ∷ events) sent slots run h =
      rw run (accept_loop-answers impl events sent slots run h)
  accept_loop-answers impl (client received ∷ events) sent slots run h = rw run (
      accept_loop-answers impl events (sent ++ first.0 ∷ []) first.1 run h
      ∙ ap (λ l. finished impl l (slots_after impl.handler_fn events first.1))
          (append_assoc sent (first.0 ∷ []) (answers impl.handler_fn events first.1)))
    where
      first : Option Sent × Slots F
      first = handle_connection p impl.handler_fn received slots

  -- A server whose socket calls succeed returns 0 once it is stopped, whatever happens before: it
  -- has answered each client that came before the stop, in order, on the slots that the answer
  -- before left, whichever calls of `accept` failed; and it has closed its socket.
  pub dumb_run-answers :
      (sys : SocketResults) (impl : DumbHttpServer F) (events : List Event) (slots : Slots F)
      → sys.socket_ok ≡ true
      → sys.bind_ok ≡ true
      → sys.listen_ok ≡ true
      → has_stop events ≡ true
      → dumb_run p sys impl events slots
        ≡ finished impl
            (answers impl.handler_fn events slots)
            (slots_after impl.handler_fn events slots)
  unfolding dumb_run
  dumb_run-answers sys impl events slots s b l h =
      rw (s, b, l)
        (accept_loop-answers (record impl { is_running = true; listen_open = true }) events [] slots
          refl h)
