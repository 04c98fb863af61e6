-- ===== src/Http/Server.antt =====
-- `dumb_run` and `dumb_stop` of src/http_server_backend/dumb.c: the accept loop.
pub mod Backend
pub mod Stopped
use pg_what_is_happening.Base.{
  ℕ, ◌≡◌, refl, sym, ap, ◌∙◌, append-nil, append_assoc, arith, Bool, true, false, Option, none,
  some, List, [], ◌∷◌, ◌++◌, if◌then◌else◌, Bytes, All,
}
use pg_what_is_happening.Memory.{Slots}
use pg_what_is_happening.Metrics.Format.{Printf}
use pg_what_is_happening.Http.Dumb.{Handles, Sent, handle_connection}
use pg_what_is_happening.Http.Vtable.{Run, Serves, serve_all, waiting}

-- `DumbHttpServer`; a `listen_fd` of -1 is `false`, an open one `true`. The context is not used.
pub record DumbHttpServer (F : Type 0) : Type 0 where
  pub port : ℕ
  pub listen_open : Bool
  pub is_running : Bool
  pub handler_fn : Option (Handles F)

-- How the calls of `socket`, `bind` and `listen` end.
pub record SocketResults : Type 0 where
  pub socket_ok : Bool
  pub bind_ok : Bool
  pub listen_ok : Bool

-- What happens next to a server in its loop: a client with what it sends, a failed `accept`, or
-- `dumb_stop` in a signal handler.
pub data Event : Type 0 where
  client : Option Bytes → Event
  accept_failed : Event
  stop : Event

-- How a run of this server ends, with the answer to each client.
abbrev pub DumbRun : Type 0 → Type 0
DumbRun F = Run F (DumbHttpServer F) (Option Sent)

abbrev pub is_stop : Event → Bool
is_stop stop = true
is_stop (client received) = false
is_stop accept_failed = false

module _ {F : Type 0} where
  unfoldable pub dumb_stop : DumbHttpServer F → DumbHttpServer F
  dumb_stop impl = record impl { is_running = false; listen_open = false }

  -- What follows the loop.
  unfoldable pub leave_loop : DumbHttpServer F → List (Option Sent) → Slots F → DumbRun F
  leave_loop impl sent slots = record {
    result = some true;
    sent = sent;
    slots = slots;
    server = record impl { is_running = false; listen_open = false };
  }

  module _ (p : Printf) where
    -- The loop. `dumb_stop` ends a waiting `accept`, so that the loop is left. A failed `accept` of a
    -- server that runs is tried again.
    unfoldable pub accept_loop :
        DumbHttpServer F → List Event → List (Option Sent) → Slots F → DumbRun F
    accept_loop impl [] sent slots = record {
      result = none;
      sent = sent;
      slots = slots;
      server = impl;
    }
    accept_loop impl (client received ∷ events) sent slots =
        let r = handle_connection p impl.handler_fn received slots in
        let after = accept_loop impl events (sent ++ r.0 ∷ []) r.1 in
        if impl.is_running then after else leave_loop impl sent slots
    accept_loop impl (accept_failed ∷ events) sent slots =
        let after = accept_loop impl events sent slots in
        if impl.is_running then after else leave_loop impl sent slots
    accept_loop impl (stop ∷ events) sent slots = leave_loop (dumb_stop impl) sent slots

    abbrev not_started : DumbHttpServer F → Slots F → DumbRun F
    not_started impl slots = record {
      result = some false;
      sent = [];
      slots = slots;
      server = record impl { listen_open = false };
    }

    -- The result is whether the function returns 0.
    unfoldable pub dumb_run : SocketResults → DumbHttpServer F → List Event → Slots F → DumbRun F
    unfolding accept_loop
    dumb_run sys impl events slots =
        if sys.socket_ok
        then if sys.bind_ok
          then if sys.listen_ok
            then accept_loop (record impl { is_running = true; listen_open = true }) events [] slots
            else not_started impl slots
          else not_started impl slots
        else not_started impl slots

    -- What one event alone makes the server do.
    abbrev pub dumb_serve : Option (Handles F) → Serves F Event (Option Sent)
    dumb_serve h (client received) slots =
        let r = handle_connection p h received slots in (r.0 ∷ [], r.1)
    dumb_serve h accept_failed slots = ([], slots)
    dumb_serve h stop slots = ([], slots)

    accept_loop-client :
        (impl : DumbHttpServer F) (received : Option Bytes) (events : List Event)
        (sent : List (Option Sent)) (slots : Slots F)
        → impl.is_running ≡ true
        → accept_loop impl (client received ∷ events) sent slots
          ≡ accept_loop impl events
              (sent ++ (handle_connection p impl.handler_fn received slots).0 ∷ [])
              (handle_connection p impl.handler_fn received slots).1
    unfolding accept_loop
    accept_loop-client impl received events sent slots run = ground arith

    accept_loop-failed :
        (impl : DumbHttpServer F) (events : List Event) (sent : List (Option Sent))
        (slots : Slots F)
        → impl.is_running ≡ true
        → accept_loop impl (accept_failed ∷ events) sent slots ≡ accept_loop impl events sent slots
    unfolding accept_loop
    accept_loop-failed impl events sent slots run = ground arith

    -- While nothing stops it, the server waits for more, and has answered each client in order.
    pub accept_loop-waits :
        (impl : DumbHttpServer F) (events : List Event) (sent : List (Option Sent))
        (slots : Slots F)
        → impl.is_running ≡ true
        → All (λ e. is_stop e ≡ false) events
        → accept_loop impl events sent slots
          ≡ waiting impl (
            sent ++ (serve_all (dumb_serve impl.handler_fn) events slots).0,
            (serve_all (dumb_serve impl.handler_fn) events slots).1,
          )
    unfolding accept_loop
    accept_loop-waits impl [] sent slots run h =
        ap (λ l. waiting impl (l, slots)) (sym (append-nil sent))
    accept_loop-waits impl (stop ∷ events) sent slots run h = cc
    accept_loop-waits impl (accept_failed ∷ events) sent slots run h =
        accept_loop-failed impl events sent slots run
        ∙ accept_loop-waits impl events sent slots run h.1
    accept_loop-waits impl (client received ∷ events) sent slots run h =
        accept_loop-client impl received events sent slots run
        ∙ accept_loop-waits impl events (sent ++ first.0 ∷ []) first.1 run h.1
        ∙ ap (λ l. waiting impl (l, rest.1)) (append_assoc sent (first.0 ∷ []) rest.0)
      where
        first : Option Sent × Slots F
        first = handle_connection p impl.handler_fn received slots

        rest : List (Option Sent) × Slots F
        rest = serve_all (dumb_serve impl.handler_fn) events first.1
