-- ===== src/Locking.antt =====
-- The calls of PWH_LWLOCK_ACQUIRE and PWH_LWLOCK_RELEASE on entry_search_lock, in the order in which
-- each call of the extension makes them: src/shared_memory.c, the hooks, callbacks and the view of
-- src/pg_what_is_happening.c, and the request handler of src/bg_worker.c. The signal handler of
-- src/signal_handler.c makes none.
pub mod Discipline
pub mod System
pub mod Steps
pub mod Progress
use pg_what_is_happening.Base.{
  ℕ, ◌+◌, Bool, true, false, not, ◌&&◌, Option, none, some, List, [], ◌∷◌, ◌++◌, ◌==◌, ltb, drop,
  if◌then◌else◌,
}
use pg_what_is_happening.Doubles.{Doubles}
use pg_what_is_happening.Memory.{
  BackendEntry, Slots, is_backend_entry_active, scan_entries, no_slot,
  get_or_create_my_backend_entry_impl, get_my_backend_entry,
}
use pg_what_is_happening.Signal.{QueryDesc, Backend}
use pg_what_is_happening.Status.{Cursor}
use pg_what_is_happening.Hooks.{
  Env, Outcome, completes, raises, State, XactEvent, is_abort_event, is_tracked,
}
use pg_what_is_happening.Http.Request.{HttpRequest}
use pg_what_is_happening.Http.Handler.{is_metrics_request}

-- `LW_SHARED` and `LW_EXCLUSIVE`.
pub data Mode : Type 0 where
  lw_shared lw_exclusive : Mode

pub data LockCall : Type 0 where
  acquire : Mode → LockCall
  release : LockCall

-- One acquisition with nothing within.
abbrev pub brief : Mode → List LockCall
brief m = acquire m ∷ release ∷ []

-- Each way out of `pwh_get_or_create_my_backend_entry_impl` after the loop.
abbrev pub claim_exit : Bool → Option ℕ × ℕ → List LockCall
claim_exit should_create (some i, free_slot_idx) = release ∷ []
claim_exit should_create (none, free_slot_idx) =
    if should_create && not (free_slot_idx == no_slot) then release ∷ [] else release ∷ []

module _ {F : Type 0} where
  unfoldable pub claim_locks : Bool → ℕ → Slots F → List LockCall
  claim_locks should_create pid slots =
      acquire lw_shared ∷ claim_exit should_create (scan_entries pid slots 0 no_slot)

  -- A loop that calls `pwh_get_backend_entry` for each slot: the cleanup's, and the formatter's.
  unfoldable pub each_entry_locks : Slots F → List LockCall
  each_entry_locks [] = []
  each_entry_locks (be ∷ rest) = brief lw_shared ++ each_entry_locks rest

  -- The loop of a call of the view, up to the row that it returns.
  unfoldable pub next_row_locks : Slots F → ℕ → List LockCall
  next_row_locks [] node_idx = []
  next_row_locks (be ∷ rest) node_idx =
      let move_on = next_row_locks rest 0 in
      brief lw_shared
      ++ (if is_backend_entry_active be && ltb node_idx be.count_of_metrics then [] else move_on)

  -- A call of `v1_status_f`; the first one signals the backends and waits under the lock.
  unfoldable pub view_locks : Bool → Slots F → Cursor → List LockCall
  unfolding next_row_locks
  view_locks is_firstcall slots c =
      (if is_firstcall then brief lw_shared else [])
      ++ next_row_locks (drop c.slot_idx slots) c.node_idx

  unfoldable pub metrics_handler_locks : HttpRequest → Slots F → List LockCall
  unfolding each_entry_locks
  metrics_handler_locks req slots =
      if is_metrics_request req
      then acquire lw_shared ∷ (each_entry_locks slots ++ (each_entry_locks slots ++ release ∷ []))
      else []

  unfoldable pub cleanup_callback_locks : XactEvent → Backend F → List LockCall
  cleanup_callback_locks event b =
      if is_abort_event event then if b.is_enabled then brief lw_shared else [] else []

  -- In the `PG_TRY` block of the start hook, once the slot was looked for. The handler of an error
  -- calls `backend_exit_callback`.
  abbrev pub track_locks : Outcome F → Option ℕ → List LockCall
  track_locks o none = []
  track_locks completes (some i) = []
  track_locks (raises ms) (some i) = brief lw_exclusive

  -- In that of the end hook. An error is raised by the collection, and the handler releases the lock.
  abbrev pub finish_locks : Outcome F → Option ℕ → List LockCall
  finish_locks o none = []
  finish_locks completes (some i) = acquire lw_exclusive ∷ release ∷ []
  finish_locks (raises ms) (some i) = acquire lw_exclusive ∷ release ∷ []

  unfoldable pub end_hook_locks : Outcome F → State F → List LockCall
  unfolding claim_locks
  end_hook_locks o s =
      if s.backend.is_enabled && s.backend.was_initialized
      then claim_locks false s.backend.my_proc_pid s.slots
        ++ finish_locks o (get_my_backend_entry s.backend.my_proc_pid s.slots)
      else []

module _ {F : Type 0} (d : Doubles F) (env : Env F) where
  unfoldable pub start_hook_locks : QueryDesc F → Outcome F → State F → List LockCall
  unfolding claim_locks
  start_hook_locks qd o s =
      if is_tracked d env qd s.backend
      then claim_locks true s.backend.my_proc_pid s.slots
        ++ track_locks o (get_or_create_my_backend_entry_impl true s.backend.my_proc_pid s.slots).0
      else []

-- A call of the extension, with the state that it finds.
pub data Call (F : Type 0) : Type 0 where
  query_start : QueryDesc F → Outcome F → State F → Call F
  query_end : Outcome F → State F → Call F
  transaction_ends : XactEvent → Backend F → Call F
  process_exits : Call F
  view_call : Bool → Slots F → Cursor → Call F
  http_request : HttpRequest → Slots F → Call F
  signal_comes : Call F

unfoldable pub locks_of : {F : Type 0} → Doubles F → Env F → Call F → List LockCall
unfolding start_hook_locks end_hook_locks cleanup_callback_locks view_locks metrics_handler_locks
locks_of d env (query_start qd o s) = start_hook_locks d env qd o s
locks_of d env (query_end o s) = end_hook_locks o s
locks_of d env (transaction_ends event b) = cleanup_callback_locks event b
locks_of d env process_exits = brief lw_exclusive
locks_of d env (view_call is_firstcall slots c) = view_locks is_firstcall slots c
locks_of d env (http_request req slots) = metrics_handler_locks req slots
locks_of d env signal_comes = []
