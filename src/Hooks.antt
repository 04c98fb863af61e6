-- ===== src/Hooks.antt =====
-- The executor hooks and the callbacks of src/pg_what_is_happening.c, in one backend. A hook takes the
-- slots as they are when it runs and leaves them changed.
pub mod Entry
pub mod WellFormed
pub mod Keeps
pub mod World
pub mod Refine
pub mod Interrupt
pub mod Ending
pub mod Release
pub mod Dangling
pub mod Backed
pub mod Session
use Prim.Native.Nat.{bit_or}
use pg_what_is_happening.Base.{
  ℕ, ◌+◌, ◌-◌, ◌%◌, Bool, true, false, Option, none, some, List, [], ◌∷◌, ◌&&◌, ◌==◌, if◌then◌else◌,
  get_elem?, modify, take, Bytes,
}
use pg_what_is_happening.Doubles.{Doubles}
use pg_what_is_happening.QueryId.{get_query_id}
use pg_what_is_happening.Memory.{
  BackendEntry, NodeMetrics, Slots, is_backend_entry_active, release_backend_entry_unlocked,
  get_or_create_my_backend_entry, get_my_backend_entry, release_my_backend_entry, u32_mod,
}
use pg_what_is_happening.Walker.{
  remember_planstate_tree_as_metric_structure, collect_planstate_metrics,
}
use pg_what_is_happening.Signal.{
  QueryDesc, Handler, Backend, set_current_query_desc, install_signal_handler,
}

-- The settings that the hooks read, and PostgreSQL's own parts of them: the previous hook or
-- `standard_ExecutorStart`, and `INSTRUMENT_ALL`.
pub record Env (F : Type 0) : Type 0 where
  pub max_nodes_per_query : ℕ
  pub max_query_text_len : ℕ
  pub min_cost_to_track : F
  pub executor_start : QueryDesc F → QueryDesc F
  pub instrument_all : ℕ

-- Whether an error is raised in a `PG_TRY` block. It can come from the walk of the plan tree, by
-- `check_stack_depth`, and leaves the metrics array in some state.
pub data Outcome (F : Type 0) : Type 0 where
  completes : Outcome F
  raises : List (NodeMetrics F) → Outcome F

-- PostgreSQL's events. `XACT_EVENT_PARALLEL_ABORT` is an enumerator there and no macro, so
-- `PWH_IS_ABORT_EVENT` leaves it out.
pub data XactEvent : Type 0 where
  xact_event_commit xact_event_abort xact_event_parallel_abort xact_event_other : XactEvent

abbrev pub is_abort_event : XactEvent → Bool
is_abort_event xact_event_abort = true
is_abort_event _ = false

-- What a hook changes.
pub record State (F : Type 0) : Type 0 where
  pub slots : Slots F
  pub backend : Backend F

-- `snprintf` of a C string into a buffer of `size` bytes.
abbrev pub truncate_text : ℕ → Bytes → Bytes
truncate_text size text = take (size - 1) text

abbrev pub copy_text : ℕ → Option Bytes → Bytes
copy_text size none = []
copy_text size (some text) = truncate_text size text

module _ {F : Type 0} where
  unfoldable pub backend_exit_callback : State F → State F
  backend_exit_callback s = record {
    slots = release_my_backend_entry s.backend.my_proc_pid s.slots;
    backend = record s.backend { was_initialized = false };
  }

  unfoldable pub query_cleanup_callback : XactEvent → State F → State F
  query_cleanup_callback event s =
      let cleared = set_current_query_desc none s.backend in
      if is_abort_event event
      then record {
        slots =
            if s.backend.is_enabled
            then release_my_backend_entry s.backend.my_proc_pid s.slots
            else s.slots;
        backend = cleared;
      }
      else s

  -- `old` is the handler that `pqsignal` replaces.
  unfoldable pub initialize_state_once_per_backend : Handler → Backend F → Backend F
  initialize_state_once_per_backend old b =
      record (install_signal_handler old (record b { registrations = b.registrations + 1 })) {
        shmem_attached = true;
        was_initialized = true;
      }

module _ {F : Type 0} (d : Doubles F) (env : Env F) where
  -- What the block writes to the slot. `now` is what the two calls of `GetCurrentTimestamp` return: the
  -- one for the start time, and then the one in `pwh_compute_query_id`.
  unfoldable pub fill_entry : QueryDesc F → ℕ × ℕ → ℕ → BackendEntry F → BackendEntry F
  fill_entry qd now pid be =
      let (num_nodes, ms) =
        remember_planstate_tree_as_metric_structure d qd.planstate be.metrics
          env.max_nodes_per_query in
      record be {
        metrics = ms;
        count_of_metrics = num_nodes % u32_mod;
        query_start_time = now.0;
        query_id = get_query_id qd.query_id qd.source_text now.1 pid;
        query_text = copy_text env.max_query_text_len qd.source_text;
      }

  -- The block once it has the slot, and its handler.
  pub track_query : QueryDesc F → ℕ × ℕ → Outcome F → ℕ → State F → State F
  unfolding fill_entry backend_exit_callback
  track_query qd now completes i s = record {
    slots = modify s.slots i (fill_entry qd now s.backend.my_proc_pid);
    backend = set_current_query_desc (some qd) s.backend;
  }
  track_query qd now (raises ms) i s = backend_exit_callback (record {
    slots = modify s.slots i (λ be. record be { metrics = ms });
    backend = set_current_query_desc none s.backend;
  })

  pub track_in : QueryDesc F → ℕ × ℕ → Outcome F → Backend F → Option ℕ × Slots F → State F
  unfolding track_query
  track_in qd now o b (none, slots) = record { slots = slots; backend = b }
  track_in qd now o b (some i, slots) =
      track_query qd now o i (record { slots = slots; backend = b })

  abbrev pub force_instrumentation : QueryDesc F → QueryDesc F
  force_instrumentation qd = record qd {
    instrument_options = bit_or qd.instrument_options env.instrument_all;
  }

  abbrev pub started : QueryDesc F → QueryDesc F
  started qd = env.executor_start (force_instrumentation qd)

  -- Whether the hook goes on to track the query.
  abbrev pub is_tracked : QueryDesc F → Backend F → Bool
  is_tracked qd b =
      if b.is_enabled
      then if d.lt (started qd).total_cost env.min_cost_to_track then false else true
      else false

  pub initialized : Handler → Backend F → Backend F
  unfolding initialize_state_once_per_backend
  initialized old b = if b.was_initialized then b else initialize_state_once_per_backend old b

  unfoldable pub query_start_hook : QueryDesc F → ℕ × ℕ → Handler → Outcome F → State F → State F
  unfolding track_in initialized
  query_start_hook qd now old o s =
      if is_tracked qd s.backend
      then track_in (started qd) now o (initialized old s.backend)
          (get_or_create_my_backend_entry s.backend.my_proc_pid s.slots)
      else s

  -- The final values, and the release.
  unfoldable pub finish_entry : QueryDesc F → BackendEntry F → BackendEntry F
  finish_entry qd be =
      if is_backend_entry_active be
      then release_backend_entry_unlocked (record be {
        metrics = collect_planstate_metrics d qd.planstate be.metrics env.max_nodes_per_query;
      })
      else be

  pub end_query : QueryDesc F → Outcome F → Option ℕ → State F → State F
  unfolding finish_entry
  end_query qd o none s = s
  end_query qd completes (some i) s = record {
    slots = modify s.slots i (finish_entry qd);
    backend = set_current_query_desc none s.backend;
  }
  end_query qd (raises ms) (some i) s = record {
    slots = modify s.slots i (λ be. record be { metrics = ms });
    backend = set_current_query_desc none s.backend;
  }

  -- The previous hook or `standard_ExecutorEnd` follows, which frees the query.
  unfoldable pub query_end_hook : QueryDesc F → Outcome F → State F → State F
  unfolding end_query
  query_end_hook qd o s =
      if s.backend.is_enabled && s.backend.was_initialized
      then end_query qd o (get_my_backend_entry s.backend.my_proc_pid s.slots) s
      else s
