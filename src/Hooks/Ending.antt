-- ===== src/Hooks/Ending.antt =====
-- Signals within `query_end_hook` of src/pg_what_is_happening.c: the search for the slot and the writes
-- of the block, with the signal handler of src/signal_handler.c between them. Meanwhile the block
-- holds the lock in exclusive mode, so that no other process writes to the slot.
pub mod Signals
pub mod Slot
pub mod Steps
pub mod Exact
use pg_what_is_happening.Base.{
  ℕ, ◌+◌, ◌%◌, Bool, true, false, Option, none, some, modify, get_elem?, ◌&&◌, if◌then◌else◌,
}
use pg_what_is_happening.Doubles.{Doubles}
use pg_what_is_happening.Memory.{
  BackendEntry, Slots, is_backend_entry_active, get_my_backend_entry, u32_mod,
}
use pg_what_is_happening.Walker.{collect_planstate_metrics}
use pg_what_is_happening.Signal.{QueryDesc, set_current_query_desc}
use pg_what_is_happening.Hooks.{Env, State}
use pg_what_is_happening.Hooks.Interrupt.{signaled}

-- How many signals come before each step of the hook.
pub record Arrivals : Type 0 where
  pub before_search : ℕ
  pub before_test : ℕ
  pub before_capture : ℕ
  pub before_free : ℕ
  pub before_advance : ℕ
  pub before_clear : ℕ

module _ {F : Type 0} where
  -- The two writes of `pwh_release_backend_entry_unlocked`.
  abbrev pub free_entry : BackendEntry F → BackendEntry F
  free_entry be = record be { backend_pid = 0 }

  abbrev pub advance_entry : BackendEntry F → BackendEntry F
  advance_entry be = record be { poll_generation = (be.poll_generation + 1) % u32_mod }

  abbrev pub write_entry : ℕ → (BackendEntry F → BackendEntry F) → State F → State F
  write_entry i f s = record s { slots = modify s.slots i f }

  abbrev pub is_active_at : ℕ → Slots F → Bool
  is_active_at i slots = elim (get_elem? slots i) [
    | none ↦ false
    | some be ↦ is_backend_entry_active be
  ]

module _ {F : Type 0} (d : Doubles F) (env : Env F) where
  abbrev pub capture_entry : QueryDesc F → BackendEntry F → BackendEntry F
  capture_entry qd be = record be {
    metrics = collect_planstate_metrics d qd.planstate be.metrics env.max_nodes_per_query;
  }

  -- The final values, and the release.
  unfoldable pub release_interrupted : Arrivals → QueryDesc F → ℕ → State F → State F
  release_interrupted k qd i s =
      let captured = write_entry i (capture_entry qd) (signaled d env k.before_capture s) in
      let freed = write_entry i free_entry (signaled d env k.before_free captured) in
      write_entry i advance_entry (signaled d env k.before_advance freed)

  unfoldable pub end_interrupted : Arrivals → QueryDesc F → Option ℕ → State F → State F
  unfolding release_interrupted
  end_interrupted k qd none s = s
  end_interrupted k qd (some i) s =
      let tested = signaled d env k.before_test s in
      let released =
        if is_active_at i tested.slots then release_interrupted k qd i tested else tested in
      let cleared = signaled d env k.before_clear released in
      record cleared { backend = set_current_query_desc none cleared.backend }

  abbrev pub search_interrupted : Arrivals → QueryDesc F → State F → State F
  search_interrupted k qd s =
      end_interrupted k qd (get_my_backend_entry s.backend.my_proc_pid s.slots) s

  -- The end hook, with signals before each step.
  unfoldable pub query_end_interrupted : Arrivals → QueryDesc F → State F → State F
  unfolding end_interrupted
  query_end_interrupted k qd s =
      if s.backend.is_enabled && s.backend.was_initialized
      then search_interrupted k qd (signaled d env k.before_search s)
      else s
