-- ===== src/Signal.antt =====
-- src/signal_handler.c, with the process state that it shares with src/pg_what_is_happening.c.
pub mod Outcomes
pub mod Reads
use pg_what_is_happening.Base.{
  ℕ, ◌+◌, ◌%◌, Bool, true, false, Option, none, some, List, [], ◌∷◌, ◌==◌, if◌then◌else◌, modify,
  Bytes,
}
use pg_what_is_happening.Doubles.{Doubles}
use pg_what_is_happening.Memory.{BackendEntry, Slots, u32_mod}
use pg_what_is_happening.Walker.{PlanState, no_planstate, planstate, collect_planstate_metrics}

-- PostgreSQL's `QueryDesc`, as far as it is read; `address` tells apart the objects.
pub record QueryDesc (F : Type 0) : Type 0 where
  pub address : ℕ
  pub instrument_options : ℕ
  pub planstate : PlanState F
  pub total_cost : F
  pub query_id : ℕ
  pub source_text : Option Bytes

-- A signal handler as `pqsignal` reports it.
pub data Handler : Type 0 where
  null sig_ign sig_dfl : Handler
  function : ℕ → Handler

-- Which function the handler chains to.
abbrev pub chain : Handler → Option ℕ
chain null = none
chain sig_ign = none
chain sig_dfl = none
chain (function f) = some f

-- The `sig_atomic_t` counters wrap around.
pub record Counters : Type 0 where
  pub call_count : ℕ
  pub success_count : ℕ
  pub no_querydesc : ℕ
  pub shmem_null : ℕ
  pub no_slot : ℕ

-- One backend: the static variables of both files.
pub record Backend (F : Type 0) : Type 0 where
  pub my_proc_pid : ℕ
  pub is_enabled : Bool
  pub was_initialized : Bool
  pub shmem_attached : Bool
  pub current_query_desc : Option (QueryDesc F)
  pub prev_sigusr2_handler : Handler
  pub was_signal_handler_installed : Bool
  -- How often the transaction and exit callbacks were registered.
  pub registrations : ℕ
  pub counters : Counters

abbrev pub bump : ℕ → ℕ
bump n = (n + 1) % u32_mod

module _ {F : Type 0} where
  abbrev pub set_current_query_desc : Option (QueryDesc F) → Backend F → Backend F
  set_current_query_desc qd b = record b { current_query_desc = qd }

  -- `old` is what `pqsignal` returns.
  abbrev pub install_signal_handler : Handler → Backend F → Backend F
  install_signal_handler old b =
      if b.was_signal_handler_installed
      then b
      else record b { prev_sigusr2_handler = old; was_signal_handler_installed = true }

  -- The slot of this process, by the handler's own loop.
  unfoldable pub find_my_slot : ℕ → Slots F → ℕ → Option ℕ
  find_my_slot pid [] i = none
  find_my_slot pid (be ∷ rest) i =
      if be.backend_pid == pid then some i else find_my_slot pid rest (i + 1)

abbrev pub count_call : Counters → Counters
count_call k = record k { call_count = bump k.call_count }

abbrev pub has_planstate : {F : Type 0} → PlanState F → Bool
has_planstate no_planstate = false
has_planstate (planstate n l r s t) = true

module _ {F : Type 0} (d : Doubles F) (max_nodes : ℕ) where
  abbrev pub refresh_entry : PlanState F → BackendEntry F → BackendEntry F
  refresh_entry p be = record be {
    metrics = collect_planstate_metrics d p be.metrics max_nodes;
    poll_generation = (be.poll_generation + 1) % u32_mod;
  }

  -- With a live query.
  unfoldable pub refresh : PlanState F → Option ℕ → Slots F → Counters → Slots F × Counters
  refresh p none slots k = (slots, record k { no_slot = bump k.no_slot })
  refresh p (some i) slots k =
      (modify slots i (refresh_entry p), record k { success_count = bump k.success_count })

  unfoldable pub handle : Backend F → Option (QueryDesc F) → Slots F → Counters → Slots F × Counters
  unfolding refresh find_my_slot
  handle b none slots k = (slots, record k { no_querydesc = bump k.no_querydesc })
  handle b (some qd) slots k =
      if has_planstate qd.planstate
      then if b.shmem_attached
        then refresh qd.planstate (find_my_slot b.my_proc_pid slots 0) slots k
        else (slots, record k { shmem_null = bump k.shmem_null })
      else (slots, record k { no_querydesc = bump k.no_querydesc })

  -- The handler saves `errno` and restores it; the last part is the function that it then calls.
  unfoldable pub sigusr2_handler : Slots F → Backend F → Slots F × Backend F × Option ℕ
  unfolding handle
  sigusr2_handler slots b =
      let (slots', k) = handle b b.current_query_desc slots (count_call b.counters) in
      (slots', record b { counters = k }, chain b.prev_sigusr2_handler)
