-- ===== src/Hooks/Interrupt.antt =====
-- Signals within `query_start_hook` of src/pg_what_is_happening.c: the block that sets up the slot, one
-- write after the other, with the signal handler of src/signal_handler.c between them.
pub mod Quiet
pub mod Nested
use pg_what_is_happening.Base.{
  ℕ, zero, suc, ◌%◌, ◌≡◌, refl, sym, ap, ◌∙◌, Option, none, some, List, [], ◌∷◌, modify, get_elem?,
  if◌then◌else◌, ◌⊎◌, inl, inr, Bool-cases, arith,
}
use pg_what_is_happening.Doubles.{Doubles}
use pg_what_is_happening.Memory.{Slots, BackendEntry, u32_mod, get_or_create_my_backend_entry}
use pg_what_is_happening.QueryId.{get_query_id}
use pg_what_is_happening.Walker.{remember_planstate_tree_as_metric_structure}
use pg_what_is_happening.Signal.{
  QueryDesc, Handler, Backend, set_current_query_desc, handle, count_call, sigusr2_handler,
}
use pg_what_is_happening.Hooks.{
  Env, State, completes, fill_entry, copy_text, started, is_tracked, initialized, track_query,
  track_in, initialize_state_once_per_backend, query_start_hook,
}

-- The writes of the block, in order.
pub data Write : Type 0 where
  walk put_count put_start_time put_query_id put_query_text publish : Write

abbrev pub block : List Write
block = walk ∷ put_count ∷ put_start_time ∷ put_query_id ∷ put_query_text ∷ publish ∷ []

-- The block while it runs, with its local variable.
pub record Running (F : Type 0) : Type 0 where
  pub num_nodes : ℕ
  pub state : State F

module _ {F : Type 0} (d : Doubles F) (env : Env F) where
  -- What the walk counts in the slot of an index.
  abbrev pub walk_count : QueryDesc F → Option (BackendEntry F) → ℕ
  walk_count qd none = 0
  walk_count qd (some be) =
      (remember_planstate_tree_as_metric_structure d qd.planstate be.metrics
        env.max_nodes_per_query).0

  abbrev pub walked : QueryDesc F → BackendEntry F → BackendEntry F
  walked qd be = record be {
    metrics =
        (remember_planstate_tree_as_metric_structure d qd.planstate be.metrics
          env.max_nodes_per_query).1;
  }

  module _ (qd : QueryDesc F) (now : ℕ × ℕ) (i : ℕ) where
    abbrev pub write_to_slot : (BackendEntry F → BackendEntry F) → Running F → Running F
    write_to_slot f r = record r { state = record r.state { slots = modify r.state.slots i f } }

    unfoldable pub perform : Write → Running F → Running F
    perform walk r =
        write_to_slot (walked qd)
          (record r { num_nodes = walk_count qd (get_elem? r.state.slots i) })
    perform put_count r =
        write_to_slot (λ be. record be { count_of_metrics = r.num_nodes % u32_mod }) r
    perform put_start_time r = write_to_slot (λ be. record be { query_start_time = now.0 }) r
    perform put_query_id r =
        write_to_slot
          (λ be. record be {
            query_id = get_query_id qd.query_id qd.source_text now.1 r.state.backend.my_proc_pid;
          })
          r
    perform put_query_text r =
        write_to_slot
          (λ be. record be { query_text = copy_text env.max_query_text_len qd.source_text }) r
    perform publish r = record r {
      state = record r.state { backend = set_current_query_desc (some qd) r.state.backend };
    }

  -- So many signals, one after the other.
  abbrev pub signaled : ℕ → State F → State F
  signaled zero s = s
  signaled (suc k) s =
      let h = sigusr2_handler d env.max_nodes_per_query s.slots s.backend in
      signaled k (record { slots = h.0; backend = h.1 })

  -- So many signals before each write; none when the list has ended.
  unfoldable pub interrupted : QueryDesc F → ℕ × ℕ → ℕ → List Write → List ℕ → Running F → Running F
  unfolding perform
  interrupted qd now i [] ks r = r
  interrupted qd now i (w ∷ ws) [] r = interrupted qd now i ws [] (perform qd now i w r)
  interrupted qd now i (w ∷ ws) (k ∷ ks) r =
      interrupted qd now i ws ks (perform qd now i w (record r { state = signaled k r.state }))

  abbrev pub track_interrupted :
      List ℕ → QueryDesc F → ℕ × ℕ → Backend F → Option ℕ × Slots F → State F
  track_interrupted ks qd now b (none, slots) = record { slots = slots; backend = b }
  track_interrupted ks qd now b (some i, slots) =
      (interrupted qd now i block ks
        (record { num_nodes = 0; state = record { slots = slots; backend = b } })).state

  -- The start hook, with signals before each write of its block.
  unfoldable pub query_start_interrupted :
      List ℕ → QueryDesc F → ℕ × ℕ → Handler → State F → State F
  unfolding interrupted
  query_start_interrupted ks qd now old s =
      if is_tracked d env qd s.backend
      then track_interrupted ks (started d env qd) now (initialized d env old s.backend)
          (get_or_create_my_backend_entry s.backend.my_proc_pid s.slots)
      else s
