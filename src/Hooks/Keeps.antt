-- ===== src/Hooks/Keeps.antt =====
-- The hooks and callbacks of src/pg_what_is_happening.c keep the invariant of the slots.
use pg_what_is_happening.Base.{
  ℕ, ◌≤◌, ◌≡◌, ◌≢◌, refl, inl, inr, Option, none, some, arith, ◌&&◌, length, Bool-cases,
}
use pg_what_is_happening.Doubles.{Doubles}
use pg_what_is_happening.Memory.{BackendEntry, Slots}
use pg_what_is_happening.Walker.{PlanState}
use pg_what_is_happening.Walker.Collect.{collect-length, remember-length}
use pg_what_is_happening.Signal.{
  QueryDesc, Handler, Backend, Counters, refresh_entry, refresh, handle, find_my_slot,
  sigusr2_handler, count_call,
}
use pg_what_is_happening.Hooks.{
  Env, Outcome, completes, raises, XactEvent, State, backend_exit_callback, query_cleanup_callback,
  fill_entry, track_query, track_in, started, is_tracked, query_start_hook, finish_entry, end_query,
  query_end_hook,
}
use pg_what_is_happening.Hooks.Entry.{KeepsPid}
use pg_what_is_happening.Hooks.WellFormed.{
  Sized, WellFormed, modify-WellFormed, release-WellFormed, create-WellFormed,
}

module _ {F : Type 0} (d : Doubles F) (env : Env F) where
  -- A raised error leaves an array of the same length.
  abbrev pub LeavesArray : Outcome F → Type 0
  LeavesArray completes = Unit {0}
  LeavesArray (raises ms) = length ms ≡ env.max_nodes_per_query

  abbrev pub Good : Slots F → Type 0
  Good slots = (env.max_nodes_per_query ≤ 256) × WellFormed env.max_nodes_per_query slots

  fill_entry-Sized :
      (qd : QueryDesc F) (now : ℕ × ℕ) (pid : ℕ) (be : BackendEntry F)
      → env.max_nodes_per_query ≤ 256
      → Sized env.max_nodes_per_query be
      → Sized env.max_nodes_per_query (fill_entry d env qd now pid be)
  unfolding fill_entry
  fill_entry-Sized qd now pid be le z =
      let (l, c) = remember-length d qd.planstate be.metrics env.max_nodes_per_query z.0 in
      (l, omega arith)

  fill_entry-KeepsPid :
      (qd : QueryDesc F) (now : ℕ × ℕ) (pid : ℕ) → KeepsPid (fill_entry d env qd now pid)
  unfolding fill_entry
  fill_entry-KeepsPid qd now pid be = inl refl

  finish_entry-KeepsPid : (qd : QueryDesc F) → KeepsPid (finish_entry d env qd)
  unfolding finish_entry
  finish_entry-KeepsPid qd be = ground arith

  finish_entry-Sized :
      (qd : QueryDesc F) (be : BackendEntry F)
      → Sized env.max_nodes_per_query be
      → Sized env.max_nodes_per_query (finish_entry d env qd be)
  unfolding finish_entry
  finish_entry-Sized qd be z =
      ground (arith, collect-length d qd.planstate be.metrics env.max_nodes_per_query z.0)

  track_query-Good :
      (qd : QueryDesc F) (now : ℕ × ℕ) (o : Outcome F) (i : ℕ) (s : State F)
      → LeavesArray o
      → Good s.slots
      → Good (track_query d env qd now o i s).slots
  unfolding track_query
  track_query-Good qd now completes i s l (le, w) = (
    le,
    modify-WellFormed _ s.slots i (fill_entry d env qd now s.backend.my_proc_pid)
        (fill_entry-KeepsPid qd now s.backend.my_proc_pid)
        (λ be. fill_entry-Sized qd now s.backend.my_proc_pid be le) w,
  )
  track_query-Good qd now (raises ms) i s l (le, w) = (
    le,
    release-WellFormed _ s.backend.my_proc_pid _ (
        modify-WellFormed _ s.slots i (λ be. record be { metrics = ms }) (λ be. inl refl)
          (λ be z. (l, z.1)) w),
  )

  track_in-Good :
      (qd : QueryDesc F) (now : ℕ × ℕ) (o : Outcome F) (b : Backend F) (r : Option ℕ × Slots F)
      → LeavesArray o
      → Good r.1
      → Good (track_in d env qd now o b r).slots
  unfolding track_in
  track_in-Good qd now o b (none, slots) l g = g
  track_in-Good qd now o b (some i, slots) l g =
      track_query-Good qd now o i (record { slots = slots; backend = b }) l g

  pub query_start-Good :
      (qd : QueryDesc F) (now : ℕ × ℕ) (old : Handler) (o : Outcome F) (s : State F)
      → s.backend.my_proc_pid ≢ 0
      → LeavesArray o
      → Good s.slots
      → Good (query_start_hook d env qd now old o s).slots
  unfolding query_start_hook
  query_start-Good qd now old o s h l g = elim (Bool-cases (is_tracked d env qd s.backend)) [
    | inl t ↦ rw t (
        track_in-Good (started d env qd) now o _ _ l
          (g.0, create-WellFormed _ s.backend.my_proc_pid s.slots h g.1))
    | inr f ↦ rw f g
  ]

  end_query-Good :
      (qd : QueryDesc F) (o : Outcome F) (found : Option ℕ) (s : State F)
      → LeavesArray o
      → Good s.slots
      → Good (end_query d env qd o found s).slots
  unfolding end_query
  end_query-Good qd o none s l g = g
  end_query-Good qd completes (some i) s l (le, w) = (
    le,
    modify-WellFormed _ s.slots i (finish_entry d env qd) (finish_entry-KeepsPid qd)
        (finish_entry-Sized qd) w,
  )
  end_query-Good qd (raises ms) (some i) s l (le, w) = (
    le,
    modify-WellFormed _ s.slots i (λ be. record be { metrics = ms }) (λ be. inl refl)
        (λ be z. (l, z.1)) w,
  )

  pub query_end-Good :
      (qd : QueryDesc F) (o : Outcome F) (s : State F)
      → LeavesArray o
      → Good s.slots
      → Good (query_end_hook d env qd o s).slots
  unfolding query_end_hook
  query_end-Good qd o s l g =
      elim (Bool-cases (s.backend.is_enabled && s.backend.was_initialized)) [
        | inl t ↦ rw t (end_query-Good qd o _ s l g)
        | inr f ↦ rw f g
      ]

  pub cleanup_callback-Good :
      (event : XactEvent) (s : State F) → Good s.slots → Good (query_cleanup_callback event s).slots
  unfolding query_cleanup_callback
  cleanup_callback-Good event s g =
      ground (arith, release-WellFormed env.max_nodes_per_query s.backend.my_proc_pid s.slots g.1)

  pub exit_callback-Good : (s : State F) → Good s.slots → Good (backend_exit_callback s).slots
  unfolding backend_exit_callback
  exit_callback-Good s (le, w) = (le, release-WellFormed _ s.backend.my_proc_pid s.slots w)

  refresh_entry-Sized :
      (p : PlanState F) (be : BackendEntry F)
      → Sized env.max_nodes_per_query be
      → Sized env.max_nodes_per_query (refresh_entry d env.max_nodes_per_query p be)
  refresh_entry-Sized p be z = (collect-length d p be.metrics env.max_nodes_per_query z.0, z.1)

  refresh-Good :
      (p : PlanState F) (found : Option ℕ) (slots : Slots F) (k : Counters)
      → Good slots
      → Good (refresh d env.max_nodes_per_query p found slots k).0
  unfolding refresh
  refresh-Good p none slots k g = g
  refresh-Good p (some i) slots k (le, w) = (
    le,
    modify-WellFormed _ slots i (refresh_entry d env.max_nodes_per_query p) (λ be. inl refl)
        (refresh_entry-Sized p) w,
  )

  handle-Good :
      (b : Backend F) (q : Option (QueryDesc F)) (slots : Slots F) (k : Counters)
      → Good slots
      → Good (handle d env.max_nodes_per_query b q slots k).0
  unfolding handle
  handle-Good b none slots k g = g
  handle-Good b (some qd) slots k g =
      ground (arith, refresh-Good qd.planstate (find_my_slot b.my_proc_pid slots 0) slots k g)

  pub sigusr2_handler-Good :
      (slots : Slots F) (b : Backend F)
      → Good slots
      → Good (sigusr2_handler d env.max_nodes_per_query slots b).0
  unfolding sigusr2_handler
  sigusr2_handler-Good slots b g =
      handle-Good b b.current_query_desc slots (count_call b.counters) g
