-- ===== src/Hooks/Release.antt =====
-- The ends of a query in src/pg_what_is_happening.c: the backend gives its slot back.
use pg_what_is_happening.Base.{
  ℕ, ◌≤◌, ◌≡◌, ◌≢◌, ◌⊎◌, inl, inr, refl, true, Option, none, some, arith, length,
}
use pg_what_is_happening.Doubles.{Doubles}
use pg_what_is_happening.Memory.{BackendEntry}
use pg_what_is_happening.Memory.Find.{find_pid}
use pg_what_is_happening.Memory.Distinct.{Absent, Distinct, find_from-Absent, release_my-Absent}
use pg_what_is_happening.Signal.{QueryDesc}
use pg_what_is_happening.Hooks.{
  Env, completes, xact_event_abort, State, query_cleanup_callback, finish_entry, end_query,
  query_end_hook,
}
use pg_what_is_happening.Hooks.Entry.{get_my-find_pid, free_found}

module _ {F : Type 0} (d : Doubles F) (env : Env F) where
  finish_entry-frees :
      (qd : QueryDesc F) (pid : ℕ) (be : BackendEntry F)
      → pid ≢ 0
      → be.backend_pid ≡ pid
      → (finish_entry d env qd be).backend_pid ≡ 0
  unfolding finish_entry
  finish_entry-frees qd pid be h e = ground arith

  -- What the hook leaves for the process that ran it.
  abbrev pub Ended : State F → State F → Type 0
  Ended before after =
      Absent before.backend.my_proc_pid after.slots
      × ((after.backend.current_query_desc ≡ none)
          ⊎ (find_pid before.backend.my_proc_pid before.slots ≡ none))

  end_query-Ended :
      (qd : QueryDesc F) (s : State F) (found : Option ℕ)
      → s.backend.my_proc_pid ≢ 0
      → Distinct s.slots
      → find_pid s.backend.my_proc_pid s.slots ≡ found
      → Ended s (end_query d env qd completes found s)
  unfolding end_query
  end_query-Ended qd s none h u e = (find_from-Absent s.backend.my_proc_pid s.slots 0 e, inr e)
  end_query-Ended qd s (some i) h u e = (
    free_found s.backend.my_proc_pid s.slots i (finish_entry d env qd) h
        (λ be. finish_entry-frees qd s.backend.my_proc_pid be h) u e,
    inl refl,
  )

  -- While the extension is enabled and the backend is initialised, the end of a query without an
  -- error leaves the process with no slot; and if it had one, the pointer to the current query is
  -- cleared.
  pub query_end-Ended :
      (qd : QueryDesc F) (s : State F)
      → s.backend.is_enabled ≡ true
      → s.backend.was_initialized ≡ true
      → s.backend.my_proc_pid ≢ 0
      → length s.slots ≤ 256
      → Distinct s.slots
      → Ended s (query_end_hook d env qd completes s)
  unfolding query_end_hook
  query_end-Ended qd s en ini h b u =
      simp (en, ini, get_my-find_pid s.backend.my_proc_pid s.slots h b)
        (end_query-Ended qd s (find_pid s.backend.my_proc_pid s.slots) h u refl)

module _ {F : Type 0} where
  -- An abort, while the extension is enabled, clears the pointer to the current query and leaves the
  -- process with no slot.
  pub abort-releases :
      (s : State F)
      → s.backend.is_enabled ≡ true
      → s.backend.my_proc_pid ≢ 0
      → Distinct s.slots
      → ((query_cleanup_callback xact_event_abort s).backend.current_query_desc ≡ none)
        × Absent s.backend.my_proc_pid (query_cleanup_callback xact_event_abort s).slots
  unfolding query_cleanup_callback
  abort-releases s en h u = (refl, rw en (release_my-Absent s.backend.my_proc_pid s.slots h u))
