-- ===== src/Hooks/Session.antt =====
-- The life of one backend, from before its first query: its hooks, callbacks and signals, reloads of
-- the setting that enables the extension, and what other processes do to the slots meanwhile.
use mathlib.Core.Option.{some-injective}
use pg_what_is_happening.Base.{
  ℕ, ◌≤◌, ◌≡◌, ◌≢◌, zero, suc, inl, inr, refl, sym, ap, ◌∙◌, Bool, true, none, some, [], ◌∷◌, All,
  get_elem?, length, modify,
}
use pg_what_is_happening.Doubles.{Doubles}
use pg_what_is_happening.Memory.{BackendEntry, Slots}
use pg_what_is_happening.Memory.Find.{find_pid}
use pg_what_is_happening.Signal.{
  QueryDesc, Handler, bump, count_call, has_planstate, refresh, refresh_entry, handle,
  sigusr2_handler,
}
use pg_what_is_happening.Signal.Reads.{read_tree, modify-read_tree}
use pg_what_is_happening.Hooks.{
  Env, Outcome, XactEvent, State, query_cleanup_callback, query_start_hook, query_end_hook,
}
use pg_what_is_happening.Hooks.Backed.{
  Backed, query_start-Backed, query_end-Backed, cleanup_callback-Backed, handle-HasSlot,
  find_my_slot-find_from,
}

module _ {F : Type 0} (d : Doubles F) (env : Env F) where
  abbrev pub after_signal : State F → State F
  after_signal s = record {
    slots = (sigusr2_handler d env.max_nodes_per_query s.slots s.backend).0;
    backend = (sigusr2_handler d env.max_nodes_per_query s.slots s.backend).1;
  }

  -- Others leave the search for this process as it is.
  pub data SessionStep : State F → State F → Type 0 where
    starts_query :
        (s : State F) (qd : QueryDesc F) (now : ℕ × ℕ) (old : Handler) (o : Outcome F)
        → s.backend.my_proc_pid ≢ 0
        → length s.slots ≤ 256
        → SessionStep s (query_start_hook d env qd now old o s)
    ends_query :
        (s : State F) (qd : QueryDesc F) (o : Outcome F)
        → SessionStep s (query_end_hook d env qd o s)
    ends_transaction :
        (s : State F) (event : XactEvent) → SessionStep s (query_cleanup_callback event s)
    gets_signal : (s : State F) → SessionStep s (after_signal s)
    reloads :
        (s : State F) (is_enabled : Bool)
        → SessionStep s (record s { backend = record s.backend { is_enabled = is_enabled } })
    others :
        (s : State F) (slots : Slots F)
        → find_pid s.backend.my_proc_pid slots ≡ find_pid s.backend.my_proc_pid s.slots
        → SessionStep s (record s { slots = slots })

  pub data Session (s : State F) : State F → Type 0 where
    new : Session s s
    step : {t u : State F} → Session s t → SessionStep t u → Session s u

  signal-Backed : (s : State F) → Backed s → Backed (after_signal s)
  unfolding sigusr2_handler
  signal-Backed s (inl n) = inl n
  signal-Backed s (inr has) = inr (
      handle-HasSlot d env s.backend s.backend.current_query_desc s.slots
        (count_call s.backend.counters) s.backend.my_proc_pid has)

  SessionStep-Backed : {t u : State F} → SessionStep t u → Backed t → Backed u
  SessionStep-Backed (starts_query s qd now old o h b) back =
      query_start-Backed d env qd now old o s h b back
  SessionStep-Backed (ends_query s qd o) back = query_end-Backed d env qd o s back
  SessionStep-Backed (ends_transaction s event) back = cleanup_callback-Backed d env event s back
  SessionStep-Backed (gets_signal s) back = signal-Backed s back
  SessionStep-Backed (reloads s e) back = back
  SessionStep-Backed (others s slots same) (inl n) = inl n
  SessionStep-Backed (others s slots same) (inr (i, e)) = inr (i, same ∙ e)

  -- In a session that begins without a current query, the backend at any time has no current query
  -- or has a slot, whichever of its queries were tracked, failed or were nested.
  pub Session-Backed :
      {s t : State F} → s.backend.current_query_desc ≡ none → Session s t → Backed t
  Session-Backed e new = inl e
  Session-Backed e (step r st) = SessionStep-Backed st (Session-Backed e r)

  signal_with_slot :
      (s : State F) (qd : QueryDesc F) (i : ℕ)
      → s.backend.current_query_desc ≡ some qd
      → has_planstate qd.planstate ≡ true
      → s.backend.shmem_attached ≡ true
      → find_pid s.backend.my_proc_pid s.slots ≡ some i
      → ((after_signal s).slots
          ≡ modify s.slots i (refresh_entry d env.max_nodes_per_query qd.planstate))
        × ((after_signal s).backend.counters.success_count ≡ bump s.backend.counters.success_count)
        × ((after_signal s).backend.counters.no_slot ≡ s.backend.counters.no_slot)
  unfolding sigusr2_handler handle refresh
  signal_with_slot s qd i q p a e =
      rw (q, p, a, find_my_slot-find_from s.backend.my_proc_pid s.slots 0, e) (refl, refl, refl)

  sized_at :
      (slots : Slots F) (i n : ℕ) {be : BackendEntry F}
      → All (λ e. length e.metrics ≡ n) slots
      → get_elem? slots i ≡ some be
      → length be.metrics ≡ n
  sized_at [] i n h e = absurd cc
  sized_at (x ∷ slots) zero n {be} (h, hs) e =
      ap (λ o. length o.metrics) (sym (some-injective x be e)) ∙ h
  sized_at (x ∷ slots) (suc i) n (h, hs) e = sized_at slots i n hs e

  -- In a session of complete calls that begins without a current query and in which the process does
  -- not exit and other processes leave the search for its slot as it is: a signal between two calls
  -- that finds a current query with a plan state, once the backend is attached to the memory and when
  -- every slot's array has max_nodes_per_query elements, is counted as a success and not as a missing
  -- slot; and of the slots it changes only the backend's own, where it writes for each node of the
  -- plan tree in preorder the instrumentation that the node has then, up to the first element without
  -- the magic number, and counts the generation up.
  pub Session-signal :
      {s t : State F} (qd : QueryDesc F)
      → s.backend.current_query_desc ≡ none
      → Session s t
      → t.backend.current_query_desc ≡ some qd
      → has_planstate qd.planstate ≡ true
      → t.backend.shmem_attached ≡ true
      → All (λ be. length be.metrics ≡ env.max_nodes_per_query) t.slots
      → (i : ℕ) × (find_pid t.backend.my_proc_pid t.slots ≡ some i)
        × ((after_signal t).slots ≡ modify t.slots i (read_tree d qd.planstate))
        × ((after_signal t).backend.counters.success_count ≡ bump t.backend.counters.success_count)
        × ((after_signal t).backend.counters.no_slot ≡ t.backend.counters.no_slot)
  Session-signal {s} {t} qd e r q p a sized = elim (Session-Backed e r) [
    | inl n ↦ absurd (none_some n)
    | inr (i, at) ↦
        let (x, y, z) = signal_with_slot t qd i q p a at in
        (
          i,
          at,
          x
              ∙ modify-read_tree d env.max_nodes_per_query qd.planstate t.slots i
                  (λ be got. sized_at t.slots i env.max_nodes_per_query sized got),
          y,
          z,
        )
  ]
    where
      none_some : t.backend.current_query_desc ≡ none → ⊥
      none_some n = cc
