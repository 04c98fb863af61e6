-- ===== src/Hooks/Backed.antt =====
-- One backend over time: while src/pg_what_is_happening.c points to a query, the backend has a slot.
use pg_what_is_happening.Base.{
  ℕ, ◌+◌, ◌≤◌, ◌≡◌, ◌≢◌, ◌⊎◌, inl, inr, refl, sym, ap, ◌∙◌, true, Option, none, some, [], ◌∷◌, ◌&&◌,
  arith, length, modify, ◌==◌, Bool-cases, zero, suc,
}
use pg_what_is_happening.Doubles.{Doubles}
use pg_what_is_happening.Memory.{
  BackendEntry, Slots, get_or_create_my_backend_entry_impl, get_my_backend_entry,
}
use pg_what_is_happening.Memory.Find.{find_pid, find_from}
use pg_what_is_happening.Memory.Claim.{claim, get_or_create-claim}
use pg_what_is_happening.Memory.Holds.{Holds, claim-Holds}
use pg_what_is_happening.Walker.{PlanState}
use pg_what_is_happening.Signal.{
  QueryDesc, Handler, Backend, Counters, has_planstate, find_my_slot, refresh, refresh_entry,
  handle,
}
use pg_what_is_happening.Hooks.{
  Env, Outcome, completes, raises, XactEvent, State, query_cleanup_callback, fill_entry,
  track_query, track_in, started, is_tracked, initialized, initialize_state_once_per_backend,
  query_start_hook, end_query, query_end_hook, backend_exit_callback, is_abort_event,
}
use pg_what_is_happening.Hooks.Entry.{find_from-modify}

module _ {F : Type 0} where
  abbrev pub HasSlot : ℕ → Slots F → Type 0
  HasSlot pid slots = (i : ℕ) × (find_pid pid slots ≡ some i)

  -- No current query, or a slot.
  abbrev pub Backed : State F → Type 0
  Backed s = (s.backend.current_query_desc ≡ none) ⊎ HasSlot s.backend.my_proc_pid s.slots

  Holds-find_from :
      (pid : ℕ) (slots : Slots F) (i k : ℕ)
      → Holds slots pid i
      → (j : ℕ) × (find_from pid slots k ≡ some j)
  Holds-find_from pid [] i k (be, at, e) = cc
  Holds-find_from pid (b ∷ rest) zero k (be, at, e) = (k, ground arith)
  Holds-find_from pid (b ∷ rest) (suc i) k (be, at, e) =
      let (j, later) = Holds-find_from pid rest i (k + 1) (be, at, e) in
      elim (Bool-cases (b.backend_pid == pid)) [ inl t ↦ (k, rw t refl) | inr f ↦ (j, rw f later) ]

  modify-HasSlot :
      (pid : ℕ) (slots : Slots F) (i : ℕ) (f : BackendEntry F → BackendEntry F)
      → ((be : BackendEntry F) → (f be).backend_pid ≡ be.backend_pid)
      → HasSlot pid slots
      → HasSlot pid (modify slots i f)
  modify-HasSlot pid slots i f h (j, e) = (j, find_from-modify pid slots 0 i f h ∙ e)

  -- A claim that gives a slot leaves its backend with one.
  claim-HasSlot :
      (pid : ℕ) (slots : Slots F) (i : ℕ)
      → pid ≢ 0
      → length slots ≤ 256
      → (get_or_create_my_backend_entry_impl true pid slots).0 ≡ some i
      → HasSlot pid (get_or_create_my_backend_entry_impl true pid slots).1
  claim-HasSlot pid slots i h b e = rw (get_or_create-claim true pid slots h b) (
      Holds-find_from pid (claim true pid slots).1 i 0 (
        claim-Holds pid slots (find_pid pid slots) (find_pid 0 slots) i refl refl
          (ap (λ r. r.0) (sym (get_or_create-claim true pid slots h b)) ∙ e)))

  -- A claim never takes a slot away.
  claim-HasSlot_same :
      (pid : ℕ) (slots : Slots F)
      → pid ≢ 0
      → length slots ≤ 256
      → HasSlot pid slots
      → HasSlot pid (get_or_create_my_backend_entry_impl true pid slots).1
  claim-HasSlot_same pid slots h b (i, e) = rw (get_or_create-claim true pid slots h b, e) (i, e)

  -- The handler's own loop is the search.
  pub find_my_slot-find_from :
      (pid : ℕ) (slots : Slots F) (i : ℕ) → find_my_slot pid slots i ≡ find_from pid slots i
  unfolding find_my_slot
  find_my_slot-find_from pid [] i = refl
  find_my_slot-find_from pid (be ∷ rest) i = ground (arith, find_my_slot-find_from pid rest (i + 1))

module _ {F : Type 0} (d : Doubles F) (env : Env F) where
  track_in-Backed :
      (qd : QueryDesc F) (now : ℕ × ℕ) (o : Outcome F) (b : Backend F) (r : Option ℕ × Slots F)
      → ((i : ℕ) → r.0 ≡ some i → HasSlot b.my_proc_pid r.1)
      → (r.0 ≡ none → Backed (record { slots = r.1; backend = b }))
      → Backed (track_in d env qd now o b r)
  unfolding track_in track_query fill_entry backend_exit_callback
  track_in-Backed qd now o b (none, slots) has old = old refl
  track_in-Backed qd now completes b (some i, slots) has old = inr (
      modify-HasSlot b.my_proc_pid slots i (fill_entry d env qd now b.my_proc_pid) (λ be. refl)
        (has i refl))
  track_in-Backed qd now (raises ms) b (some i, slots) has old = inl refl

  pub initialized-same :
      (old : Handler) (b : Backend F)
      → ((initialized d env old b).my_proc_pid ≡ b.my_proc_pid)
        × ((initialized d env old b).current_query_desc ≡ b.current_query_desc)
  unfolding initialized initialize_state_once_per_backend
  initialized-same old b = ground arith

  pub query_start-Backed :
      (qd : QueryDesc F) (now : ℕ × ℕ) (old : Handler) (o : Outcome F) (s : State F)
      → s.backend.my_proc_pid ≢ 0
      → length s.slots ≤ 256
      → Backed s
      → Backed (query_start_hook d env qd now old o s)
  unfolding query_start_hook
  query_start-Backed qd now old o s h b back = elim (Bool-cases (is_tracked d env qd s.backend)) [
    | inr f ↦ rw f back
    | inl t ↦ rw t (
        track_in-Backed (started d env qd) now o (initialized d env old s.backend)
          (get_or_create_my_backend_entry_impl true s.backend.my_proc_pid s.slots)
          (λ i e.
            rw (initialized-same old s.backend).0
              (claim-HasSlot s.backend.my_proc_pid s.slots i h b e))
          (λ e. kept back))
  ]
    where
      kept :
          Backed s
          → Backed (record {
            slots = (get_or_create_my_backend_entry_impl true s.backend.my_proc_pid s.slots).1;
            backend = initialized d env old s.backend;
          })
      kept (inl n) = inl ((initialized-same old s.backend).1 ∙ n)
      kept (inr has) = inr (
          rw (initialized-same old s.backend).0
            (claim-HasSlot_same s.backend.my_proc_pid s.slots h b has))

  end_query-Backed :
      (qd : QueryDesc F) (o : Outcome F) (s : State F) (found : Option ℕ)
      → Backed s
      → Backed (end_query d env qd o found s)
  unfolding end_query
  end_query-Backed qd o s none back = back
  end_query-Backed qd completes s (some i) back = inl refl
  end_query-Backed qd (raises ms) s (some i) back = inl refl

  pub query_end-Backed :
      (qd : QueryDesc F) (o : Outcome F) (s : State F)
      → Backed s
      → Backed (query_end_hook d env qd o s)
  unfolding query_end_hook
  query_end-Backed qd o s back =
      elim (Bool-cases (s.backend.is_enabled && s.backend.was_initialized)) [
        | inr f ↦ rw f back
        | inl t ↦
            rw t (end_query-Backed qd o s (get_my_backend_entry s.backend.my_proc_pid s.slots) back)
      ]

  pub cleanup_callback-Backed :
      (event : XactEvent) (s : State F) → Backed s → Backed (query_cleanup_callback event s)
  unfolding query_cleanup_callback
  cleanup_callback-Backed event s back = elim (Bool-cases (is_abort_event event)) [
    | inr f ↦ rw f back
    | inl t ↦ rw t (inl refl)
  ]

  refresh-HasSlot :
      (p : PlanState F) (i : Option ℕ) (slots : Slots F) (k : Counters) (pid : ℕ)
      → HasSlot pid slots
      → HasSlot pid (refresh d env.max_nodes_per_query p i slots k).0
  unfolding refresh
  refresh-HasSlot p none slots k pid has = has
  refresh-HasSlot p (some i) slots k pid has =
      modify-HasSlot pid slots i (refresh_entry d env.max_nodes_per_query p) (λ be. refl) has

  pub handle-HasSlot :
      (b : Backend F) (q : Option (QueryDesc F)) (slots : Slots F) (k : Counters) (pid : ℕ)
      → HasSlot pid slots
      → HasSlot pid (handle d env.max_nodes_per_query b q slots k).0
  unfolding handle
  handle-HasSlot b none slots k pid has = has
  handle-HasSlot b (some qd) slots k pid has = elim (Bool-cases (has_planstate qd.planstate)) [
    | inr f ↦ rw f has
    | inl t ↦ rw t (elim (Bool-cases b.shmem_attached) [
      | inr f ↦ rw f has
      | inl a ↦
          rw a (refresh-HasSlot qd.planstate (find_my_slot b.my_proc_pid slots 0) slots k pid has)
    ])
  ]
