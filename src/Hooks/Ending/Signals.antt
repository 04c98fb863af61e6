-- ===== src/Hooks/Ending/Signals.antt =====
-- Signals within `query_end_hook` of src/pg_what_is_happening.c leave what the hook alone leaves.
use pg_what_is_happening.Base.{
  iterate, modify-modify, ℕ, zero, suc, ◌+◌, ◌%◌, ◌≤◌, ◌≡◌, ◌≢◌, refl, ap, ◌∙◌, true, Option, none,
  some, modify, length,
}
use pg_what_is_happening.Doubles.{Doubles}
use pg_what_is_happening.Memory.{BackendEntry, Slots, u32_mod}
use pg_what_is_happening.Memory.Find.{find_pid}
use pg_what_is_happening.Memory.Distinct.{Distinct}
use pg_what_is_happening.Walker.{PlanState}
use pg_what_is_happening.Signal.{
  QueryDesc, Backend, Counters, bump, count_call, has_planstate, refresh_entry, refresh, handle,
  sigusr2_handler,
}
use pg_what_is_happening.Hooks.{Env, State}
use pg_what_is_happening.Hooks.Entry.{find_from-modify}
use pg_what_is_happening.Hooks.Backed.{find_my_slot-find_from}
use pg_what_is_happening.Hooks.Interrupt.{signaled}

-- What signals do to a slot that they find, and to the counters.
abbrev pub hit : Counters → Counters
hit k = record (count_call k) { success_count = bump k.success_count }

abbrev pub miss : Counters → Counters
miss k = record (count_call k) { no_slot = bump k.no_slot }

abbrev pub hits : ℕ → Counters → Counters
hits = iterate hit

abbrev pub misses : ℕ → Counters → Counters
misses = iterate miss

-- So many increments of `poll_generation`.
abbrev pub bumps : ℕ → ℕ → ℕ
bumps = iterate (λ g. (g + 1) % u32_mod)

abbrev pub polled : {F : Type 0} → ℕ → BackendEntry F → BackendEntry F
polled n be = record be { poll_generation = bumps n be.poll_generation }

module _ {F : Type 0} where
  -- The state with the slot `i` changed, and with these counters.
  abbrev pub changed : State F → ℕ → (BackendEntry F → BackendEntry F) → Counters → State F
  changed s i f k = record {
    slots = modify s.slots i f;
    backend = record s.backend { counters = k };
  }

  -- A backend with a live query, attached to the memory.
  pub record Live (qd : QueryDesc F) (b : Backend F) : Type 0 where
    pub current : b.current_query_desc ≡ some qd
    pub live : has_planstate qd.planstate ≡ true
    pub attached : b.shmem_attached ≡ true

  -- The backend has a live query and one slot.
  pub record Ready (qd : QueryDesc F) (s : State F) (i : ℕ) : Type 0 where
    pub live : Live qd s.backend
    pub named : s.backend.my_proc_pid ≢ 0
    pub size : length s.slots ≤ 256
    pub distinct : Distinct s.slots
    pub found : find_pid s.backend.my_proc_pid s.slots ≡ some i

module _ {F : Type 0} (d : Doubles F) (env : Env F) where
  abbrev pub refreshes : PlanState F → ℕ → BackendEntry F → BackendEntry F
  refreshes p = iterate (refresh_entry d env.max_nodes_per_query p)

  pub refreshes-pid :
      (p : PlanState F) (n : ℕ) (be : BackendEntry F)
      → (refreshes p n be).backend_pid ≡ be.backend_pid
  refreshes-pid p zero be = refl
  refreshes-pid p (suc n) be = refreshes-pid p n (refresh_entry d env.max_nodes_per_query p be)

  handled :
      (qd : QueryDesc F) (b : Backend F) (slots : Slots F) (k : Counters) (o : Option ℕ)
      → Live qd b
      → find_pid b.my_proc_pid slots ≡ o
      → handle d env.max_nodes_per_query b b.current_query_desc slots k
        ≡ refresh d env.max_nodes_per_query qd.planstate o slots k
  unfolding handle
  handled qd b slots k o l e =
      rw (l.current, handle, l.live, l.attached, find_my_slot-find_from b.my_proc_pid slots 0, e)
        refl

  -- One signal of a backend with a live query.
  signal_found :
      (qd : QueryDesc F) (s : State F) (i : ℕ)
      → Live qd s.backend
      → find_pid s.backend.my_proc_pid s.slots ≡ some i
      → signaled d env 1 s
        ≡ changed s i
            (refresh_entry d env.max_nodes_per_query qd.planstate)
            (hit s.backend.counters)
  unfolding sigusr2_handler refresh
  signal_found qd s i l e =
      ap (λ r. record { slots = r.0; backend = record s.backend { counters = r.1 } })
        (handled qd s.backend s.slots (count_call s.backend.counters) (some i) l e)

  signal_missed :
      (qd : QueryDesc F) (s : State F)
      → Live qd s.backend
      → find_pid s.backend.my_proc_pid s.slots ≡ none
      → signaled d env 1 s
        ≡ record s { backend = record s.backend { counters = miss s.backend.counters } }
  unfolding sigusr2_handler refresh
  signal_missed qd s l e =
      ap (λ r. record { slots = r.0; backend = record s.backend { counters = r.1 } })
        (handled qd s.backend s.slots (count_call s.backend.counters) none l e)

  -- Signals while the slot is found, after changes that keep its process.
  pub signaled_found :
      (qd : QueryDesc F) (s : State F) (i n : ℕ) (f : BackendEntry F → BackendEntry F)
      (k : Counters)
      → Live qd s.backend
      → find_pid s.backend.my_proc_pid s.slots ≡ some i
      → ((be : BackendEntry F) → (f be).backend_pid ≡ be.backend_pid)
      → signaled d env n (changed s i f k)
        ≡ changed s i (λ be. refreshes qd.planstate n (f be)) (hits n k)
  signaled_found qd s i zero f k l e h = refl
  signaled_found qd s i (suc n) f k l e h =
      let fresh = refresh_entry d env.max_nodes_per_query qd.planstate in
      ap (signaled d env n) (
        signal_found qd (changed s i f k) i
          (record { current = l.current; live = l.live; attached = l.attached })
          (find_from-modify s.backend.my_proc_pid s.slots 0 i f h ∙ e)
        ∙ ap (λ t. record { slots = t; backend = record s.backend { counters = hit k } })
            (modify-modify s.slots i f fresh))
      ∙ signaled_found qd s i n (λ be. fresh (f be)) (hit k) l e h

  -- Signals when the process has no slot.
  pub signaled_missed :
      (qd : QueryDesc F) (s : State F) (n : ℕ)
      → Live qd s.backend
      → find_pid s.backend.my_proc_pid s.slots ≡ none
      → signaled d env n s
        ≡ record s { backend = record s.backend { counters = misses n s.backend.counters } }
  signaled_missed qd s zero l e = refl
  signaled_missed qd s (suc n) l e =
      let missed = record s { backend = record s.backend { counters = miss s.backend.counters } } in
      ap (signaled d env n) (signal_missed qd s l e)
      ∙ signaled_missed qd missed n
          (record { current = l.current; live = l.live; attached = l.attached }) e
