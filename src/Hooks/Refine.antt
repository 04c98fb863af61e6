-- ===== src/Hooks/Refine.antt =====
-- The hooks, callbacks, signals and cleanups of all backends implement a pool of places: the view
-- forgets the order of the slots and what they hold.
use pg_what_is_happening.Base.{
  ℕ, ◌⊎◌, zero, suc, ◌≤◌, ◌≡◌, ◌≢◌, refl, inl, inr, Bool, true, false, ◌&&◌, Option, none, some,
  arith, ◌==◌, if◌then◌else◌, modify, length, replicate, Bool-cases,
}
use pg_what_is_happening.Doubles.{Doubles}
use pg_what_is_happening.Memory.{
  BackendEntry, Slots, is_backend_entry_active, get_my_backend_entry,
  get_or_create_my_backend_entry_impl,
}
use pg_what_is_happening.Memory.Layout.{Settings, InRange}
use pg_what_is_happening.Memory.Startup.{initial_slots, zero_entry}
use pg_what_is_happening.Memory.Tally.{
  Tally, tally, PoolReach, stays, PoolReach-trans, modify-PoolReach, release_my-PoolReach,
  cleanup-PoolReach, get_my-own, Gone, get_or_create-PoolReach,
}
use pg_what_is_happening.Walker.{PlanState}
use pg_what_is_happening.Signal.{
  QueryDesc, Handler, Backend, Counters, has_planstate, find_my_slot, refresh, refresh_entry,
  handle, count_call, sigusr2_handler,
}
use pg_what_is_happening.Hooks.{
  Env, Outcome, completes, raises, XactEvent, State, is_abort_event, backend_exit_callback,
  query_cleanup_callback, fill_entry, track_query, track_in, started, is_tracked, initialized,
  query_start_hook, finish_entry, end_query, query_end_hook,
}
use pg_what_is_happening.Hooks.Backed.{initialized-same}
use pg_what_is_happening.Hooks.Keeps.{Good}
use pg_what_is_happening.Hooks.World.{
  at, Step, starts, ends, transaction, exits, signaled, cleans, Reach, Reach-Good, initial-Good,
}

-- A pool of `n` free places.
abbrev pub all_free : ℕ → Tally
all_free n r = if 0 == r then n else 0

-- The process of the backend, and none.
abbrev pub Own : {F : Type 0} → Backend F → Bool → ℕ → Type 0
Own b take p = p ≡ b.my_proc_pid

abbrev pub Nobody : Bool → ℕ → Type 0
Nobody take p = ⊥

module _ {F : Type 0} (d : Doubles F) (env : Env F) where
  track_in-PoolReach :
      (qd : QueryDesc F) (now : ℕ × ℕ) (o : Outcome F) (c b : Backend F) (r : Option ℕ × Slots F)
      → b.my_proc_pid ≡ c.my_proc_pid
      → PoolReach (Own c) (tally r.1) (tally (track_in d env qd now o b r).slots)
  unfolding track_in track_query fill_entry backend_exit_callback
  track_in-PoolReach qd now o c b (none, slots) e = stays (λ r. refl)
  track_in-PoolReach qd now completes c b (some i, slots) e =
      modify-PoolReach (Own c) slots i (fill_entry d env qd now b.my_proc_pid) (λ be at. inl refl)
  track_in-PoolReach qd now (raises ms) c b (some i, slots) e = rw (← e) (
      PoolReach-trans
        (modify-PoolReach (Own b) slots i (λ be. record be { metrics = ms }) (λ be at. inl refl))
        (release_my-PoolReach b.my_proc_pid (modify slots i (λ be. record be { metrics = ms }))))

  query_start-PoolReach :
      (qd : QueryDesc F) (now : ℕ × ℕ) (old : Handler) (o : Outcome F) (s : State F)
      → s.backend.my_proc_pid ≢ 0
      → length s.slots ≤ 256
      → PoolReach
          (Own s.backend)
          (tally s.slots)
          (tally (query_start_hook d env qd now old o s).slots)
  unfolding query_start_hook
  query_start-PoolReach qd now old o s h b = elim (Bool-cases (is_tracked d env qd s.backend)) [
    | inr f ↦ rw f (stays (λ r. refl))
    | inl t ↦ rw t (
        PoolReach-trans (get_or_create-PoolReach true s.backend.my_proc_pid s.slots h b) (
          track_in-PoolReach (started d env qd) now o s.backend (initialized d env old s.backend)
            (get_or_create_my_backend_entry_impl true s.backend.my_proc_pid s.slots)
            (initialized-same d env old s.backend).0))
  ]

  finish_entry-frees_or_keeps :
      (qd : QueryDesc F) (b : Backend F) (be : BackendEntry F)
      → Own b false be.backend_pid
      → ((finish_entry d env qd be).backend_pid ≡ be.backend_pid)
        ⊎ ((finish_entry d env qd be).backend_pid ≡ 0) × Own b false be.backend_pid
  unfolding finish_entry
  finish_entry-frees_or_keeps qd b be own = elim (Bool-cases (is_backend_entry_active be)) [
    | inl t ↦ inr (rw t refl, own)
    | inr f ↦ inl (rw f refl)
  ]

  end_query-PoolReach :
      (qd : QueryDesc F) (o : Outcome F) (s : State F) (found : Option ℕ)
      → get_my_backend_entry s.backend.my_proc_pid s.slots ≡ found
      → PoolReach (Own s.backend) (tally s.slots) (tally (end_query d env qd o found s).slots)
  unfolding end_query
  end_query-PoolReach qd o s none e = stays (λ r. refl)
  end_query-PoolReach qd completes s (some i) e =
      modify-PoolReach (Own s.backend) s.slots i (finish_entry d env qd) (λ be at.
        finish_entry-frees_or_keeps qd s.backend be
          (get_my-own s.backend.my_proc_pid s.slots i e at))
  end_query-PoolReach qd (raises ms) s (some i) e =
      modify-PoolReach (Own s.backend) s.slots i (λ be. record be { metrics = ms })
        (λ be at. inl refl)

  query_end-PoolReach :
      (qd : QueryDesc F) (o : Outcome F) (s : State F)
      → PoolReach (Own s.backend) (tally s.slots) (tally (query_end_hook d env qd o s).slots)
  unfolding query_end_hook
  query_end-PoolReach qd o s =
      elim (Bool-cases (s.backend.is_enabled && s.backend.was_initialized)) [
        | inr f ↦ rw f (stays (λ r. refl))
        | inl t ↦
            rw t
              (end_query-PoolReach qd o s (get_my_backend_entry s.backend.my_proc_pid s.slots) refl)
      ]

  cleanup_callback-PoolReach :
      (event : XactEvent) (s : State F)
      → PoolReach (Own s.backend) (tally s.slots) (tally (query_cleanup_callback event s).slots)
  unfolding query_cleanup_callback
  cleanup_callback-PoolReach event s = elim (Bool-cases (is_abort_event event)) [
    | inr f ↦ rw f (stays (λ r. refl))
    | inl t ↦ rw t (elim (Bool-cases s.backend.is_enabled) [
      | inl e ↦ simp e (release_my-PoolReach s.backend.my_proc_pid s.slots)
      | inr e ↦ simp e (stays (λ r. refl))
    ])
  ]

  exit_callback-PoolReach :
      (s : State F)
      → PoolReach (Own s.backend) (tally s.slots) (tally (backend_exit_callback s).slots)
  unfolding backend_exit_callback
  exit_callback-PoolReach s = release_my-PoolReach s.backend.my_proc_pid s.slots

  refresh-PoolReach :
      (p : PlanState F) (i : Option ℕ) (slots : Slots F) (k : Counters)
      → PoolReach Nobody (tally slots) (tally (refresh d env.max_nodes_per_query p i slots k).0)
  unfolding refresh
  refresh-PoolReach p none slots k = stays (λ r. refl)
  refresh-PoolReach p (some i) slots k =
      modify-PoolReach Nobody slots i (refresh_entry d env.max_nodes_per_query p)
        (λ be at. inl refl)

  handle-PoolReach :
      (b : Backend F) (q : Option (QueryDesc F)) (slots : Slots F) (k : Counters)
      → PoolReach Nobody (tally slots) (tally (handle d env.max_nodes_per_query b q slots k).0)
  unfolding handle
  handle-PoolReach b none slots k = stays (λ r. refl)
  handle-PoolReach b (some qd) slots k = elim (Bool-cases (has_planstate qd.planstate)) [
    | inr f ↦ rw f (stays (λ r. refl))
    | inl t ↦ rw t (elim (Bool-cases b.shmem_attached) [
      | inr f ↦ rw f (stays (λ r. refl))
      | inl a ↦ rw a (refresh-PoolReach qd.planstate (find_my_slot b.my_proc_pid slots 0) slots k)
    ])
  ]

  sigusr2_handler-PoolReach :
      (slots : Slots F) (b : Backend F)
      → PoolReach Nobody (tally slots) (tally (sigusr2_handler d env.max_nodes_per_query slots b).0)
  unfolding sigusr2_handler
  sigusr2_handler-PoolReach slots b =
      handle-PoolReach b b.current_query_desc slots (count_call b.counters)

  -- Whose places a call may take or give back.
  abbrev pub Actor : {t u : Slots F} → Step d env t u → Bool → ℕ → Type 0
  Actor (starts slots b qd now old o h l) = Own b
  Actor (ends slots b qd o l) = Own b
  Actor (transaction slots b event) = Own b
  Actor (exits slots b) = Own b
  Actor (signaled slots b) = Nobody
  Actor (cleans slots kill0) = Gone kill0

  Step-PoolReach :
      {t u : Slots F} (st : Step d env t u)
      → Good d env t
      → PoolReach (Actor st) (tally t) (tally u)
  Step-PoolReach (starts slots b qd now old o h l) g =
      query_start-PoolReach qd now old o (at slots b) h g.1.few
  Step-PoolReach (ends slots b qd o l) g = query_end-PoolReach qd o (at slots b)
  Step-PoolReach (transaction slots b event) g = cleanup_callback-PoolReach event (at slots b)
  Step-PoolReach (exits slots b) g = exit_callback-PoolReach (at slots b)
  Step-PoolReach (signaled slots b) g = sigusr2_handler-PoolReach slots b
  Step-PoolReach (cleans slots kill0) g = cleanup-PoolReach kill0 slots

  tally-initial : (k n r : ℕ) → tally (replicate k (zero_entry d n)) r ≡ all_free k r
  tally-initial zero n r = ground arith
  tally-initial (suc k) n r = ground (arith, tally-initial k n r)

  -- The array implements a pool of as many places, all free in the cleared memory. For settings in
  -- their ranges, in every state that complete calls of the hooks, callbacks, signal handler and
  -- cleanup reach from there, such a call does to the slots what the pool allows its own process: a
  -- hook or callback takes a free place for its process if it has none, or gives back a place of its
  -- process, a signal does neither, and a cleanup only gives back places, of processes for which
  -- `kill(pid, 0)` fails with ESRCH.
  pub Reach-PoolReach :
      (s : Settings)
      → InRange s
      → env.max_nodes_per_query ≡ s.max_nodes_per_query
      → {t u : Slots F} → Reach d env (initial_slots d s) t
      → (st : Step d env t u)
      → ((r : ℕ) → tally (initial_slots d s) r ≡ all_free s.max_tracked_queries r)
        × PoolReach (Actor st) (tally t) (tally u)
  Reach-PoolReach s range same r st = (
    tally-initial s.max_tracked_queries s.max_nodes_per_query,
    Step-PoolReach st (Reach-Good d env (initial-Good d env s range same) r),
  )
