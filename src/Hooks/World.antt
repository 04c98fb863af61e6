-- ===== src/Hooks/World.antt =====
-- All backends together: what every order of their hooks, callbacks and signals keeps. Each call runs
-- whole, as an exclusive lock would have it.
use pg_what_is_happening.Base.{
  ℕ, zero, suc, ◌*◌, ◌≤◌, ◌<◌, ◌≡◌, ◌≢◌, refl, ap, inl, some, List, [], ◌∷◌, arith, length, All,
  replicate,
}
use pg_what_is_happening.Doubles.{Doubles}
use pg_what_is_happening.Memory.{Slots, KillResult, cleanup_orphaned_slots}
use pg_what_is_happening.Memory.Layout.{Settings, InRange}
use pg_what_is_happening.Memory.Startup.{initial_slots, zero_entry, zero_node}
use pg_what_is_happening.Memory.Distinct.{Distinct}
use pg_what_is_happening.Signal.{QueryDesc, Handler, Backend, sigusr2_handler}
use pg_what_is_happening.Status.{first_call, all_calls}
use pg_what_is_happening.Metrics.Columns.{Datum}
use pg_what_is_happening.Status.Changing.{Bounded, Typed, all_calls_over, all_calls_over-Typed}
use pg_what_is_happening.Status.Rows.{FitsArray, all_rows, all_calls-all_rows}
use pg_what_is_happening.Hooks.{
  Env, Outcome, XactEvent, State, backend_exit_callback, query_cleanup_callback, query_start_hook,
  query_end_hook,
}
use pg_what_is_happening.Hooks.WellFormed.{Sized, WellFormed, cleanup-WellFormed}
use pg_what_is_happening.Hooks.Keeps.{
  LeavesArray, Good, query_start-Good, query_end-Good, cleanup_callback-Good, exit_callback-Good,
  sigusr2_handler-Good,
}

abbrev pub at : {F : Type 0} → Slots F → Backend F → State F
at slots b = record { slots = slots; backend = b }

module _ {F : Type 0} (d : Doubles F) (env : Env F) where
  -- A call in some backend, in any state of its variables, or in the exporter.
  pub data Step : Slots F → Slots F → Type 0 where
    starts :
        (slots : Slots F) (b : Backend F) (qd : QueryDesc F) (now : ℕ × ℕ) (old : Handler)
        (o : Outcome F)
        → b.my_proc_pid ≢ 0
        → LeavesArray d env o
        → Step slots (query_start_hook d env qd now old o (at slots b)).slots
    ends :
        (slots : Slots F) (b : Backend F) (qd : QueryDesc F) (o : Outcome F)
        → LeavesArray d env o
        → Step slots (query_end_hook d env qd o (at slots b)).slots
    transaction :
        (slots : Slots F) (b : Backend F) (event : XactEvent)
        → Step slots (query_cleanup_callback event (at slots b)).slots
    exits :
        (slots : Slots F) (b : Backend F) → Step slots (backend_exit_callback (at slots b)).slots
    signaled :
        (slots : Slots F) (b : Backend F)
        → Step slots (sigusr2_handler d env.max_nodes_per_query slots b).0
    cleans :
        (slots : Slots F) (kill0 : ℕ → KillResult)
        → Step slots (cleanup_orphaned_slots kill0 slots).1

  pub data Reach (slots : Slots F) : Slots F → Type 0 where
    here : Reach slots slots
    next : {t u : Slots F} → Reach slots t → Step t u → Reach slots u

  Step-Good : {t u : Slots F} → Step t u → Good d env t → Good d env u
  Step-Good (starts slots b qd now old o h l) g =
      query_start-Good d env qd now old o (at slots b) h l g
  Step-Good (ends slots b qd o l) g = query_end-Good d env qd o (at slots b) l g
  Step-Good (transaction slots b event) g = cleanup_callback-Good d env event (at slots b) g
  Step-Good (exits slots b) g = exit_callback-Good d env (at slots b) g
  Step-Good (signaled slots b) g = sigusr2_handler-Good d env slots b g
  Step-Good (cleans slots kill0) (le, w) = (le, cleanup-WellFormed kill0 _ slots w)

  pub Reach-Good : {slots t : Slots F} → Good d env slots → Reach slots t → Good d env t
  Reach-Good g here = g
  Reach-Good g (next r st) = Step-Good st (Reach-Good g r)

  initial-Distinct : (k n : ℕ) → Distinct (replicate k (zero_entry d n))
  initial-Distinct zero n = tt
  initial-Distinct (suc k) n = (inl refl, initial-Distinct k n)

  length-replicate : {A : Type 0} (k : ℕ) (a : A) → length (replicate k a) ≡ k
  length-replicate zero a = refl
  length-replicate (suc k) a = ap suc (length-replicate k a)

  initial-Sized : (k n : ℕ) → All (Sized n) (replicate k (zero_entry d n))
  initial-Sized zero n = tt
  initial-Sized (suc k) n = ((length-replicate n (zero_node d), omega arith), initial-Sized k n)

  module _ (s : Settings) (range : InRange s)
      (same : env.max_nodes_per_query ≡ s.max_nodes_per_query) where
    pub initial-Good : Good d env (initial_slots d s)
    initial-Good = (
      omega (arith, range.nodes_le),
      rw same (record {
        few = omega (
          arith,
          length-replicate s.max_tracked_queries (zero_entry d s.max_nodes_per_query),
          range.queries_le,
        );
        distinct = initial-Distinct s.max_tracked_queries s.max_nodes_per_query;
        sized = initial-Sized s.max_tracked_queries s.max_nodes_per_query;
      }),
    )

    -- From the cleared memory, for settings in their ranges, no order of complete calls leaves a
    -- process with two slots, changes the number of nodes that a slot has room for, or makes a slot
    -- count more nodes than it has room for.
    pub Reach-WellFormed :
        {slots : Slots F} → Reach (initial_slots d s) slots → WellFormed s.max_nodes_per_query slots
    Reach-WellFormed r = rw same at (Reach-Good initial-Good r).1

    Sized-FitsArray : (n : ℕ) (slots : Slots F) → All (Sized n) slots → All FitsArray slots
    Sized-FitsArray n [] h = tt
    Sized-FitsArray n (be ∷ rest) (z, h) = (omega arith, Sized-FitsArray n rest h)

    -- For settings in their ranges, on the slots after any order of complete calls from the
    -- cleared memory, the view's calls end, with one row for each node of each slot in use, if
    -- there may be more calls than rows; and none reads beyond an array.
    pub Reach-all_calls :
        {slots : Slots F} (fuel : ℕ)
        → Reach (initial_slots d s) slots
        → length (all_rows d slots) < fuel
        → all_calls d fuel slots first_call ≡ some (all_rows d slots)
    Reach-all_calls {slots} fuel r h =
        all_calls-all_rows d fuel slots
          (Sized-FitsArray s.max_nodes_per_query slots (Reach-WellFormed r).sized) h

    Sized-Bounded : (n : ℕ) (slots : Slots F) → All (Sized n) slots → All (Bounded n) slots
    Sized-Bounded n [] h = tt
    Sized-Bounded n (be ∷ rest) (z, h) = ((omega arith, omega arith), Sized-Bounded n rest h)

    -- For settings in their ranges, however many complete calls come between one call of the view's
    -- function and the next, the view's calls end within 256 * max_nodes_per_query + 1 calls, with no
    -- more rows than that less one, each with a value of the type of each column; and none reads
    -- beyond an array.
    pub Reach-all_calls_over :
        (fuel : ℕ) (seen : ℕ → Slots F)
        → ((i : ℕ) → Reach (initial_slots d s) (seen i))
        → 256 * s.max_nodes_per_query < fuel
        → (rows : List (List (Datum F))) × (all_calls_over d fuel seen first_call ≡ some rows)
          × (length rows ≤ 256 * s.max_nodes_per_query)
          × All Typed rows
    Reach-all_calls_over fuel seen reach h =
        all_calls_over-Typed d 256 s.max_nodes_per_query fuel seen
          (λ i. (Reach-WellFormed (reach i)).few)
          (λ i. Sized-Bounded s.max_nodes_per_query (seen i) (Reach-WellFormed (reach i)).sized) h
