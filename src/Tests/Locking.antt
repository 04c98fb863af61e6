-- ===== src/Tests/Locking.antt =====
-- Processes with the lock at a concrete run.
use pg_what_is_happening.Base.{
  ℕ, ◌+◌, ◌≡◌, ◌⊎◌, refl, Bool, drop, some, List, [], ◌∷◌, codes, ◌==◌, ==→eq, eq→==,
}
use pg_what_is_happening.Http.Request.{HttpRequest}
use pg_what_is_happening.Memory.{scan_entries, get_or_create_my_backend_entry_impl}
use pg_what_is_happening.Hooks.{completes}
use pg_what_is_happening.Hooks.World.{at}
use pg_what_is_happening.Locking.{
  Call, Mode, lw_shared, lw_exclusive, http_request, query_end, process_exits, locks_of,
}
use pg_what_is_happening.Locking.System.{
  LwLock, Processes, Run, begin, more, remaining, step, all_locks, step_at, at_start,
}
use pg_what_is_happening.Locking.Steps.{Exclusion}
use pg_what_is_happening.Locking.Progress.{lock_progress}
use pg_what_is_happening.Tests.Data.{naturals, env, slots, backend}

abbrev grants : Mode → ℕ → ℕ → Bool
grants lw_shared n x = x == 0
grants lw_exclusive n x = n == 0

abbrev lock : LwLock
lock = record {
  grants = grants;
  shared_sound = λ n x. ==→eq x 0;
  shared_granted = λ n x. eq→== x 0;
  exclusive_sound = λ n x. ==→eq n 0;
  exclusive_granted = λ n x. eq→== n 0;
}

abbrev get_metrics : HttpRequest
get_metrics = record { method = codes "GET"; path = codes "/metrics"; version = codes "HTTP/1.1" }

-- The exporter answers a request.
abbrev exporter : List (Call ℕ)
exporter = http_request get_metrics slots ∷ []

-- Meanwhile a backend ends its query and then exits.
abbrev leaving : List (Call ℕ)
leaving = query_end completes (at slots (backend 9)) ∷ process_exits ∷ []

-- The exporter has acquired the lock twice.
abbrev twice : Processes
twice =
    record { held = lw_shared ∷ lw_shared ∷ []; calls = drop 2 (all_locks naturals env exporter) }
    ∷ record { held = []; calls = all_locks naturals env leaving }
    ∷ []

twice_run : Run lock (at_start naturals env (exporter ∷ leaving ∷ [])) 2 twice
unfolding step_at locks_of scan_entries get_or_create_my_backend_entry_impl
twice_run = more 0 (more 0 begin refl) refl

locking_example :
    Exclusion twice
    × (2 + remaining twice ≡ remaining (at_start naturals env (exporter ∷ leaving ∷ [])))
    × ((remaining twice ≡ 0) ⊎ ((i : ℕ) × (next : Processes) × (step lock i twice ≡ some next)))
locking_example =
    lock_progress naturals env lock (exporter ∷ leaving ∷ []) {n = 2} {ps = twice} twice_run
