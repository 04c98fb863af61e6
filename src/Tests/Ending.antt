-- ===== src/Tests/Ending.antt =====
-- Signals within the end hook at a concrete query.
use pg_what_is_happening.Base.{◌≡◌, refl, inl, inr, [], ◌∷◌, ℕ, arith, modify}
use pg_what_is_happening.Memory.{Slots}
use pg_what_is_happening.Hooks.{Env, State, completes, query_end_hook}
use pg_what_is_happening.Hooks.World.{at}
use pg_what_is_happening.Hooks.Ending.{Arrivals, query_end_interrupted}
use pg_what_is_happening.Hooks.Ending.Signals.{hits, misses, polled, Ready}
use pg_what_is_happening.Hooks.Ending.Slot.{finding, missing}
use pg_what_is_happening.Hooks.Ending.Exact.{query_end_interrupted-exact}
use pg_what_is_happening.Tests.Data.{naturals, env, slot, query, backend}
use pg_what_is_happening.Tests.Texts.{busy}

abbrev two_nodes : Env ℕ
two_nodes = record env { max_nodes_per_query = 2 }

-- A free slot, and that of the process 7.
abbrev in_use : Slots ℕ
in_use = record (slot 0) { metrics = busy.metrics } ∷ busy ∷ []

abbrev ending : State ℕ
ending = at in_use (backend 7)

abbrev arrivals : Arrivals
arrivals = record {
  before_search = 1;
  before_test = 0;
  before_capture = 2;
  before_free = 1;
  before_advance = 1;
  before_clear = 1;
}

ready : Ready query ending 1
ready = record {
  live = record { current = refl; live = refl; attached = refl };
  named = omega arith;
  size = omega arith;
  distinct = (inl refl, (inr tt, tt));
  found = refl;
}

ending_example : query_end_interrupted naturals two_nodes arrivals query ending ≡ record {
  slots =
      modify
        (query_end_hook naturals two_nodes query completes ending).slots
        1
        (polled (finding arrivals));
  backend = record (query_end_hook naturals two_nodes query completes ending).backend {
    counters = misses (missing arrivals) (hits (finding arrivals) ending.backend.counters);
  };
}
ending_example =
    query_end_interrupted-exact naturals two_nodes query arrivals ending 1 refl refl ready
      (refl, (refl, tt))
