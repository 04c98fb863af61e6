-- ===== src/Hooks/Ending/Exact.antt =====
-- What `query_end_hook` of src/pg_what_is_happening.c leaves when signals come within it.
use pg_what_is_happening.Base.{
  modify-modify, modify-agree, ℕ, zero, suc, ◌≡◌, sym, ap, ◌∙◌, true, ◌&&◌, none, some, [], ◌∷◌,
  modify, get_elem?, if◌then◌else◌, length, arith, All,
}
use pg_what_is_happening.Doubles.{Doubles}
use pg_what_is_happening.Memory.{BackendEntry, Slots, get_my_backend_entry}
use pg_what_is_happening.Memory.Holds.{find_pid-Holds}
use pg_what_is_happening.Signal.{QueryDesc, set_current_query_desc}
use pg_what_is_happening.Hooks.{Env, State, completes, finish_entry, end_query, query_end_hook}
use pg_what_is_happening.Hooks.Entry.{get_my-find_pid}
use pg_what_is_happening.Hooks.Interrupt.{signaled}
use pg_what_is_happening.Hooks.Ending.{Arrivals, search_interrupted, query_end_interrupted}
use pg_what_is_happening.Hooks.Ending.Signals.{hits, misses, polled}
use pg_what_is_happening.Hooks.Ending.Slot.{finding, missing, whole, whole-finish}
use pg_what_is_happening.Hooks.Ending.Signals.{Ready}
use pg_what_is_happening.Hooks.Ending.Steps.{counted, counted-sum, end-changed}

module _ {F : Type 0} (d : Doubles F) (env : Env F) (qd : QueryDesc F) where
  runs :
      (s : State F)
      → s.backend.is_enabled ≡ true
      → s.backend.was_initialized ≡ true
      → (s.backend.is_enabled && s.backend.was_initialized) ≡ true
  runs s en ini = ground arith

  interrupted-runs :
      (a : Arrivals) (s : State F)
      → (s.backend.is_enabled && s.backend.was_initialized) ≡ true
      → query_end_interrupted d env a qd s
        ≡ search_interrupted d env a qd (signaled d env a.before_search s)
  unfolding query_end_interrupted
  interrupted-runs a s h =
      ap (λ b. if b then search_interrupted d env a qd (signaled d env a.before_search s) else s) h

  hook-runs :
      (s : State F) (i : ℕ)
      → (s.backend.is_enabled && s.backend.was_initialized) ≡ true
      → Ready qd s i
      → query_end_hook d env qd completes s ≡ record {
        slots = modify s.slots i (finish_entry d env qd);
        backend = set_current_query_desc none s.backend;
      }
  unfolding query_end_hook end_query
  hook-runs s i h r =
      ap
        (λ b.
          if b
          then end_query d env qd completes (get_my_backend_entry s.backend.my_proc_pid s.slots) s
          else s)
        h
      ∙ ap (λ o. end_query d env qd completes o s)
          (get_my-find_pid s.backend.my_proc_pid s.slots r.named r.size ∙ r.found)

  All-get_elem? :
      (slots : Slots F) (i : ℕ) (be : BackendEntry F)
      → All (λ x. length x.metrics ≡ env.max_nodes_per_query) slots
      → get_elem? slots i ≡ some be
      → length be.metrics ≡ env.max_nodes_per_query
  All-get_elem? [] i be h at = cc
  All-get_elem? (x ∷ slots) zero be (h, hs) at = ground arith
  All-get_elem? (x ∷ slots) (suc i) be (h, hs) at = All-get_elem? slots i be hs at

  slots-finish :
      (a : Arrivals) (s : State F) (i : ℕ)
      → Ready qd s i
      → All (λ be. length be.metrics ≡ env.max_nodes_per_query) s.slots
      → modify s.slots i (whole d env qd a)
        ≡ modify (modify s.slots i (finish_entry d env qd)) i (polled (finding a))
  slots-finish a s i r full =
      let (mine, at, e) = find_pid-Holds s.backend.my_proc_pid s.slots i r.found in
      modify-agree s.slots i (whole d env qd a)
        (λ be. polled (finding a) (finish_entry d env qd be))
        (λ be h.
          let same : mine ≡ be = cc in
          whole-finish d env qd a be (λ z. r.named (sym e ∙ (ap (λ x. x.backend_pid) same ∙ z)))
            (All-get_elem? s.slots i be full h))
      ∙ sym (modify-modify s.slots i (finish_entry d env qd) (polled (finding a)))

  -- For the end of the current query in a backend that has a live plan tree and one slot, whose array
  -- has max_nodes elements, any number of signals before each step of the end hook's block changes
  -- this of what the hook does alone, and no more: a signal that comes before the slot is free counts
  -- as a success and increments the slot's poll_generation, and one that comes later counts as a
  -- missing slot.
  pub query_end_interrupted-exact :
      (a : Arrivals) (s : State F) (i : ℕ)
      → s.backend.is_enabled ≡ true
      → s.backend.was_initialized ≡ true
      → Ready qd s i
      → All (λ be. length be.metrics ≡ env.max_nodes_per_query) s.slots
      → query_end_interrupted d env a qd s ≡ record {
        slots = modify (query_end_hook d env qd completes s).slots i (polled (finding a));
        backend = record (query_end_hook d env qd completes s).backend {
          counters = misses (missing a) (hits (finding a) s.backend.counters);
        };
      }
  query_end_interrupted-exact a s i en ini r full =
      interrupted-runs a s (runs s en ini)
      ∙ (end-changed d env qd s i r a
          ∙ (ap
                (λ t. record {
                  slots = t;
                  backend = record s.backend {
                    counters = counted d env qd s i r a;
                    current_query_desc = none;
                  };
                })
                (slots-finish a s i r full)
              ∙ (ap
                    (λ k. record {
                      slots =
                          modify (modify s.slots i (finish_entry d env qd)) i (polled (finding a));
                      backend = record s.backend { counters = k; current_query_desc = none };
                    })
                    (counted-sum d env qd s i r a)
                  ∙ ap
                      (λ t. record {
                        slots = modify t.slots i (polled (finding a));
                        backend = record t.backend {
                          counters = misses (missing a) (hits (finding a) s.backend.counters);
                        };
                      })
                      (sym (hook-runs s i (runs s en ini) r)))))
