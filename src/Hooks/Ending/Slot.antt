-- ===== src/Hooks/Ending/Slot.antt =====
-- What the end hook of src/pg_what_is_happening.c and signals within it do to the slot.
use pg_what_is_happening.Base.{
  iterate, iterate-add, iterate_last, ℕ, zero, suc, ◌+◌, ◌%◌, ◌≡◌, ◌≢◌, refl, sym, ap, ◌∙◌, List,
  length, arith,
}
use pg_what_is_happening.Doubles.{Doubles}
use pg_what_is_happening.Memory.{BackendEntry, NodeMetrics, u32_mod}
use pg_what_is_happening.Walker.{collect_planstate_metrics}
use pg_what_is_happening.Walker.Again.{collect-again}
use pg_what_is_happening.Signal.{QueryDesc, refresh_entry}
use pg_what_is_happening.Hooks.{Env, finish_entry}
use pg_what_is_happening.Hooks.Ending.{Arrivals, free_entry, advance_entry, capture_entry}
use pg_what_is_happening.Hooks.Ending.Signals.{bumps, polled, refreshes}

-- The signals that find the slot, and those that come when it is free.
abbrev pub finding : Arrivals → ℕ
finding k = k.before_search + k.before_test + k.before_capture + k.before_free

abbrev pub missing : Arrivals → ℕ
missing k = k.before_advance + k.before_clear

module _ {F : Type 0} (d : Doubles F) (env : Env F) (qd : QueryDesc F) where
  abbrev collect : List (NodeMetrics F) → List (NodeMetrics F)
  collect ms = collect_planstate_metrics d qd.planstate ms env.max_nodes_per_query

  collect_settled :
      (n : ℕ) (ms : List (NodeMetrics F))
      → length ms ≡ env.max_nodes_per_query
      → iterate collect n (collect ms) ≡ collect ms
  collect_settled zero ms e = refl
  collect_settled (suc n) ms e =
      ap (iterate collect n) (collect-again d qd.planstate ms env.max_nodes_per_query e)
      ∙ collect_settled n ms e

  -- The slot after so many signals.
  refreshes_entry :
      (n : ℕ) (be : BackendEntry F)
      → refreshes d env qd.planstate n be ≡ record be {
        metrics = iterate collect n be.metrics;
        poll_generation = bumps n be.poll_generation;
      }
  refreshes_entry zero be = refl
  refreshes_entry (suc n) be =
      refreshes_entry n (refresh_entry d env.max_nodes_per_query qd.planstate be)

  -- All that happens to the slot, with `m` signals before the capture and `n` before the release.
  abbrev released : ℕ → ℕ → BackendEntry F → BackendEntry F
  released m n be = advance_entry (
      free_entry (
        refreshes d env qd.planstate n
          (capture_entry d env qd (refreshes d env qd.planstate m be))))

  -- A slot released with this array and this generation.
  abbrev ended : BackendEntry F → List (NodeMetrics F) → ℕ → BackendEntry F
  ended be ms g = record be { backend_pid = 0; metrics = ms; poll_generation = g }

  finish_entry-ended :
      (be : BackendEntry F)
      → be.backend_pid ≢ 0
      → finish_entry d env qd be
        ≡ ended be (collect be.metrics) ((be.poll_generation + 1) % u32_mod)
  unfolding finish_entry
  finish_entry-ended be ne = ground arith

  released-finish :
      (m n : ℕ) (be : BackendEntry F)
      → be.backend_pid ≢ 0
      → length be.metrics ≡ env.max_nodes_per_query
      → released m n be ≡ polled (m + n) (finish_entry d env qd be)
  released-finish m n be ne e =
      ap
        (λ x.
          advance_entry (free_entry (refreshes d env qd.planstate n (capture_entry d env qd x))))
        (refreshes_entry m be)
      ∙ (ap (λ x. advance_entry (free_entry x))
            (refreshes_entry n (
              capture_entry d env qd (record be {
                metrics = iterate collect m be.metrics;
                poll_generation = bumps m be.poll_generation;
              })))
          ∙ (ap (λ ms. ended be ms ((bumps n (bumps m be.poll_generation) + 1) % u32_mod)) arrays
              ∙ (ap (ended be (collect be.metrics)) generations
                  ∙ ap (polled (m + n)) (sym (finish_entry-ended be ne)))))
    where
      arrays : iterate collect n (collect (iterate collect m be.metrics)) ≡ collect be.metrics
      arrays =
          ap (iterate collect n)
            (iterate_last collect m be.metrics ∙ collect_settled m be.metrics e)
          ∙ collect_settled n be.metrics e

      generations :
          (bumps n (bumps m be.poll_generation) + 1) % u32_mod
          ≡ bumps (m + n) ((be.poll_generation + 1) % u32_mod)
      generations =
          ap (λ g. (g + 1) % u32_mod) (iterate-add (λ g. (g + 1) % u32_mod) m n be.poll_generation)
          ∙ iterate_last (λ g. (g + 1) % u32_mod) (m + n) be.poll_generation

  -- All that the hook and the signals do to the slot.
  abbrev pub whole : Arrivals → BackendEntry F → BackendEntry F
  whole a be = advance_entry (
      free_entry (
        refreshes d env qd.planstate a.before_free (
          capture_entry d env qd (
            refreshes d env qd.planstate a.before_capture (
              refreshes d env qd.planstate a.before_test
                (refreshes d env qd.planstate a.before_search be))))))

  pub whole-finish :
      (a : Arrivals) (be : BackendEntry F)
      → be.backend_pid ≢ 0
      → length be.metrics ≡ env.max_nodes_per_query
      → whole a be ≡ polled (finding a) (finish_entry d env qd be)
  whole-finish a be ne e =
      let fresh = refresh_entry d env.max_nodes_per_query qd.planstate in
      ap
        (λ x.
          advance_entry
            (free_entry (refreshes d env qd.planstate a.before_free (capture_entry d env qd x))))
        (ap (iterate fresh a.before_capture) (iterate-add fresh a.before_search a.before_test be)
          ∙ iterate-add fresh (a.before_search + a.before_test) a.before_capture be)
      ∙ released-finish (a.before_search + a.before_test + a.before_capture) a.before_free be ne e
