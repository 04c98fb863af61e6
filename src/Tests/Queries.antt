-- ===== src/Tests/Queries.antt =====
-- The hooks and the signal handler at concrete inputs.
use pg_what_is_happening.Base.{
  ℕ, zero, suc, ◌+◌, ◌*◌, ◌≤◌, List, All, ◌≡◌, refl, inl, inr, true, none, some, [], ◌∷◌, arith,
  length, codes,
}
use pg_what_is_happening.Memory.{Slots, get_or_create_my_backend_entry_impl}
use pg_what_is_happening.Memory.Distinct.{Absent, Distinct}
use pg_what_is_happening.Memory.Holds.{Holds}
use pg_what_is_happening.Memory.Startup.{initial_slots}
use pg_what_is_happening.Signal.{null, sigusr2_handler}
use pg_what_is_happening.Status.{first_call}
use pg_what_is_happening.Hooks.{
  State, fill_entry, completes, raises, started, query_start_hook, query_end_hook,
}
use pg_what_is_happening.Hooks.WellFormed.{WellFormed}
use pg_what_is_happening.Hooks.World.{
  Step, ends, starts, signaled, Reach, here, next, at, Reach-WellFormed, Reach-all_calls_over,
}
use pg_what_is_happening.Hooks.Release.{Ended, query_end-Ended}
use pg_what_is_happening.Hooks.Dangling.{disable, end-disable, nested-untracked, failure-registers}
use pg_what_is_happening.Memory.Find.{find_pid}
use pg_what_is_happening.Memory.Tally.{tally, PoolReach}
use pg_what_is_happening.Metrics.Columns.{Datum}
use pg_what_is_happening.Status.Changing.{Typed, all_calls_over}
use pg_what_is_happening.Hooks.Interrupt.{query_start_interrupted}
use pg_what_is_happening.Hooks.Interrupt.Quiet.{uncounted, query_start-uncounted}
use pg_what_is_happening.Walker.{remember_planstate_tree_as_metric_structure}
use pg_what_is_happening.Signal.Reads.{read_tree}
use pg_what_is_happening.Hooks.Refine.{all_free, Actor, Reach-PoolReach}
use pg_what_is_happening.Base.{modify}
use pg_what_is_happening.Signal.{QueryDesc, bump}
use pg_what_is_happening.Hooks.Session.{
  Session, new, step, starts_query, after_signal, Session-signal,
}
use pg_what_is_happening.Tests.Data.{
  tree, leaf, naturals, env, settings, settings-InRange, slots, query, cheap_query, backend,
  new_backend,
}

-- The two readings of the clock.
abbrev times : ℕ × ℕ
times = (1000, 1001)

slots-Distinct : Distinct slots
slots-Distinct = (inr (omega arith, (omega arith, tt)), (inl refl, (inr tt, tt)))

-- The process 5 starts a query in the cleared memory.
abbrev tracked : Slots ℕ
tracked =
    (query_start_hook naturals env query times null completes
      (at (initial_slots naturals settings) (new_backend 5))).slots

-- Then it gets a signal.
abbrev refreshed_slots : Slots ℕ
refreshed_slots = (sigusr2_handler naturals 16 tracked (backend 5)).0

refreshed_slots-Reach : Reach naturals env (initial_slots naturals settings) refreshed_slots
refreshed_slots-Reach =
    next
      (next here (
        starts (initial_slots naturals settings) (new_backend 5) query times null completes
          (omega arith) tt))
      (signaled tracked (backend 5))

reach_example : WellFormed 16 refreshed_slots
reach_example =
    Reach-WellFormed naturals env settings settings-InRange refl {slots = refreshed_slots}
      refreshed_slots-Reach

tracked-Reach : Reach naturals env (initial_slots naturals settings) tracked
tracked-Reach = next here (
    starts (initial_slots naturals settings) (new_backend 5) query times null completes
      (omega arith) tt)

-- The cleared memory at the first call of the view, then the two others.
abbrev seen : ℕ → Slots ℕ
seen zero = initial_slots naturals settings
seen (suc zero) = tracked
seen (suc (suc i)) = refreshed_slots

seen-Reach : (i : ℕ) → Reach naturals env (initial_slots naturals settings) (seen i)
seen-Reach zero = here
seen-Reach (suc zero) = tracked-Reach
seen-Reach (suc (suc i)) = refreshed_slots-Reach

view_example :
    (rows : List (List (Datum ℕ))) × (all_calls_over naturals 4097 seen first_call ≡ some rows)
    × (length rows ≤ 256 * 16)
    × All Typed rows
view_example =
    Reach-all_calls_over naturals env settings settings-InRange refl 4097 seen seen-Reach
      (omega arith)

-- Then the query ends, and the process gives its place back.
query_ends :
    Step naturals env refreshed_slots
      (query_end_hook naturals env query completes (at refreshed_slots (backend 5))).slots
query_ends = ends refreshed_slots (backend 5) query completes tt

pool_example :
    ((r : ℕ) → tally (initial_slots naturals settings) r ≡ all_free 3 r)
    × PoolReach
        (Actor naturals env query_ends)
        (tally refreshed_slots)
        (tally (query_end_hook naturals env query completes (at refreshed_slots (backend 5))).slots)
pool_example =
    Reach-PoolReach naturals env settings settings-InRange refl {t = refreshed_slots}
      refreshed_slots-Reach query_ends

abbrev running : State ℕ
running = at slots (backend 9)

end_example : Ended naturals env running (query_end_hook naturals env query completes running)
end_example =
    query_end-Ended naturals env query running refl refl (omega arith) (omega arith) slots-Distinct

claimed : (get_or_create_my_backend_entry_impl true 5 slots).0 ≡ some 1
unfolding get_or_create_my_backend_entry_impl
claimed = refl

disable_example :
    ((query_end_hook naturals env query completes (
        disable (
          query_start_hook naturals env query times null completes
            (at slots (new_backend 5))))).backend.current_query_desc
      ≡ some (started naturals env query))
    × Holds
        (query_end_hook naturals env query completes (
          disable (
            query_start_hook naturals env query times null completes
              (at slots (new_backend 5))))).slots
        5
        1
disable_example =
    end-disable naturals env query times null completes (at slots (new_backend 5)) 1 refl
      (omega arith) (omega arith) claimed

nested_example :
    Absent 9
      (query_end_hook naturals env cheap_query completes
        (query_start_hook naturals env cheap_query times null completes running)).slots
    × ((query_end_hook naturals env cheap_query completes (
          query_start_hook naturals env cheap_query times null completes
            running)).backend.current_query_desc
        ≡ none)
nested_example =
    nested-untracked naturals env cheap_query times null completes running 2 refl refl refl
      (omega arith) (omega arith) slots-Distinct refl

failure_example :
    (query_start_hook naturals env query times null completes (
      query_start_hook naturals env query times null
        (raises [])
        (at slots (backend 5)))).backend.registrations
    ≡ (at slots (backend 5)).backend.registrations + 1
failure_example =
    failure-registers naturals env query query times times null null [] completes
      (at slots (backend 5)) 1 refl refl refl claimed

-- The process 5 before its first query, and with one.
abbrev fresh : State ℕ
fresh = at slots (new_backend 5)

abbrev busy : State ℕ
busy = query_start_hook naturals env query times null completes fresh

busy-Session : Session naturals env fresh busy
busy-Session = step new (starts_query fresh query times null completes (omega arith) (omega arith))

busy_query : busy.backend.current_query_desc ≡ some (started naturals env query)
unfolding query_start_hook get_or_create_my_backend_entry_impl
busy_query = refl

busy_attached : busy.backend.shmem_attached ≡ true
unfolding query_start_hook get_or_create_my_backend_entry_impl
busy_attached = refl

busy_sized : All (λ be. length be.metrics ≡ 16) busy.slots
unfolding query_start_hook get_or_create_my_backend_entry_impl fill_entry
    remember_planstate_tree_as_metric_structure
busy_sized = (refl, (refl, (refl, tt)))

signal_example :
    (i : ℕ) × (find_pid busy.backend.my_proc_pid busy.slots ≡ some i)
    × ((after_signal naturals env busy).slots ≡ modify busy.slots i (read_tree naturals tree))
    × ((after_signal naturals env busy).backend.counters.success_count
        ≡ bump busy.backend.counters.success_count)
    × ((after_signal naturals env busy).backend.counters.no_slot ≡ busy.backend.counters.no_slot)
signal_example =
    Session-signal naturals env {s = fresh} {t = busy} (started naturals env query) refl
      busy-Session busy_query refl busy_attached busy_sized

-- Two signals before the first write, one before the third.
interrupted_example :
    uncounted (query_start_interrupted naturals env (2 ∷ 0 ∷ 1 ∷ []) query times null fresh)
    ≡ uncounted (query_start_hook naturals env query times null completes fresh)
interrupted_example =
    query_start-uncounted naturals env (2 ∷ 0 ∷ 1 ∷ []) query times null fresh refl

-- A nested query of one node.
abbrev inner : QueryDesc ℕ
inner = record query { address = 77; planstate = leaf; source_text = some (codes "inner") }
