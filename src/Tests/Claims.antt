-- ===== src/Tests/Claims.antt =====
-- The slots of src/shared_memory.c at concrete inputs.
use pg_what_is_happening.Base.{
  ℕ, ◌+◌, ◌≤◌, ◌<◌, ◌≡◌, ◌≢◌, ◌^◌, ◌⊎◌, refl, inl, inr, true, some, [], ◌∷◌, arith, get_elem?, All,
}
use mathlib.Core.Option
use pg_what_is_happening.Memory.{
  BackendEntry, Slots, esrch, cleanup_orphaned_slots, get_or_create_my_backend_entry_impl,
}
use pg_what_is_happening.Memory.Layout.{
  calc_backend_entry_stride, calc_shared_memory_size, query_text_offset, backend_entry_offset,
  metrics_offset, node_offset, sizeof_node_metrics, layout_lem,
}
use pg_what_is_happening.Memory.Claim.{claim, get_or_create-claim}
use pg_what_is_happening.Memory.Distinct.{Distinct, Absent}
use pg_what_is_happening.Memory.Cleanup.{active_count, clean_entry, cleanup_lem}
use pg_what_is_happening.Memory.Race.{System, idle, returned, SharedReach, shared_lock_race}
use pg_what_is_happening.Memory.Holds.{Holds}
use pg_what_is_happening.Memory.Progress.{cleanup-get_or_create}
use pg_what_is_happening.Tests.Data.{slot, slots, kill0, settings, settings-InRange, size_arith}

slots-Distinct : Distinct slots
slots-Distinct = (inr (omega arith, (omega arith, tt)), (inl refl, (inr tt, tt)))

layout_example :
    (stride total : ℕ) × (calc_backend_entry_stride size_arith settings ≡ some stride)
    × (calc_shared_memory_size size_arith settings ≡ some total)
    × (total < 2 ^ 24)
    × (query_text_offset (backend_entry_offset stride 2) + 64
        ≡ metrics_offset settings (backend_entry_offset stride 2))
    × (node_offset settings (backend_entry_offset stride 2) 15 + sizeof_node_metrics
        ≤ backend_entry_offset stride (2 + 1))
    × (backend_entry_offset stride (2 + 1) ≤ total)
layout_example = layout_lem size_arith settings settings-InRange 2 15 (omega arith) (omega arith)

claim_example : get_or_create_my_backend_entry_impl true 8 slots ≡ claim true 8 slots
claim_example = get_or_create-claim true 8 slots (omega arith) (omega arith)

cleanup_example :
    All
      (λ be. (be.backend_pid ≡ 0) ⊎ (kill0 be.backend_pid ≢ esrch))
      (cleanup_orphaned_slots kill0 slots).1
    × ((i : ℕ)
        → get_elem? (cleanup_orphaned_slots kill0 slots).1 i
          ≡ Option.map (clean_entry kill0) (get_elem? slots i))
    × ((cleanup_orphaned_slots kill0 slots).0 + active_count (cleanup_orphaned_slots kill0 slots).1
        ≡ active_count slots)
cleanup_example = cleanup_lem kill0 slots

-- The process 9 is gone; the process 8 gets a slot in the full array.
abbrev full : Slots ℕ
full = slot 7 ∷ slot 9 ∷ []

progress_example :
    let r = get_or_create_my_backend_entry_impl true 8 (cleanup_orphaned_slots kill0 full).1 in
    (i : ℕ) × (r.0 ≡ some i) × Holds r.1 8 i
progress_example =
    cleanup-get_or_create kill0 8 9 full (omega arith) (omega arith) (omega arith) refl
      (omega arith)

abbrev all_idle : System ℕ
all_idle = record { slots = slots; phase = λ pid. idle }

race_example :
    (u : System ℕ) × SharedReach all_idle u
    × (u.phase 3 ≡ returned (some 1))
    × (u.phase 4 ≡ returned (some 1))
    × Absent 3 u.slots
    × ((be : BackendEntry ℕ) × (get_elem? u.slots 1 ≡ some be) × (be.backend_pid ≡ 4))
race_example =
    shared_lock_race all_idle 3 4 1 (omega arith) (omega arith) (omega arith) refl refl
      (omega arith) (omega arith, (omega arith, (omega arith, tt)))
      (omega arith, (omega arith, (omega arith, tt))) refl
