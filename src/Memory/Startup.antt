-- ===== src/Memory/Startup.antt =====
-- `pwh_shared_memory_startup_hook` of src/shared_memory.c and the request hook of
-- src/compatibility/15-18.h.
use pg_what_is_happening.Base.{
  ℕ, ◌+◌, ◌*◌, ◌<◌, ◌≡◌, refl, Bool, true, false, Option, none, some, [], arith, replicate,
}
use pg_what_is_happening.Tags.{other_tag}
use pg_what_is_happening.Doubles.{Doubles}
use pg_what_is_happening.Memory.{BackendEntry, NodeMetrics, Slots}
use pg_what_is_happening.Memory.Layout.{
  Settings, InRange, SizeArith, calc_backend_entry_stride, calc_shared_memory_size, sizeof_header,
  stride_of, size_lem, stride_lem,
}

-- The static variables of the file, and the memory itself where it exists.
pub record Shmem (F : Type 0) : Type 0 where
  pub shmem_size : ℕ
  pub backend_entry_stride : ℕ
  pub slots : Option (Slots F)
  pub lock_initialized : Bool

module _ {F : Type 0} (d : Doubles F) where
  -- All bytes zero.
  abbrev pub zero_node : NodeMetrics F
  zero_node = record {
    tag = other_tag 0;
    node_id = 0;
    parent_node_id = 0;
    execution = record {
      tuples_returned = d.of_ℕ 0;
      loops_executed = d.of_ℕ 0;
      startup_time_us = d.of_ℕ 0;
      total_time_us = d.of_ℕ 0;
      rows_filtered_by_joins = d.of_ℕ 0;
      rows_filtered_by_expressions = d.of_ℕ 0;
    };
    buffer_usage = record {
      cache_hits = 0;
      cache_misses = 0;
      local_cache_hits = 0;
      local_cache_misses = 0;
      spill_file_reads = 0;
      spill_file_writes = 0;
    };
    magic = 0;
  }

  abbrev pub zero_entry : ℕ → BackendEntry F
  zero_entry max_nodes = record {
    backend_pid = 0;
    query_id = 0;
    poll_generation = 0;
    query_start_time = 0;
    count_of_metrics = 0;
    query_text = [];
    metrics = replicate max_nodes zero_node;
  }

  -- The loop over the entries.
  abbrev pub initial_slots : Settings → Slots F
  initial_slots s = replicate s.max_tracked_queries (zero_entry s.max_nodes_per_query)

  -- `found` is the memory that `ShmemInitStruct` found, if it did. A failed size computation raises
  -- an error: `none`.
  pub attach : Settings → ℕ → ℕ → Option (Slots F) → Shmem F → Shmem F
  attach s total stride (some slots) m = record m {
    shmem_size = total;
    backend_entry_stride = stride;
    slots = some slots;
  }
  attach s total stride none m = record {
    shmem_size = total;
    backend_entry_stride = stride;
    slots = some (initial_slots s);
    lock_initialized = true;
  }

  unfoldable pub shared_memory_startup_hook :
      SizeArith → Settings → Option (Slots F) → Shmem F → Option (Shmem F)
  unfolding attach
  shared_memory_startup_hook z s found m = elim (calc_shared_memory_size z s) [
    | none ↦ none
    | some total ↦ elim (calc_backend_entry_stride z s) [
      | none ↦ none
      | some stride ↦ some (attach s total stride found m)
    ]
  ]

  -- The size that the request hook asks for: the variable as it is then.
  abbrev pub shmem_request_hook : Shmem F → ℕ
  shmem_request_hook m = m.shmem_size

  -- The variables' initial values.
  abbrev pub load_time : Shmem F
  load_time = record {
    shmem_size = 0;
    backend_entry_stride = 0;
    slots = none;
    lock_initialized = false;
  }

  -- For settings in their ranges, the request hook at load time asks for 0 bytes, while the
  -- startup hook, if it finds no memory, computes a size above 0, clears every entry and
  -- initialises the lock.
  pub request_before_startup :
      (z : SizeArith) (s : Settings)
      → InRange s
      → (shmem_request_hook load_time ≡ 0)
        × (m : Shmem F) × (shared_memory_startup_hook z s none load_time ≡ some m)
        × (0 < m.shmem_size)
        × (m.slots ≡ some (initial_slots s))
        × (m.lock_initialized ≡ true)
  unfolding shared_memory_startup_hook
  request_before_startup z s r = (
    refl,
    attach s (sizeof_header + s.max_tracked_queries * stride_of s) (stride_of s) none load_time,
    ground (arith, size_lem z s r, stride_lem z s r),
    omega arith,
    refl,
    refl,
  )
