-- ===== src/Memory.antt =====
-- src/shared_memory.h and src/shared_memory.c: the slots in shared memory that the backends write
-- and the collectors read. The children prove what the operations keep.
pub mod Layout
pub mod Find
pub mod Claim
pub mod Distinct
pub mod Cleanup
pub mod Tally
pub mod Progress
pub mod Race
pub mod Holds
pub mod Startup
use pg_what_is_happening.Base.{
  ℕ, ◌+◌, ◌%◌, ◌^◌, ◌-◌, Bool, true, false, not, ◌&&◌, ◌||◌, Option, none, some, List, [], ◌∷◌,
  Bytes, ltb, ◌==◌, if◌then◌else◌, get_elem?, modify, length,
}
use pg_what_is_happening.Tags.{NodeTag}

-- `PWH_NODE_MAGIC`.
abbrev pub node_magic : ℕ
node_magic = 0xDEADBEEF

-- `PwhNodeMetrics.execution`, over the type `F` of `double` values.
pub record Execution (F : Type 0) : Type 0 where
  pub tuples_returned : F
  pub loops_executed : F
  pub startup_time_us : F
  pub total_time_us : F
  pub rows_filtered_by_joins : F
  pub rows_filtered_by_expressions : F

-- `PwhNodeMetrics.buffer_usage`, of `u64` fields.
pub record BufferUsage : Type 0 where
  pub cache_hits : ℕ
  pub cache_misses : ℕ
  pub local_cache_hits : ℕ
  pub local_cache_misses : ℕ
  pub spill_file_reads : ℕ
  pub spill_file_writes : ℕ

pub record NodeMetrics (F : Type 0) : Type 0 where
  pub tag : NodeTag
  pub node_id : ℕ
  pub parent_node_id : ℕ
  pub execution : Execution F
  pub buffer_usage : BufferUsage
  pub magic : ℕ

-- `PwhSharedMemoryBackendEntry` with the query text and the metrics array that follow it. The text
-- is the C string before its terminator.
pub record BackendEntry (F : Type 0) : Type 0 where
  pub backend_pid : ℕ
  pub query_id : ℕ
  pub poll_generation : ℕ
  pub query_start_time : ℕ
  pub count_of_metrics : ℕ
  pub query_text : Bytes
  pub metrics : List (NodeMetrics F)

-- The array of backend entries, `PWH_GUC_MAX_TRACKED_QUERIES` long.
abbrev pub Slots : Type 0 → Type 0
Slots F = List (BackendEntry F)

-- The initial value `-1U` of `free_slot_idx`.
abbrev pub no_slot : ℕ
no_slot = 2 ^ 32 - 1

abbrev pub u32_mod : ℕ
u32_mod = 2 ^ 32

module _ {F : Type 0} where
  abbrev pub is_backend_entry_active : BackendEntry F → Bool
  is_backend_entry_active be = not (be.backend_pid == 0)

  abbrev pub release_backend_entry_unlocked : BackendEntry F → BackendEntry F
  release_backend_entry_unlocked be = record be {
    backend_pid = 0;
    poll_generation = (be.poll_generation + 1) % u32_mod;
  }

  abbrev pub set_pid : ℕ → BackendEntry F → BackendEntry F
  set_pid pid be = record be { backend_pid = pid }

  -- The search loop, from slot `i` on: the slot of `pid`, and `free_slot_idx`.
  unfoldable pub scan_entries : ℕ → Slots F → ℕ → ℕ → Option ℕ × ℕ
  scan_entries pid [] i free_slot_idx = (none, free_slot_idx)
  scan_entries pid (be ∷ rest) i free_slot_idx =
      let take_free = scan_entries pid rest (i + 1) i in
      let go_on = scan_entries pid rest (i + 1) free_slot_idx in
      if free_slot_idx == no_slot && be.backend_pid == 0
      then take_free
      else if be.backend_pid == pid
      then (some i, free_slot_idx)
      else go_on

  -- What follows the loop.
  pub finish_claim : Bool → ℕ → Slots F → Option ℕ × ℕ → Option ℕ × Slots F
  finish_claim should_create pid slots (some i, free_slot_idx) = (some i, slots)
  finish_claim should_create pid slots (none, free_slot_idx) =
      if should_create && not (free_slot_idx == no_slot)
      then (some free_slot_idx, modify slots free_slot_idx (set_pid pid))
      else (none, slots)

  -- The returned pointer is the slot's index.
  unfoldable pub get_or_create_my_backend_entry_impl : Bool → ℕ → Slots F → Option ℕ × Slots F
  unfolding finish_claim scan_entries
  get_or_create_my_backend_entry_impl should_create pid slots =
      finish_claim should_create pid slots (scan_entries pid slots 0 no_slot)

  abbrev pub get_or_create_my_backend_entry : ℕ → Slots F → Option ℕ × Slots F
  get_or_create_my_backend_entry pid slots = get_or_create_my_backend_entry_impl true pid slots

  abbrev pub get_my_backend_entry : ℕ → Slots F → Option ℕ
  get_my_backend_entry pid slots = (get_or_create_my_backend_entry_impl false pid slots).0

  -- `none` is the NULL for an index out of range.
  abbrev pub get_backend_entry : Slots F → ℕ → Option (BackendEntry F)
  get_backend_entry slots index = get_elem? slots index

  -- The loop stops at the first slot of `pid`.
  unfoldable pub release_my_backend_entry : ℕ → Slots F → Slots F
  release_my_backend_entry pid [] = []
  release_my_backend_entry pid (be ∷ rest) =
      if be.backend_pid == pid
      then release_backend_entry_unlocked be ∷ rest
      else be ∷ release_my_backend_entry pid rest

  -- `signal_process` by a predicate on the target: whether `kill(pid, SIGUSR2)` returns 0. The result
  -- is the count, and the processes that SIGUSR2 was sent to.
  unfoldable pub request_backend_metrics_unlocked : (ℕ → Bool) → Slots F → ℕ × List ℕ
  request_backend_metrics_unlocked kill_usr2 [] = (0, [])
  request_backend_metrics_unlocked kill_usr2 (be ∷ rest) =
      let (n_signaled, sent) = request_backend_metrics_unlocked kill_usr2 rest in
      if is_backend_entry_active be && kill_usr2 be.backend_pid
      then (n_signaled + 1, be.backend_pid ∷ sent)
      else (n_signaled, sent)

  abbrev pub validate_node_magic : NodeMetrics F → Bool
  validate_node_magic node = node.magic == node_magic

-- The outcome of `kill(pid, 0)`: success, or a failure with its `errno`.
pub data KillResult : Type 0 where
  delivered : KillResult
  esrch eperm other_errno : KillResult

abbrev pub check_if_process_exists : KillResult → Bool
check_if_process_exists delivered = true
check_if_process_exists esrch = false
check_if_process_exists eperm = true
check_if_process_exists other_errno = true

module _ {F : Type 0} (kill0 : ℕ → KillResult) where
  -- The number of slots that were freed, and the slots.
  unfoldable pub cleanup_orphaned_slots : Slots F → ℕ × Slots F
  cleanup_orphaned_slots [] = (0, [])
  cleanup_orphaned_slots (be ∷ rest) =
      let (n_cleaned, rest') = cleanup_orphaned_slots rest in
      if is_backend_entry_active be && not (check_if_process_exists (kill0 be.backend_pid))
      then (n_cleaned + 1, release_backend_entry_unlocked be ∷ rest')
      else (n_cleaned, be ∷ rest')
